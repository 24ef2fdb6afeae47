-- ===== src/Processing/Changes.antt =====
-- The status signal that a node's changes are queued as.
use mathlib.Core.Bool.{false≢true}
use mathlib.Core.Option.{none-ne-some, some-injective}
use mathlib.Core.Path.{subst}
use graphvent.Prelude.{
  ℕ, ◌≤◌, ◌≡◌, ◌≢◌, refl, sym, ap, ◌∙◌, ◌⊎◌, inl, inr, Bool, true, false, map, append-nil, ◌==◌,
  String, List, [], ◌∷◌, ◌++◌, length, Option, none, some, All, ltb, if◌then◌else◌, arith,
}
use graphvent.Signal.{NodeId, Uuid, Signal, Message, status}
use graphvent.Node.{QueuedSignal, Node, ready, at_time, soonest_signal, queue_signal, reschedule}
use graphvent.Node.Soonest.{soonest_signal-cases}
use graphvent.Processing.Names.{Names, tag_pairs, changed_fields-Names}
use graphvent.Processing.Sending.{delivered, Sends, send-Sends}
use graphvent.Processing.{
  Status, fine, failed, panicked, ReverseFields, changed_fields, queue_changes, queue_status,
  Answers, process_extensions, send, Processed, deliver, process_node, after_send,
}

-- A queue with a signal of time 0 at its end: the next signal is one of time 0, at once.
abbrev Immediate : ℕ → List QueuedSignal → Type 0
Immediate now qs = (r : QueuedSignal) × (soonest_signal now qs ≡ (some r, ready 0)) × (r.time ≡ 0)

last_le :
    (bound : ℕ) (qs : List QueuedSignal) (q : QueuedSignal)
    → All (λ p. bound ≤ p.time) (qs ++ q ∷ [])
    → bound ≤ q.time
last_le bound [] q h = h.0
last_le bound (p ∷ qs) q h = last_le bound qs q h.1

cons_nil : {A : Type 0} (x : A) (xs : List A) → x ∷ xs ≡ [] → ⊥
cons_nil x xs e = omega (arith, ap length e)

not_nil : (qs : List QueuedSignal) (q : QueuedSignal) → qs ++ q ∷ [] ≡ [] → ⊥
not_nil [] q e = cons_nil q [] e
not_nil (p ∷ qs) q e = cons_nil p (qs ++ q ∷ []) e

immediate :
    (now : ℕ) (qs : List QueuedSignal) (q : QueuedSignal)
    → q.time ≡ 0
    → Immediate now (qs ++ q ∷ [])
immediate now qs q at = elim (soonest_signal-cases now (qs ++ q ∷ [])) [
  | inl h ↦ absurd (not_nil qs q h.0)
  | inr h ↦
      let first : h.0.time ≡ 0 = omega (arith, at, last_le h.0.time qs q h.3) in
      (
        h.0,
        h.1
            ∙ ap (λ t. (some h.0, if ltb now t then at_time t else ready t)) first
            ∙ ap (λ b. (some h.0, if b then at_time 0 else ready 0)) (never now),
        first,
      )
]
  where
    never : (n : ℕ) → ltb n 0 ≡ false
    never n = ground arith

abbrev pub StatusQueued : ℕ → NodeId → Uuid → List String → Node → Node → Type 0
StatusQueued now self id fields before node =
    (node.signal_queue
      ≡ before.signal_queue ++ (record { signal = status id self fields; time = 0 }) ∷ [])
    × ((r : QueuedSignal) × (node.next_signal ≡ some r) × (r.time ≡ 0))
    × (node.timeout_chan ≡ ready 0)

-- For a node type that the context has, let the names be those of the fields that the changed tags
-- stand for by its ReverseFields, in the order of the tags, tags without a field being passed over.
-- QueueChanges changes nothing if there is no name. Else it queues one status signal of this node with
-- those names, and the node's next timeout is ready at once, for a signal of the zero time.
pub queue_changes-cases :
    (now : ℕ) (self : NodeId) (id : Uuid) (reverse_fields : ReverseFields)
    (changes : List (ℕ × List String)) (node : Node)
    → (names : List String) × Names reverse_fields (tag_pairs changes) names
      × (((names ≡ [])
            × (queue_changes now self id (some reverse_fields) changes node ≡ (node, fine)))
          ⊎ ((names ≢ [])
              × ((queue_changes now self id (some reverse_fields) changes node).1 ≡ fine)
              × StatusQueued now self id names node
                  (queue_changes now self id (some reverse_fields) changes node).0))
unfolding queue_changes queue_signal reschedule
queue_changes-cases now self id reverse_fields changes node = (
  changed_fields reverse_fields changes,
  changed_fields-Names reverse_fields changes,
  by_fields (changed_fields reverse_fields changes),
)
  where
    by_fields :
        (fields : List String)
        → (((fields ≡ [])
              × (Path (Node × Status) (queue_status now self id fields node, fine) (node, fine)))
            ⊎ ((fields ≢ [])
                × (Path Status fine fine)
                × StatusQueued now self id fields node (queue_status now self id fields node)))
    by_fields [] = inl (refl, refl)
    by_fields (f ∷ fs) =
        let q : QueuedSignal = record { signal = status id self (f ∷ fs); time = 0 } in
        let i : Immediate now (node.signal_queue ++ q ∷ []) =
          immediate now node.signal_queue q refl in
        inr (cons_nil f fs, refl, (refl, (i.0, ap (λ p. p.0) i.1, i.2), ap (λ p. p.1) i.1))

is_fine : Status → Bool
is_fine fine = true
is_fine failed = false
is_fine panicked = false

fine_not_failed : fine ≡ failed → ⊥
unfolding is_fine
fine_not_failed e = false≢true (sym (ap is_fine e))

fine_not_panicked : fine ≡ panicked → ⊥
unfolding is_fine
fine_not_panicked e = false≢true (sym (ap is_fine e))

module _ {Ext : Type 0}
    (ext_process : Ext → NodeId → Signal → Option (Ext × List Message × List String)) where
  -- When Process leaves the node's queue changed, the extensions have returned and every message that
  -- they answered with was sent, in order, each to a node that getNode returns: no status signal is
  -- queued for changes whose messages were not sent.
  pub process_node-sent :
      (get_node : NodeId → Bool) (null_id : NodeId) (now : ℕ) (self : NodeId) (id : Uuid)
      (reverse_fields : Option ReverseFields) (source : NodeId) (signal : Signal)
      (exts : List (ℕ × Ext)) (node : Node) (p : Processed ext_process)
      → process_node ext_process get_node null_id now self id reverse_fields source signal exts node
        ≡ some p
      → p.node ≢ node
      → (a : Answers Ext) × (process_extensions ext_process source signal exts ≡ some a)
        × (p.extensions ≡ a.extensions)
        × (p.sent ≡ map (delivered self) a.messages)
        × All (λ m. ((m.node == null_id) ≡ false) × (get_node m.node ≡ true)) a.messages
  unfolding process_node deliver after_send
  process_node-sent get_node null_id now self id reverse_fields source signal exts node p e
        changed =
      by_answers (process_extensions ext_process source signal exts) refl e
    where
      Sent : Answers Ext → Type 0
      Sent a =
          (p.sent ≡ map (delivered self) a.messages)
          × All (λ m. ((m.node == null_id) ≡ false) × (get_node m.node ≡ true)) a.messages

      by_end :
          (a : Answers Ext) (r : List (NodeId × Message) × Status)
          → Sends null_id get_node self a.messages r
          → deliver ext_process get_node null_id now self id reverse_fields node a r ≡ p
          → Sent a
      by_end a (sent, fine) (first, left, all, same, ok, inl stops) d =
          let whole : a.messages ≡ first = all ∙ ap (λ l. first ++ l) stops.1 ∙ append-nil first in
          (
            ap (λ q. q.sent) (sym d) ∙ same ∙ ap (map (delivered self)) (sym whole),
            subst {A = List Message}
                (All (λ m. ((m.node == null_id) ≡ false) × (get_node m.node ≡ true))) (sym whole)
                ok,
          )
      by_end a (sent, fine) (first, left, all, same, ok, inr (next, others, l, inl h)) d =
          absurd (fine_not_panicked h.0)
      by_end a (sent, fine) (first, left, all, same, ok, inr (next, others, l, inr h)) d =
          absurd (fine_not_failed h.0)
      by_end a (sent, failed) s d = absurd (changed (ap (λ q. q.node) (sym d)))
      by_end a (sent, panicked) s d = absurd (changed (ap (λ q. q.node) (sym d)))

      by_answers :
          (o : Option (Answers Ext))
          → process_extensions ext_process source signal exts ≡ o
          → elim o as (λ x. Option (Processed ext_process)) [
            | none ↦ none
            | some a ↦ some (
                deliver ext_process get_node null_id now self id reverse_fields node a
                  (send null_id get_node self a.messages))
          ]
            ≡ some p
          → (a : Answers Ext) × (process_extensions ext_process source signal exts ≡ some a)
            × (p.extensions ≡ a.extensions)
            × (p.sent ≡ map (delivered self) a.messages)
            × All (λ m. ((m.node == null_id) ≡ false) × (get_node m.node ≡ true)) a.messages
      by_answers none known none_there = absurd (none-ne-some p none_there)
      by_answers (some a) known some_there =
          let d = some-injective _ p some_there in
          let s : Sent a =
            by_end a (send null_id get_node self a.messages)
              (send-Sends null_id get_node self a.messages) d in
          (a, known, ap (λ q. q.extensions) (sym d), s.0, s.1)
