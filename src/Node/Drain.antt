-- ===== src/Node/Drain.antt =====
-- The timeouts of a node, one after another.
use graphvent.Prelude.{
  ℕ, zero, suc, ◌≤◌, ◌≡◌, ◌≢◌, refl, ap, ◌∙◌, inl, inr, List, [], ◌∷◌, Option, none, some, length,
  get_elem?, All, All-mono, arith,
}
use mathlib.Core.Path.{subst}
use mathlib.Core.List.{Permᴰ}
use graphvent.Node.{
  QueuedSignal, Node, queued_id, index_of, swap_remove, reschedule, soonest_signal, with_queue,
  fire_at, fire_next, fired_first, timeout_fires, timeouts_fire,
}
use graphvent.Node.Removal.{All-Perm, length-Perm, All-get_elem, swap_remove-Perm, index_of-Lookup}
use graphvent.Node.Soonest.{soonest_signal-cases}

-- Signals with one id are one signal.
unfoldable pub HasUniqueIds : List QueuedSignal → Type 0
HasUniqueIds qs = All (λ p. All (λ q. queued_id p ≡ queued_id q → p ≡ q) qs) qs

abbrev pub IsOrdered : List QueuedSignal → Type 0
IsOrdered [] = Unit
IsOrdered (q ∷ qs) = All (λ p. q.time ≤ p.time) qs × IsOrdered qs

HasUniqueIds-Perm : {xs ys : List QueuedSignal} → Permᴰ xs ys → HasUniqueIds xs → HasUniqueIds ys
unfolding HasUniqueIds
HasUniqueIds-Perm {xs = xs} {ys = ys} p h =
    All-Perm (λ a. All (λ b. queued_id a ≡ queued_id b → a ≡ b) ys) p
      (All-mono (λ a. All (λ b. queued_id a ≡ queued_id b → a ≡ b) xs)
        (λ a. All (λ b. queued_id a ≡ queued_id b → a ≡ b) ys) xs
        (λ a h'. All-Perm (λ b. queued_id a ≡ queued_id b → a ≡ b) p h') h)

HasUniqueIds-tail :
    (q : QueuedSignal) (qs : List QueuedSignal) → HasUniqueIds (q ∷ qs) → HasUniqueIds qs
unfolding HasUniqueIds
HasUniqueIds-tail q qs h =
    All-mono (λ a. All (λ b. queued_id a ≡ queued_id b → a ≡ b) (q ∷ qs))
      (λ a. All (λ b. queued_id a ≡ queued_id b → a ≡ b) qs) qs (λ a h'. h'.1) h.1

same_signal :
    (qs : List QueuedSignal) (i j : ℕ) (a b : QueuedSignal)
    → HasUniqueIds qs
    → get_elem? qs i ≡ some a
    → get_elem? qs j ≡ some b
    → queued_id a ≡ queued_id b
    → a ≡ b
unfolding HasUniqueIds
same_signal qs i j a b h ea eb e =
    All-get_elem (λ b'. queued_id a ≡ queued_id b' → a ≡ b') qs j b
      (All-get_elem (λ a'. All (λ b'. queued_id a' ≡ queued_id b' → a' ≡ b') qs) qs i a h ea) eb e

-- The timeout of a node that is scheduled.
abbrev Firing : ℕ → ℕ → List QueuedSignal → Type 0
Firing now then_at qs =
    (r : QueuedSignal) × (left : List QueuedSignal) × (timeout_fires then_at (reschedule now qs)
      ≡ some (r, reschedule then_at left))
    × Permᴰ qs (r ∷ left)
    × All (λ p. r.time ≤ p.time) qs

not_empty : (q : QueuedSignal) (qs : List QueuedSignal) → q ∷ qs ≡ [] → ⊥
not_empty q qs e = omega (arith, ap length e)

fires :
    (now then_at : ℕ) (qs : List QueuedSignal) (r : QueuedSignal) (i : ℕ) (left : List QueuedSignal)
    → (soonest_signal now qs).0 ≡ some r
    → index_of (queued_id r) qs ≡ some i
    → swap_remove i qs ≡ some left
    → timeout_fires then_at (reschedule now qs) ≡ some (r, reschedule then_at left)
unfolding timeout_fires reschedule swap_remove
fires now then_at qs r i left soonest found removed =
    let node : Node = reschedule now qs in
    ap (fire_next then_at node) soonest
    ∙ ap (fire_at then_at r node) found
    ∙ ap (with_queue then_at r) removed

timeout_fires-Perm :
    (now then_at : ℕ) (q : QueuedSignal) (qs : List QueuedSignal)
    → HasUniqueIds (q ∷ qs)
    → Firing now then_at (q ∷ qs)
timeout_fires-Perm now then_at q qs unique = elim (soonest_signal-cases now (q ∷ qs)) [
  | inl h ↦ absurd (not_empty q qs h.0)
  | inr h ↦ elim (index_of-Lookup (queued_id h.0) (q ∷ qs)) [
    | inl missing ↦
        absurd
          (All-get_elem (λ p. queued_id p ≢ queued_id h.0) (q ∷ qs) h.2.0 h.0 missing.1 h.2.1 refl)
    | inr found ↦
        let r : (ys : List QueuedSignal) × (swap_remove found.0 (q ∷ qs) ≡ some ys)
            × Permᴰ (q ∷ qs) (found.1 ∷ ys) =
          swap_remove-Perm (q ∷ qs) found.0 found.1 found.3 in
        (
          h.0,
          r.0,
          fires now then_at (q ∷ qs) h.0 found.0 r.0 (ap (λ p. p.0) h.1) found.2 r.1,
          subst (λ p. Permᴰ (q ∷ qs) (p ∷ r.0))
              (same_signal (q ∷ qs) found.0 h.2.0 found.1 h.0 unique found.3 h.2.1 found.4) r.2,
          h.3,
        )
  ]
]

-- What the timeouts have done when there were as many as signals in the queue.
abbrev Drains : (ℕ → ℕ) → ℕ → ℕ → List QueuedSignal → Type 0
Drains clock now n qs =
    (fired : List QueuedSignal) × (then_at : ℕ) × (timeouts_fire clock n (reschedule now qs)
      ≡ some (fired, reschedule then_at []))
    × Permᴰ qs fired
    × IsOrdered fired

-- From a node whose queue of n signals, no two with one id, has just been scheduled, n timeouts one
-- after another, whatever the clock says, never panic: each signal of the queue fires once, in the
-- order of their times, and the queue is empty then.
pub timeouts_fire-Perm :
    (clock : ℕ → ℕ) (now n : ℕ) (qs : List QueuedSignal)
    → length qs ≡ n
    → HasUniqueIds qs
    → (fired : List QueuedSignal) × (then_at : ℕ) × (timeouts_fire clock n (reschedule now qs)
        ≡ some (fired, reschedule then_at []))
      × Permᴰ qs fired
      × IsOrdered fired
unfolding timeouts_fire
timeouts_fire-Perm clock now zero [] long unique = ([], now, refl, Permᴰ.nil, tt)
timeouts_fire-Perm clock now (suc n) [] long unique = absurd (omega (arith, long))
timeouts_fire-Perm clock now zero (q ∷ qs) long unique = absurd (omega (arith, long))
timeouts_fire-Perm clock now (suc n) (q ∷ qs) long unique =
    let f : Firing now (clock n) (q ∷ qs) = timeout_fires-Perm now (clock n) q qs unique in
    let rest : Drains clock (clock n) n f.1 =
      timeouts_fire-Perm clock (clock n) n f.1 (omega (arith, long, length-Perm f.3))
        (HasUniqueIds-tail f.0 f.1 (HasUniqueIds-Perm f.3 unique)) in
    (
      f.0 ∷ rest.0,
      rest.1,
      ap
            (λ o. elim o as (λ o'. Option (List QueuedSignal × Node)) [
              | none ↦ none
              | some fired ↦ fired_first fired.0 (timeouts_fire clock n fired.1)
            ])
            f.2
          ∙ ap (fired_first f.0) rest.2,
      Permᴰ.trans f.3 (Permᴰ.cons refl rest.3),
      (
        All-Perm (λ p. f.0.time ≤ p.time) rest.3 (All-Perm (λ p. f.0.time ≤ p.time) f.3 f.4).1,
        rest.4,
      ),
    )
