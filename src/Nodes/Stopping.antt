-- ===== src/Nodes/Stopping.antt =====
-- context.go: Stop, with what nodeLoop of node.go does on its command.
use mathlib.Core.Path.{subst}
use mathlib.Core.Bool.{false≢true}
use graphvent.Prelude.{
  ◌≡◌, refl, sym, ap, ◌∙◌, Bool, true, false, ◌||◌, List, [], ◌∷◌, Option, none, some, ◌⊎◌, inl,
  inr, if◌then◌else◌, ◌==◌, ==_iff, ==_refl, Bool-cases, arith,
}
use graphvent.Prelude.Maps.{Map, lookup, has, IsUnique}
use graphvent.Signal.{NodeId}
use graphvent.Serialize.Reading.{if_false}
use graphvent.Database.{StoredNode}
use graphvent.Database.Loading.{load_node}
use graphvent.Waiting.Commands.{
  stop, command, Waits, at_select, in_pause, in_unload, ended, crashed, Output, paused, resumed,
  give, answer_read, stopped, loop_step,
}
use graphvent.Nodes.{
  not_stopped, Reply, returned, failed, panicked, blocked, no_fuel, NodeContext, Nodes, Call,
  add_loaded, get_node,
}

-- Where the loops of the nodes wait, or come to wait next.
abbrev pub Loops : Type 0
Loops = NodeId → Waits

abbrev pub set_loop : NodeId → Waits → Loops → Loops
set_loop id w loops k = if k == id then w else loops k

-- The status that a loop sends first.
abbrev pub first_status : List Output → Option Output
first_status [] = none
first_status (give s ∷ outs) = first_status outs
first_status (answer_read source id ∷ outs) = first_status outs
first_status (paused ∷ outs) = some paused
first_status (resumed ∷ outs) = some resumed
first_status (stopped ∷ outs) = some stopped

-- What Stop gets for its command: it waits forever if the command or a status does not come through.
abbrev pub status_reply : Option Output → Reply (Unit {0})
status_reply none = blocked
status_reply (some stopped) = returned tt
status_reply (some o) = failed not_stopped

abbrev pub command_reply : Waits → Option (Waits × List Output) → Waits × Reply (Unit {0})
command_reply w none = (w, blocked)
command_reply w (some r) = (r.0, status_reply (first_status r.1))

abbrev pub and_stop :
    NodeId
    → Loops
    → Waits × Reply (Unit {0})
    → (Loops → Loops × Reply (Unit {0}))
    → Loops × Reply (Unit {0})
and_stop id loops (w, returned u) f = f (set_loop id w loops)
and_stop id loops (w, failed e) f = (set_loop id w loops, failed e)
and_stop id loops (w, panicked) f = (set_loop id w loops, panicked)
and_stop id loops (w, blocked) f = (set_loop id w loops, blocked)
and_stop id loops (w, no_fuel) f = (set_loop id w loops, no_fuel)

-- Whether Unload of all extensions of a node returns, behind the nil signal that its loop gives them.
module _ (null_id : NodeId) (unloads : NodeId → Bool) where
  -- The loop of `Stop` over the nodes.
  unfoldable pub stop_nodes : Map StoredNode → Loops → Loops × Reply (Unit {0})
  unfolding loop_step
  stop_nodes [] loops = (loops, returned tt)
  stop_nodes ((id, node) ∷ nodes) loops =
      and_stop id loops
        (command_reply (loops id) (loop_step null_id (unloads id) (loops id) (command stop)))
        λ loops'. stop_nodes nodes loops'

module _ (ctx : NodeContext) where
  abbrev pub forget_nodes : Nodes ctx → Loops × Reply (Unit {0}) → Loops × Call ctx (Unit {0})
  forget_nodes w (loops, returned u) = (loops, (record { nodes = []; db = w.db }, returned u))
  forget_nodes w (loops, failed e) = (loops, (w, failed e))
  forget_nodes w (loops, panicked) = (loops, (w, panicked))
  forget_nodes w (loops, blocked) = (loops, (w, blocked))
  forget_nodes w (loops, no_fuel) = (loops, (w, no_fuel))

  -- `Stop`
  unfoldable pub stop_context :
      NodeId → (NodeId → Bool) → Loops → Nodes ctx → Loops × Call ctx (Unit {0})
  unfolding stop_nodes
  stop_context null_id unloads loops w = forget_nodes w (stop_nodes null_id unloads w.nodes loops)

-- A loop that receives commands.
abbrev pub receives : Waits → Bool
receives at_select = true
receives in_pause = true
receives in_unload = false
receives ended = false
receives crashed = false

-- What a stop leads to.
abbrev Ends : NodeId → Bool → Waits → Type 0
Ends null_id unloads w =
    (command_reply w (loop_step null_id unloads w (command stop)) ≡ (ended, returned tt))
    × (receives w ≡ true)
    × (unloads ≡ true)

abbrev NeverEnds : NodeId → Bool → Waits → Type 0
NeverEnds null_id unloads w =
    (w' : Waits) × (command_reply w (loop_step null_id unloads w (command stop)) ≡ (w', blocked))
    × ((receives w ≡ false) ⊎ (unloads ≡ false))

stop_step :
    (null_id : NodeId) (unloads : Bool) (w : Waits)
    → NeverEnds null_id unloads w ⊎ Ends null_id unloads w
unfolding loop_step
stop_step null_id true at_select = inr (refl, refl, refl)
stop_step null_id false at_select = inl (in_unload, refl, inr refl)
stop_step null_id true in_pause = inr (refl, refl, refl)
stop_step null_id false in_pause = inl (in_unload, refl, inr refl)
stop_step null_id unloads in_unload = inl (in_unload, refl, inl refl)
stop_step null_id unloads ended = inl (ended, refl, inl refl)
stop_step null_id unloads crashed = inl (crashed, refl, inl refl)

-- The loops of the listed nodes end, and no other.
abbrev pub EndsAll : Map StoredNode → Loops → Loops → Type 0
EndsAll nodes loops loops' = (k : NodeId) → loops' k ≡ (if has k nodes then ended else loops k)

-- A loop does not receive commands, or an Unload of its node's extensions does not return.
abbrev pub IsStuck : (NodeId → Bool) → Loops → NodeId → Type 0
IsStuck unloads loops id = (receives (loops id) ≡ false) ⊎ (unloads id ≡ false)

abbrev pub HasStuck : (NodeId → Bool) → Map StoredNode → Loops → Type 0
HasStuck unloads nodes loops = (id : NodeId) × (has id nodes ≡ true) × IsStuck unloads loops id

-- No node is stuck.
abbrev pub AreFree : (NodeId → Bool) → Map StoredNode → Loops → Type 0
AreFree unloads nodes loops =
    (id : NodeId) → has id nodes ≡ true → (receives (loops id) ≡ true) × (unloads id ≡ true)

both_ended :
    (b c : Bool) (w : Waits)
    → (if c then ended else if b then ended else w) ≡ (if b || c then ended else w)
both_ended true true w = refl
both_ended true false w = refl
both_ended false true w = refl
both_ended false false w = refl

module _ (null_id : NodeId) (unloads : NodeId → Bool) where
  other_id :
      (id k : NodeId) (nodes : Map StoredNode)
      → has id nodes ≡ false
      → has k nodes ≡ true
      → (k == id) ≡ false
  other_id id k nodes fresh there = ground (arith, there, fresh, ==_iff k id)

  same_loop :
      (id k : NodeId) (nodes : Map StoredNode) (loops : Loops)
      → has id nodes ≡ false
      → has k nodes ≡ true
      → set_loop id ended loops k ≡ loops k
  same_loop id k nodes loops fresh there =
      if_false (k == id) ended (loops k) (other_id id k nodes fresh there)

  earlier-HasStuck :
      (id : NodeId) (node : StoredNode) (nodes : Map StoredNode) (loops : Loops)
      → has id nodes ≡ false
      → HasStuck unloads nodes (set_loop id ended loops)
      → HasStuck unloads ((id, node) ∷ nodes) loops
  unfolding has
  earlier-HasStuck id node nodes loops fresh h = (
    h.0,
    ground (arith, h.1),
    subst {A = Waits} (λ w. (receives w ≡ false) ⊎ (unloads h.0 ≡ false))
        (same_loop id h.0 nodes loops fresh h.1) h.2,
  )

  earlier-AreFree :
      (id : NodeId) (node : StoredNode) (nodes : Map StoredNode) (loops : Loops)
      → has id nodes ≡ false
      → (receives (loops id) ≡ true) × (unloads id ≡ true)
      → AreFree unloads nodes (set_loop id ended loops)
      → AreFree unloads ((id, node) ∷ nodes) loops
  unfolding has
  earlier-AreFree id node nodes loops fresh first later k there = elim (Bool-cases (k == id)) [
    | inl same ↦
        subst {A = NodeId} (λ j. (receives (loops j) ≡ true) × (unloads j ≡ true))
          (sym ((==_iff k id).0 same)) first
    | inr other ↦
        let listed : has k nodes ≡ true = ground (arith, there, other) in
        subst {A = Waits} (λ w. (receives w ≡ true) × (unloads k ≡ true))
          (same_loop id k nodes loops fresh listed) (later k listed)
  ]

  abbrev StopCases : Map StoredNode → Loops → Loops × Reply (Unit {0}) → Type 0
  StopCases nodes loops r =
      ((r.1 ≡ returned tt) × AreFree unloads nodes loops × EndsAll nodes loops r.0)
      ⊎ ((r.1 ≡ blocked) × HasStuck unloads nodes loops)

  stop_nodes-cases :
      (nodes : Map StoredNode) (loops : Loops)
      → IsUnique nodes
      → StopCases nodes loops (stop_nodes null_id unloads nodes loops)
  unfolding stop_nodes has
  stop_nodes-cases [] loops u = inl (refl, λ k there. absurd (false≢true there), λ k. refl)
  stop_nodes-cases ((id, node) ∷ nodes) loops u =
      let later = stop_nodes-cases nodes (set_loop id ended loops) u.1 in
      elim (stop_step null_id (unloads id) (loops id)) [
        | inl stuck ↦ inr (
          ap (λ c. (and_stop id loops c λ loops'. stop_nodes null_id unloads nodes loops').1)
              stuck.1,
          (id, ap (λ b. b || has id nodes) (==_refl id), stuck.2),
        )
        | inr ends ↦
            subst
              (λ r.
                StopCases ((id, node) ∷ nodes) loops
                  (and_stop id loops r λ loops'. stop_nodes null_id unloads nodes loops'))
              (sym ends.0)
              (elim later [
                | inl done ↦ inl (
                  done.0,
                  earlier-AreFree id node nodes loops u.0 (ends.1, ends.2) done.1,
                  λ k. done.2 k ∙ both_ended (k == id) (has k nodes) (loops k),
                )
                | inr waits ↦ inr (waits.0, earlier-HasStuck id node nodes loops u.0 waits.1)
              ])
      ]

-- Stop, of nodes with an ID each: if the loop of every node receives commands and every Unload returns,
-- it returns, these loops have ended and no other, and a node is got from the database again; else it
-- waits forever, at a node whose loop does not receive commands or has an Unload that does not return,
-- and the nodes still count as running.
pub stop_context-cases :
    (ctx : NodeContext) (null_id : NodeId) (unloads : NodeId → Bool) (loops : Loops) (w : Nodes ctx)
    → IsUnique w.nodes
    → let r = stop_context ctx null_id unloads loops w in
      let w' : Nodes ctx = record { nodes = []; db = w.db } in
      ((r.1 ≡ (w', returned tt))
        × AreFree unloads w.nodes loops
        × EndsAll w.nodes loops r.0
        × ((id : NodeId)
            → get_node ctx id w'
              ≡ add_loaded ctx id (load_node ctx.badger ctx.db_context ctx.fuel w.db.store id) w'))
      ⊎ ((r.1 ≡ (w, blocked)) × HasStuck unloads w.nodes loops)
unfolding stop_context get_node lookup
stop_context-cases ctx null_id unloads loops w u =
    elim (stop_nodes-cases null_id unloads w.nodes loops u) [
      | inl done ↦
          let ends = forgets (returned tt) done.0 in
          inl (ap (λ c. c.1) ends, done.1, λ k. ap (λ c. c.0 k) ends ∙ done.2 k, λ id. refl)
      | inr waits ↦ inr (ap (λ c. c.1) (forgets blocked waits.0), waits.1)
    ]
  where
    r : Loops × Reply (Unit {0})
    r = stop_nodes null_id unloads w.nodes loops

    forgets :
        (reply : Reply (Unit {0}))
        → r.1 ≡ reply
        → stop_context ctx null_id unloads loops w ≡ forget_nodes ctx w (r.0, reply)
    forgets reply e = ap (λ x. forget_nodes ctx w (r.0, x)) e
