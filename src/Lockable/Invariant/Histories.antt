-- ===== src/Lockable/Invariant/Histories.antt =====
-- Whole histories of an extension of lockable.go.
use mathlib.Core.Path.{subst}
use graphvent.Prelude.{ℕ, ◌≤◌, ◌≡◌, refl, true, false, List, Option, none, some, arith}
use graphvent.Prelude.Maps.{lookup, IsRange}
use graphvent.Signal.{NodeId, Uuid, Signal}
use graphvent.Lockable.{ReqState, unlocked, locked, LockableExt, entries, new_lockable_ext, load}
use graphvent.Lockable.Reply.{Reply}
use graphvent.Lockable.Process.{process}
use graphvent.Lockable.Tracking.{in_flight, IsInjective}
use graphvent.Lockable.Phase.{IsConsistent}
use graphvent.Lockable.Invariant.Good.{later-IsConsistent}
use graphvent.Lockable.Invariant.Init.{
  new_lockable_ext-IsConsistent, load-IsConsistent, forget_sets,
}
use graphvent.Lockable.Invariant.Process.{removes, process-IsConsistent}

-- What can become of an extension, with `n` UUIDs drawn, that starts with `n₀` drawn: signals
-- arrive, each with the order in which ranges visit the requirements, others draw UUIDs meanwhile,
-- and the node is loaded again from what was stored.
pub data History (new_uuid : ℕ → Uuid) (node_id : NodeId) (n₀ : ℕ) (ext₀ : LockableExt)
    : ℕ → LockableExt → Type 0 where
  begin : History new_uuid node_id n₀ ext₀ n₀ ext₀
  signalled :
      {n : ℕ} {ext : LockableExt} (n' : ℕ) (source : NodeId) (signal : Signal) (order : List NodeId)
      (r : Reply)
      → History new_uuid node_id n₀ ext₀ n ext
      → n ≤ n'
      → IsRange (entries ext.requirements) order
      → removes signal ≡ false
      → process new_uuid ext n' node_id source signal order ≡ some r
      → History new_uuid node_id n₀ ext₀ r.issued r.ext
  reloaded :
      {n : ℕ} {ext : LockableExt}
      → History new_uuid node_id n₀ ext₀ n ext
      → History new_uuid node_id n₀ ext₀ n (load ext)

module _ (new_uuid : ℕ → Uuid) (distinct : IsInjective new_uuid) (node_id : NodeId) where
  pub History-IsConsistent :
      {n₀ : ℕ} {ext₀ : LockableExt} {n : ℕ} {ext : LockableExt}
      → IsConsistent new_uuid n₀ ext₀
      → History new_uuid node_id n₀ ext₀ n ext
      → IsConsistent new_uuid n ext
  History-IsConsistent c begin = c
  History-IsConsistent c (signalled {ext = ext} n' source signal order r h le range keep e) =
      let before = later-IsConsistent new_uuid le (History-IsConsistent c h) in
      let (r', e', after, _) =
        process-IsConsistent new_uuid distinct ext n' node_id source signal order before range
          keep in
      let same : r' ≡ r = cc (e, e') in
      subst {A = Reply} (λ x. IsConsistent new_uuid x.issued x.ext) same after
  History-IsConsistent c (reloaded {ext = ext} h) =
      load-IsConsistent new_uuid _ ext (forget_sets (History-IsConsistent c h))

  -- However a new extension is used, short of removing a requirement: while it is Locked all its
  -- requirements are Locked, while it is Unlocked they all are Unlocked and no answer is waited for,
  -- and in any state a requirement is waited for exactly if it is being locked or unlocked.
  pub History-phases :
      (requirements : List NodeId) {n₀ n : ℕ} {ext : LockableExt}
      → History new_uuid node_id n₀ (new_lockable_ext requirements) n ext
      → (ext.state ≡ locked
          → (id : NodeId) (s : ReqState) → lookup id (entries ext.requirements) ≡ some s
          → s ≡ locked)
        × (ext.state ≡ unlocked
            → ((id : NodeId) (s : ReqState)
                → lookup id (entries ext.requirements) ≡ some s
                → s ≡ unlocked)
              × ((u : Uuid) → lookup u ext.waiting ≡ none))
        × ((id : NodeId)
            → (in_flight (lookup id (entries ext.requirements)) ≡ true
                → (u : Uuid) × (lookup u ext.waiting ≡ some id))
              × ((u : Uuid)
                  → lookup u ext.waiting ≡ some id
                  → in_flight (lookup id (entries ext.requirements)) ≡ true))
  History-phases requirements {n₀} {n} {ext} h = (
    λ e id s p. ground (arith, c.fitting id),
    λ e. (λ id s p. ground (arith, c.fitting id), λ u. idle e u (lookup u ext.waiting) refl),
    λ id. (c.tracked.covered id, λ u. c.tracked.flying u id),
  )
    where
      c : IsConsistent new_uuid n ext
      c = History-IsConsistent (new_lockable_ext-IsConsistent new_uuid n₀ requirements) h

      idle :
          ext.state ≡ unlocked
          → (u : Uuid) (o : Option NodeId) → lookup u ext.waiting ≡ o
          → lookup u ext.waiting ≡ none
      idle e u none q = q
      idle e u (some id) q = absurd (ground (arith, c.tracked.flying u id, c.fitting id))
