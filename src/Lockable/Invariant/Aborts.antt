-- ===== src/Lockable/Invariant/Aborts.antt =====
-- An error while locking, in a consistent extension of lockable.go.
use graphvent.Prelude.{
  ℕ, ◌≤◌, ◌≡◌, refl, true, List, some, if◌then◌else◌, ◌==◌, arith, ==_iff, length,
}
use graphvent.Prelude.Maps.{
  Map, lookup, has, insert, delete, lookup-insert, has-eq-lookup, insert-IsUnique, IsUnique, visits,
  IsRange, length-visits,
}
use graphvent.Signal.{NodeId, Uuid, Message}
use graphvent.Lockable.{ReqState, unlocked, locking, LockableExt}
use graphvent.Lockable.Responses.{abort_all, abort_lock}
use graphvent.Lockable.Tracking.{in_flight, IsInjective, answer-Tracked, delete-IsFresh}
use graphvent.Lockable.Loops.{
  Kept, abort_state, lookup-abort_all, abort_all-IsUnique, abort_all-count, abort_all-Tracked,
}
use graphvent.Lockable.Phase.{fits, IsConsistent}
use graphvent.Lockable.Invariant.Good.{Good, good, if-Good}

module _ (new_uuid : ℕ → Uuid) (distinct : IsInjective new_uuid) where
  pub abort_lock-Good :
      (ext : LockableExt) (n : ℕ) (req : Uuid) (id : NodeId) (m : Map ReqState)
      (order : List NodeId)
      → IsConsistent new_uuid n ext
      → ext.state ≡ locking
      → ext.requirements ≡ some m
      → lookup req ext.waiting ≡ some id
      → IsRange m order
      → Good new_uuid n (abort_lock new_uuid ext n id (delete req ext.waiting) order)
  unfolding abort_lock
  abort_lock-Good ext n req id m order c e em er r =
      rw (em, abort_lock)
        (if-Good new_uuid (a.4 == length a.0)
          (λ z.
            good _
              (record {
                fitting = λ k. ground (
                  arith,
                  was k,
                  looked k,
                  flying_at k,
                  length_order,
                  r.exact k,
                  has-eq-lookup k m,
                  lookup-insert id k unlocked m,
                  abort_all-count new_uuid order n m₀ w k,
                );
                pointing = refl;
                tracked = kept.tracked;
                fresh = kept.fresh;
                unique = unique;
                unique_locked = c.unique_locked;
                unique_unlocked = c.unique_unlocked;
              })
              kept.grows)
          (λ z.
            good _
              (record {
                fitting =
                    λ k. ground (arith, was k, looked k, r.exact k, has-eq-lookup k m, flying_at k);
                pointing = ground (arith, c.pointing);
                tracked = kept.tracked;
                fresh = kept.fresh;
                unique = unique;
                unique_locked = c.unique_locked;
                unique_unlocked = c.unique_unlocked;
              })
              kept.grows))
    where
      flying : in_flight (lookup id m) ≡ true
      flying = ground (arith, c.tracked.flying req id)

      flying_at : (k : NodeId) → (k == id) ≡ true → in_flight (lookup k m) ≡ true
      flying_at k h = rw ((==_iff k id).0 h) flying

      m₀ : Map ReqState
      m₀ = insert id unlocked m

      kept :
          let a = abort_all new_uuid order n m₀ (delete req ext.waiting) in
          Kept new_uuid n a.0 a.1 a.3
      kept =
          abort_all-Tracked new_uuid distinct order n m₀ (delete req ext.waiting)
            (delete-IsFresh new_uuid n req ext.waiting c.fresh)
            (answer-Tracked m ext.waiting req id unlocked (rw em at c.tracked) er refl)

      w : Map NodeId
      w = delete req ext.waiting

      a : Map ReqState × Map NodeId × List Message × ℕ × ℕ
      a = abort_all new_uuid order n m₀ w

      unique : IsUnique a.0
      unique =
          abort_all-IsUnique new_uuid order n m₀ w
            (insert-IsUnique id unlocked m (rw em at c.unique))

      was :
          (k : NodeId)
          → fits locking (lookup k m) (has k ext.locked_set) (has k ext.unlocked_set) ≡ true
      was k = rw (e, em) at (c.fitting k)

      looked :
          (k : NodeId)
          → lookup k a.0 ≡ (
              let s = if k == id then some unlocked else lookup k m in
              if visits k order then abort_state s else s)
      looked k =
          ground (arith, lookup-abort_all new_uuid order n m₀ w k, lookup-insert id k unlocked m)

      length_order : length order ≤ length a.0
      length_order =
          length-visits order a.0 r.distinct unique
            λ k v. ground (arith, r.exact k, looked k, has-eq-lookup k m, has-eq-lookup k a.0)
      -- An unlock that is sent again is waited for again.
