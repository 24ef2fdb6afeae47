-- ===== src/Lockable/Invariant/Errors.antt =====
-- Error signals, in a consistent extension of lockable.go.
use graphvent.Prelude.{ℕ, ◌≡◌, refl, inl, inr, true, List, some, arith, ==_iff, Option-cases}
use graphvent.Prelude.Maps.{
  Map, lookup, has, insert, delete, lookup-insert, insert-IsUnique, IsUnique, IsRange,
}
use graphvent.Signal.{NodeId, Uuid}
use graphvent.Lockable.{ReqState, unlocked, unlocking, locking, aborting_lock, LockableExt, entries}
use graphvent.Lockable.Reply.{state_or_zero}
use graphvent.Lockable.Responses.{retry_unlock, abort_failed, all_unlocked, handle_error_signal}
use graphvent.Lockable.Tracking.{
  in_flight, Tracked, IsFresh, IsInjective, answer-Tracked, resend-Tracked, delete-IsFresh,
  insert-IsFresh,
}
use graphvent.Lockable.Counting.{all_unlocked-lookup}
use graphvent.Lockable.Phase.{fits, IsConsistent}
use graphvent.Lockable.Invariant.Good.{Good, good, if-Good, flying-requirement}
use graphvent.Lockable.Invariant.Aborts.{abort_lock-Good}

module _ (new_uuid : ℕ → Uuid) (distinct : IsInjective new_uuid) where
  pub retry_unlock-Good :
      (ext : LockableExt) (n : ℕ) (req : Uuid) (id : NodeId)
      → IsConsistent new_uuid n ext
      → lookup req ext.waiting ≡ some id
      → Good new_uuid n (retry_unlock new_uuid ext n id (delete req ext.waiting))
  unfolding retry_unlock
  retry_unlock-Good ext n req id c er =
      good _
        (record {
          fitting = c.fitting;
          pointing = ground (arith, c.pointing);
          tracked =
              resend-Tracked _ ext.waiting req (new_uuid n) id c.tracked er
                (c.fresh n (omega arith));
          fresh =
              insert-IsFresh new_uuid distinct n id _
                (delete-IsFresh new_uuid n req ext.waiting c.fresh);
          unique = c.unique;
          unique_locked = c.unique_locked;
          unique_unlocked = c.unique_unlocked;
        })
        (omega arith)

  abort_failed-Good :
      (ext : LockableExt) (n : ℕ) (req : Uuid) (id : NodeId) (m : Map ReqState)
      → IsConsistent new_uuid n ext
      → ext.state ≡ aborting_lock
      → ext.requirements ≡ some m
      → lookup req ext.waiting ≡ some id
      → lookup id m ≡ some locking
      → Good new_uuid n (abort_failed new_uuid ext n id (delete req ext.waiting))
  unfolding abort_failed
  abort_failed-Good ext n req id m c e em er el =
      rw (em, abort_failed)
        (if-Good new_uuid (all_unlocked m')
          (λ z.
            good _
              (record {
                fitting = λ k. ground (
                  arith,
                  was k,
                  was id,
                  lookup-insert id k unlocked m,
                  all_unlocked-lookup m' k z,
                  ==_iff k id,
                );
                pointing = refl;
                tracked = answered;
                fresh = fresh;
                unique = insert-IsUnique id unlocked m unique;
                unique_locked = c.unique_locked;
                unique_unlocked = c.unique_unlocked;
              })
              (omega arith))
          (λ z.
            good _
              (record {
                fitting =
                    λ k. ground (arith, was k, was id, lookup-insert id k unlocked m, ==_iff k id);
                pointing = ground (arith, c.pointing);
                tracked = answered;
                fresh = fresh;
                unique = insert-IsUnique id unlocked m unique;
                unique_locked = c.unique_locked;
                unique_unlocked = c.unique_unlocked;
              })
              (omega arith)))
    where
      m' : Map ReqState
      m' = insert id unlocked m

      was :
          (k : NodeId)
          → fits aborting_lock (lookup k m) (has k ext.locked_set) (has k ext.unlocked_set) ≡ true
      was k = rw (e, em) at (c.fitting k)

      unique : IsUnique m
      unique = rw em at c.unique

      fresh : IsFresh new_uuid n (delete req ext.waiting)
      fresh = delete-IsFresh new_uuid n req ext.waiting c.fresh

      answered : Tracked m' (delete req ext.waiting)
      answered = answer-Tracked m ext.waiting req id unlocked (rw em at c.tracked) er refl

  pub handle_error_signal-Good :
      (ext : LockableExt) (n : ℕ) (req : Uuid) (order : List NodeId)
      → IsConsistent new_uuid n ext
      → IsRange (entries ext.requirements) order
      → Good new_uuid n (handle_error_signal new_uuid ext n req order)
  unfolding handle_error_signal
  handle_error_signal-Good ext n req order c r = elim (Option-cases (lookup req ext.waiting)) [
    | inl er ↦ rw (er, handle_error_signal) (good _ c (omega arith))
    | inr (id, er) ↦
        let (m, em, f) = flying-requirement new_uuid req c er in
        go id er m em f ext.state refl (state_or_zero (lookup id m)) refl
  ]
    where
      go :
          (id : NodeId)
          → lookup req ext.waiting ≡ some id
          → (m : Map ReqState) → ext.requirements ≡ some m
          → in_flight (lookup id m) ≡ true
          → (s : ReqState) → ext.state ≡ s
          → (x : ReqState) → state_or_zero (lookup id m) ≡ x
          → Good new_uuid n (handle_error_signal new_uuid ext n req order)
      go id er m em f locking e x ex =
          rw (er, handle_error_signal)
            (rw (e, handle_error_signal)
              (abort_lock-Good new_uuid distinct ext n req id m order c e em er (rw em at r)))
      go id er m em f unlocking e x ex =
          rw (er, handle_error_signal)
            (rw (e, handle_error_signal) (retry_unlock-Good ext n req id c er))
      go id er m em f aborting_lock e unlocking ex =
          rw (er, handle_error_signal)
            (rw (e, em, ex, handle_error_signal) (retry_unlock-Good ext n req id c er))
      go id er m em f aborting_lock e locking ex =
          rw (er, handle_error_signal)
            (rw (e, em, ex, handle_error_signal)
              (abort_failed-Good ext n req id m c e em er (ground arith)))
      go id er m em f aborting_lock e x ex = absurd (ground (arith))
      go id er m em f s e x ex = absurd (ground (arith, c.fitting id))
