-- ===== src/Lockable/Invariant/Successes.antt =====
-- Success signals, in a consistent extension of lockable.go.
use graphvent.Prelude.{
  ℕ, ◌≡◌, refl, inl, inr, true, some, ◌==◌, arith, ==_iff, Option-cases, length,
}
use graphvent.Prelude.Maps.{
  Map, lookup, has, insert, delete, lookup-insert, has-delete, Within, Within-full, has-eq-lookup,
  has-insert, insert-IsUnique,
}
use graphvent.Signal.{NodeId, Uuid}
use graphvent.Lockable.{ReqState, unlocked, unlocking, locking, aborting_lock, LockableExt}
use graphvent.Lockable.Reply.{state_or_zero}
use graphvent.Lockable.Responses.{
  unlock_late, release, abort_unlocked, requirement_unlocked, all_unlocked, handle_success_signal,
}
use graphvent.Lockable.Tracking.{
  in_flight, IsInjective, resend-Tracked, turn-Tracked, delete-IsFresh, insert-IsFresh,
}
use graphvent.Lockable.Counting.{all_unlocked-lookup}
use graphvent.Lockable.Phase.{fits, IsConsistent}
use graphvent.Lockable.Invariant.Good.{Good, good, if-Good, flying-requirement}
use graphvent.Lockable.Invariant.Full.{full_abort-Good, full_unlock-Good, wait-Good}
use graphvent.Lockable.Invariant.Locking.{was, release-Entering, requirement_locked-Good}

module _ (new_uuid : ℕ → Uuid) (distinct : IsInjective new_uuid) where
  module _ (ext : LockableExt) (n : ℕ) (req : Uuid) (id : NodeId) (m : Map ReqState)
      (c : IsConsistent new_uuid n ext) (em : ext.requirements ≡ some m)
      (er : lookup req ext.waiting ≡ some id) (f : in_flight (lookup id m) ≡ true) where
    requirement_unlocked-Good :
        ext.state ≡ unlocking
        → Good new_uuid n (requirement_unlocked new_uuid ext n id (delete req ext.waiting))
    unfolding requirement_unlocked
    requirement_unlocked-Good e =
        rw (em, requirement_unlocked)
          (if-Good new_uuid (length unlocked' == length m')
            (λ z.
              full_unlock-Good new_uuid ext' n
                (release-Entering new_uuid distinct ext n req id m c em er f unlocked (full z))
                (ground (arith, c.pointing)))
            (λ z.
              wait-Good new_uuid ext' n ext'.waiting unlocking
                (release-Entering new_uuid distinct ext n req id m c em er f unlocking fit) e
                (ground (arith, c.pointing))))
      where
        m' : Map ReqState
        m' = insert id unlocked m

        ext' : LockableExt
        ext' = release ext id (delete req ext.waiting) m'

        unlocked' : Map (Unit {0})
        unlocked' = insert id tt ext.unlocked_set

        fit :
            (k : NodeId)
            → fits unlocking (lookup k m') (has k (delete id ext.locked_set)) (has k unlocked')
              ≡ true
        fit k = ground (
          arith,
          was new_uuid distinct ext n req id m c em er f unlocking e k,
          lookup-insert id k unlocked m,
          has-insert id k tt ext.unlocked_set,
          has-delete id k ext.locked_set,
          ==_iff k id,
        )

        within : Within unlocked' m'
        within k h = ground (arith, fit k, h, has-eq-lookup k m')

        held :
            (length unlocked' == length m') ≡ true
            → (k : NodeId) → has k m' ≡ true
            → has k unlocked' ≡ true
        held z =
            Within-full unlocked' m' (insert-IsUnique id tt ext.unlocked_set c.unique_unlocked)
              (insert-IsUnique id unlocked m (rw em at c.unique)) within ((==_iff _ _).0 z)

        full :
            (length unlocked' == length m') ≡ true
            → (k : NodeId)
            → fits unlocked (lookup k m') (has k (delete id ext.locked_set)) (has k unlocked')
              ≡ true
        full z k = ground (arith, fit k, held z k, has-eq-lookup k m')

    abort_unlocked-Good :
        ext.state ≡ aborting_lock
        → Good new_uuid n (abort_unlocked new_uuid ext n id (delete req ext.waiting))
    unfolding abort_unlocked
    abort_unlocked-Good e =
        rw (em, abort_unlocked)
          (if-Good new_uuid (all_unlocked m')
            (λ z.
              full_abort-Good new_uuid ext' n
                (release-Entering new_uuid distinct ext n req id m c em er f unlocked (full z))
                (ground (arith, c.pointing)))
            (λ z.
              wait-Good new_uuid ext' n ext'.waiting aborting_lock
                (release-Entering new_uuid distinct ext n req id m c em er f aborting_lock fit) e
                (ground (arith, c.pointing))))
      where
        m' : Map ReqState
        m' = insert id unlocked m

        ext' : LockableExt
        ext' = release ext id (delete req ext.waiting) m'

        fit :
            (k : NodeId)
            → fits aborting_lock
                (lookup k m')
                (has k (delete id ext.locked_set))
                (has k (insert id tt ext.unlocked_set))
              ≡ true
        fit k = ground (
          arith,
          was new_uuid distinct ext n req id m c em er f aborting_lock e k,
          lookup-insert id k unlocked m,
          has-insert id k tt ext.unlocked_set,
          has-delete id k ext.locked_set,
          ==_iff k id,
        )

        full :
            all_unlocked m' ≡ true
            → (k : NodeId)
            → fits unlocked
                (lookup k m')
                (has k (delete id ext.locked_set))
                (has k (insert id tt ext.unlocked_set))
              ≡ true
        full z k = ground (arith, fit k, all_unlocked-lookup m' k z)

    unlock_late-Good :
        ext.state ≡ aborting_lock
        → lookup id m ≡ some locking
        → Good new_uuid n (unlock_late new_uuid ext n id (delete req ext.waiting))
    unfolding unlock_late
    unlock_late-Good e el =
        rw (em, unlock_late)
          (good _
            (record {
              fitting = λ k. rw e (
                  ground (
                    arith,
                    was new_uuid distinct ext n req id m c em er f aborting_lock e k,
                    was new_uuid distinct ext n req id m c em er f aborting_lock e id,
                    lookup-insert id k unlocking m,
                    ==_iff k id,
                  ));
              pointing = ground (arith, c.pointing);
              tracked =
                  resend-Tracked (insert id unlocking m) ext.waiting req (new_uuid n) id
                    (turn-Tracked m ext.waiting id unlocking (rw em at c.tracked) f refl) er
                    (c.fresh n (omega arith));
              fresh =
                  insert-IsFresh new_uuid distinct n id _
                    (delete-IsFresh new_uuid n req ext.waiting c.fresh);
              unique = insert-IsUnique id unlocking m (rw em at c.unique);
              unique_locked = c.unique_locked;
              unique_unlocked = c.unique_unlocked;
            })
            (omega arith))

  pub handle_success_signal-Good :
      (ext : LockableExt) (n : ℕ) (req : Uuid)
      → IsConsistent new_uuid n ext
      → Good new_uuid n (handle_success_signal new_uuid ext n req)
  unfolding handle_success_signal
  handle_success_signal-Good ext n req c = elim (Option-cases (lookup req ext.waiting)) [
    | inl er ↦ rw (er, handle_success_signal) (good _ c (omega arith))
    | inr (id, er) ↦
        let (m, em, f) = flying-requirement new_uuid req c er in
        go id er m em f ext.state refl (state_or_zero (lookup id m)) refl
  ]
    where
      go :
          (id : NodeId)
          → lookup req ext.waiting ≡ some id
          → (m : Map ReqState) → ext.requirements ≡ some m
          → in_flight (lookup id m) ≡ true
          → (s : ReqState) → ext.state ≡ s
          → (x : ReqState) → state_or_zero (lookup id m) ≡ x
          → Good new_uuid n (handle_success_signal new_uuid ext n req)
      go id er m em f locking e x ex =
          rw (er, handle_success_signal)
            (rw (e, handle_success_signal)
              (requirement_locked-Good new_uuid distinct ext n req id m c em er f e))
      go id er m em f unlocking e x ex =
          rw (er, handle_success_signal)
            (rw (e, handle_success_signal) (requirement_unlocked-Good ext n req id m c em er f e))
      go id er m em f aborting_lock e unlocking ex =
          rw (er, handle_success_signal)
            (rw (e, em, ex, handle_success_signal) (abort_unlocked-Good ext n req id m c em er f e))
      go id er m em f aborting_lock e locking ex =
          rw (er, handle_success_signal)
            (rw (e, em, ex, handle_success_signal)
              (unlock_late-Good ext n req id m c em er f e (ground arith)))
      go id er m em f aborting_lock e x ex = absurd (ground arith)
      go id er m em f s e x ex = absurd (ground (arith, c.fitting id))
