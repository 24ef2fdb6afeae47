-- ===== src/Lockable/Invariant/Locking.antt =====
-- The success of a lock request, in a consistent extension of lockable.go.
use graphvent.Prelude.{ℕ, ◌≡◌, refl, true, some, ◌==◌, arith, ==_iff, length}
use graphvent.Prelude.Maps.{
  Map, lookup, has, insert, delete, lookup-insert, has-delete, delete-IsUnique, Within, Within-full,
  has-eq-lookup, has-insert, insert-IsUnique,
}
use graphvent.Signal.{NodeId, Uuid}
use graphvent.Lockable.{ReqState, unlocked, locked, locking, LockableExt}
use graphvent.Lockable.Responses.{acquire, requirement_locked, release}
use graphvent.Lockable.Tracking.{in_flight, IsInjective, answer-Tracked, delete-IsFresh}
use graphvent.Lockable.Phase.{fits, IsConsistent}
use graphvent.Lockable.Invariant.Good.{Good, if-Good}
use graphvent.Lockable.Invariant.Full.{Entering, full_lock-Good, wait-Good}

module _ (new_uuid : ℕ → Uuid) (distinct : IsInjective new_uuid) where
  module _ (ext : LockableExt) (n : ℕ) (req : Uuid) (id : NodeId) (m : Map ReqState)
      (c : IsConsistent new_uuid n ext) (em : ext.requirements ≡ some m)
      (er : lookup req ext.waiting ≡ some id) (f : in_flight (lookup id m) ≡ true) where
    pub was :
        (s : ReqState)
        → ext.state ≡ s
        → (k : NodeId) → fits s (lookup k m) (has k ext.locked_set) (has k ext.unlocked_set) ≡ true
    was s e k = rw (e, em) at (c.fitting k)

    -- The extension with the requirement locked, at a phase that its maps fit.
    pub locking-Entering :
        (phase : ReqState)
        → ((k : NodeId)
            → fits phase
                (lookup k (insert id locked m))
                (has k (insert id tt ext.locked_set))
                (has k (delete id ext.unlocked_set))
              ≡ true)
        → Entering new_uuid n phase (acquire ext id (delete req ext.waiting) (insert id locked m))
    locking-Entering phase fit = record {
      fitting = fit;
      tracked = answer-Tracked m ext.waiting req id locked (rw em at c.tracked) er refl;
      fresh = delete-IsFresh new_uuid n req ext.waiting c.fresh;
      unique = insert-IsUnique id locked m (rw em at c.unique);
      unique_locked = insert-IsUnique id tt ext.locked_set c.unique_locked;
      unique_unlocked = delete-IsUnique id ext.unlocked_set c.unique_unlocked;
    }

    -- The extension with the requirement unlocked.
    pub release-Entering :
        (phase : ReqState)
        → ((k : NodeId)
            → fits phase
                (lookup k (insert id unlocked m))
                (has k (delete id ext.locked_set))
                (has k (insert id tt ext.unlocked_set))
              ≡ true)
        → Entering new_uuid n phase (release ext id (delete req ext.waiting) (insert id unlocked m))
    release-Entering phase fit = record {
      fitting = fit;
      tracked = answer-Tracked m ext.waiting req id unlocked (rw em at c.tracked) er refl;
      fresh = delete-IsFresh new_uuid n req ext.waiting c.fresh;
      unique = insert-IsUnique id unlocked m (rw em at c.unique);
      unique_locked = delete-IsUnique id ext.locked_set c.unique_locked;
      unique_unlocked = insert-IsUnique id tt ext.unlocked_set c.unique_unlocked;
    }

    pub requirement_locked-Good :
        ext.state ≡ locking
        → Good new_uuid n (requirement_locked new_uuid ext n id (delete req ext.waiting))
    unfolding requirement_locked
    requirement_locked-Good e =
        rw (em, requirement_locked)
          (if-Good new_uuid (length locked' == length m')
            (λ z.
              full_lock-Good new_uuid ext' n (locking-Entering locked (full z))
                (ground (arith, c.pointing)))
            (λ z.
              wait-Good new_uuid ext' n ext'.waiting locking (locking-Entering locking fit) e
                (ground (arith, c.pointing))))
      where
        m' : Map ReqState
        m' = insert id locked m

        ext' : LockableExt
        ext' = acquire ext id (delete req ext.waiting) m'

        locked' : Map (Unit {0})
        locked' = insert id tt ext.locked_set

        fit :
            (k : NodeId)
            → fits locking (lookup k m') (has k locked') (has k (delete id ext.unlocked_set)) ≡ true
        fit k = ground (
          arith,
          was locking e k,
          f,
          lookup-insert id k locked m,
          has-insert id k tt ext.locked_set,
          has-delete id k ext.unlocked_set,
          ==_iff k id,
        )

        within : Within locked' m'
        within k h = ground (arith, fit k, h, has-eq-lookup k m')

        -- As many are in the Locked set as are required, so all that are required are in it.
        held :
            (length locked' == length m') ≡ true
            → (k : NodeId) → has k m' ≡ true
            → has k locked' ≡ true
        held z =
            Within-full locked' m' (insert-IsUnique id tt ext.locked_set c.unique_locked)
              (insert-IsUnique id locked m (rw em at c.unique)) within ((==_iff _ _).0 z)

        full :
            (length locked' == length m') ≡ true
            → (k : NodeId)
            → fits locked (lookup k m') (has k locked') (has k (delete id ext.unlocked_set)) ≡ true
        full z k = ground (
          arith,
          fit k,
          held z k,
          has-eq-lookup k m',
          has-insert id k tt ext.locked_set,
          was locking e k,
          lookup-insert id k locked m,
        )
