-- ===== src/Lockable/Phase.antt =====
-- What lockable.go keeps true in each state of the extension.
use graphvent.Prelude.{ℕ, ◌≡◌, Bool, true, false, not, ◌&&◌, ◌||◌, Option, none, some}
use graphvent.Prelude.Maps.{lookup, has, IsUnique}
use graphvent.Signal.{NodeId, Uuid}
use graphvent.Lockable.{
  ReqState, unlocked, unlocking, locked, locking, aborting_lock, LockableExt, entries,
}
use graphvent.Lockable.Tracking.{Tracked, IsFresh}

-- The states that a requirement may be in, by the state of the extension.
abbrev pub allowed : ReqState → ReqState → Bool
allowed unlocked unlocked = true
allowed locked locked = true
allowed locking locking = true
allowed locking locked = true
allowed unlocking unlocking = true
allowed unlocking unlocked = true
allowed aborting_lock locking = true
allowed aborting_lock unlocking = true
allowed aborting_lock unlocked = true
allowed _ _ = false

-- May a requirement in this state be in the Locked set?
abbrev pub may_be_in_locked : ReqState → Bool
may_be_in_locked locked = true
may_be_in_locked unlocking = true
may_be_in_locked _ = false

-- May it be in the Unlocked set? While unlocking, that set says what has been unlocked.
abbrev pub may_be_in_unlocked : ReqState → ReqState → Bool
may_be_in_unlocked unlocking unlocked = true
may_be_in_unlocked unlocking _ = false
may_be_in_unlocked phase locked = false
may_be_in_unlocked phase _ = true

-- What the three maps say of one node id: its requirement, and whether the two sets hold it.
abbrev pub fits : ReqState → Option ReqState → Bool → Bool → Bool
fits phase none l u = not l && not u
fits phase (some s) l u =
    allowed phase s && ((not l || may_be_in_locked s) && (not u || may_be_in_unlocked phase s))

abbrev pub is_set {ℓ} : {A : Type ℓ} → Option A → Bool
is_set none = false
is_set (some a) = true

-- The pointers that each state dereferences.
abbrev pub pointers : ReqState → LockableExt → Bool
pointers unlocked ext = true
pointers locked ext = is_set ext.owner
pointers unlocking ext = is_set ext.requirements && (is_set ext.owner && is_set ext.req_id)
pointers _ ext = is_set ext.requirements && (is_set ext.pending_owner && is_set ext.req_id)

-- The invariant of the extension, `n` UUIDs having been drawn.
pub record IsConsistent (new_uuid : ℕ → Uuid) (n : ℕ) (ext : LockableExt) : Type 0 where
  pub fitting :
      (id : NodeId)
      → fits ext.state
          (lookup id (entries ext.requirements))
          (has id ext.locked_set)
          (has id ext.unlocked_set)
        ≡ true
  pub pointing : pointers ext.state ext ≡ true
  pub tracked : Tracked (entries ext.requirements) ext.waiting
  pub fresh : IsFresh new_uuid n ext.waiting
  pub unique : IsUnique (entries ext.requirements)
  pub unique_locked : IsUnique ext.locked_set
  pub unique_unlocked : IsUnique ext.unlocked_set
