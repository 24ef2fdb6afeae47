-- ===== src/Lockable.antt =====
-- lockable.go: the lockable extension's state, its constructor and Load.
pub mod Reply
pub mod Requests
pub mod Responses
pub mod Process
pub mod Tracking
pub mod Loops
pub mod Counting
pub mod Phase
pub mod Invariant
pub mod Protocol
pub mod Asking
pub mod Removal
mod Tests
use graphvent.Prelude.{
  ℕ, ◌≡◌, refl, Bool, true, false, List, [], ◌∷◌, Option, none, some, String, if◌then◌else◌, ◌==◌,
  length,
}
use graphvent.Prelude.Maps.{Map, insert}
use graphvent.Signal.{NodeId, Uuid}

-- `Unlocked` .. `AbortingLock`, the bytes 0 to 4.
pub data ReqState : Type 0 where
  unlocked unlocking locked locking aborting_lock : ReqState

-- `ReqState.String` at the five states.
abbrev pub to_string : ReqState → String
to_string unlocked = "Unlocked"
to_string unlocking = "Unlocking"
to_string locked = "Locked"
to_string locking = "Locking"
to_string aborting_lock = "AbortingLock"

-- A Go set, `map[NodeID]any` with nil values.
abbrev pub Set : Type 0
Set = Map (Unit {0})

-- A nil pointer is `none`; so is the nil map that `Requirements` may be.
pub record LockableExt : Type 0 where
  pub state : ReqState
  pub req_id : Option Uuid
  pub owner : Option NodeId
  pub pending_owner : Option NodeId
  pub requirements : Option (Map ReqState)
  pub locked_set : Set
  pub unlocked_set : Set
  pub waiting : Map NodeId

-- A nil map reads as an empty one.
abbrev pub entries : Option (Map ReqState) → Map ReqState
entries none = []
entries (some m) = m

-- The loop of `NewLockableExt` over the requirements that it is given.
unfoldable pub add_requirements : List NodeId → Map ReqState → Set → Map ReqState × Set
add_requirements [] reqs set = (reqs, set)
add_requirements (req ∷ requirements) reqs set =
    add_requirements requirements (insert req unlocked reqs) (insert req tt set)

unfoldable pub new_lockable_ext : List NodeId → LockableExt
new_lockable_ext requirements =
    let (reqs, set) = add_requirements requirements [] [] in
    record {
      state = unlocked;
      req_id = none;
      owner = none;
      pending_owner = none;
      requirements = if length requirements == 0 then none else some reqs;
      locked_set = [];
      unlocked_set = set;
      waiting = [];
    }

-- The loop of `Load` over the requirements; `Requirements` and the rest are as they were stored.
unfoldable pub load_requirements : Map ReqState → Set → Set → Set × Set
load_requirements [] ls us = (ls, us)
load_requirements ((id, unlocked) ∷ m) ls us = load_requirements m ls (insert id tt us)
load_requirements ((id, locked) ∷ m) ls us = load_requirements m (insert id tt ls) us
load_requirements ((id, s) ∷ m) ls us = load_requirements m ls us

unfoldable pub load : LockableExt → LockableExt
load ext =
    let (ls, us) = load_requirements (entries ext.requirements) [] [] in
    record ext { locked_set = ls; unlocked_set = us }
