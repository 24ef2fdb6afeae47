-- ===== src/Lockable/Tests.antt =====
-- Runs of the lockable extension of lockable.go, and its theorems at concrete extensions.
use graphvent.Prelude.{ℕ, ◌+◌, ◌≤◌, ◌≡◌, refl, true, [], ◌∷◌, none, some, arith, All, map}
use graphvent.Prelude.Maps.{lookup, has, insert, delete, keys-IsRange, IsRange}
use graphvent.Signal.{NodeId, Uuid, lock, unlock, success, error}
use graphvent.Lockable.{
  ReqState, unlocked, unlocking, locked, locking, aborting_lock, LockableExt, entries,
  add_requirements, new_lockable_ext,
}
use graphvent.Lockable.Reply.{Reply, message, request_all}
use graphvent.Lockable.Requests.{handle_link_signal, handle_lock_signal}
use graphvent.Lockable.Responses.{handle_error_signal, handle_success_signal, abort_all}
use graphvent.Lockable.Process.{process}
use graphvent.Lockable.Tracking.{in_flight, IsInjective}
use graphvent.Lockable.Phase.{IsConsistent}
use graphvent.Lockable.Asking.{IsAwaited, handle_lock_signal-asks}
use graphvent.Lockable.Protocol.{Holds, IsUnlock, process-Holds, handle_error_signal-IsUnlock}
use graphvent.Lockable.Removal.{remove_leaves_stale}
use graphvent.Lockable.Invariant.Init.{new_lockable_ext-IsConsistent}
use graphvent.Lockable.Invariant.Process.{process-IsConsistent}
use graphvent.Lockable.Invariant.Histories.{
  History, begin, signalled, History-IsConsistent, History-phases,
}

abbrev uuid : ℕ → Uuid
uuid n = n + 100

uuid-IsInjective : IsInjective uuid
uuid-IsInjective j k h = omega arith

-- Requirements 10 and 20.
abbrev idle : LockableExt
idle = record {
  state = unlocked;
  req_id = none;
  owner = none;
  pending_owner = none;
  requirements = some ((10, unlocked) ∷ (20, unlocked) ∷ []);
  locked_set = [];
  unlocked_set = (10, tt) ∷ (20, tt) ∷ [];
  waiting = [];
}

-- Node 1 has sent the lock signal 7.
abbrev asked : LockableExt
asked = record idle {
  state = locking;
  req_id = some 7;
  pending_owner = some 1;
  requirements = some ((10, locking) ∷ (20, locking) ∷ []);
  waiting = (103, 10) ∷ (104, 20) ∷ [];
}

-- 10 has locked; 20 has not answered.
abbrev half : LockableExt
half = record asked {
  requirements = some ((10, locked) ∷ (20, locking) ∷ []);
  locked_set = (10, tt) ∷ [];
  unlocked_set = (20, tt) ∷ [];
  waiting = (104, 20) ∷ [];
}

abbrev owned : LockableExt
owned = record half {
  state = locked;
  req_id = none;
  owner = some 1;
  requirements = some ((10, locked) ∷ (20, locked) ∷ []);
  locked_set = (10, tt) ∷ (20, tt) ∷ [];
  unlocked_set = [];
  waiting = [];
}

-- Node 30 was removed from the requirements before the lock, and has stayed in the Unlocked set;
-- both others are being unlocked.
abbrev stale : LockableExt
stale = record owned {
  state = unlocking;
  req_id = some 8;
  requirements = some ((10, unlocking) ∷ (20, unlocking) ∷ []);
  unlocked_set = (30, tt) ∷ [];
  waiting = (105, 10) ∷ (106, 20) ∷ [];
}

new_is_idle : new_lockable_ext (10 ∷ 20 ∷ []) ≡ idle
unfolding new_lockable_ext add_requirements insert
new_is_idle = refl

abbrev asking : Reply
asking = record {
  ext = asked;
  messages = message 10 (lock 103) ∷ message 20 (lock 104) ∷ [];
  changes = "state" ∷ "requirements" ∷ "waiting" ∷ "pending_owner" ∷ [];
  issued = 5;
}

asks : process uuid idle 3 0 1 (lock 7) (10 ∷ 20 ∷ []) ≡ some asking
unfolding process handle_lock_signal request_all insert
asks = refl

first_locked :
    process uuid asked 5 0 10 (success 50 103) []
    ≡ some (record { ext = half; messages = []; changes = "waiting" ∷ []; issued = 5 })
unfolding process handle_success_signal insert lookup delete
first_locked = refl

all_locked :
    process uuid half 5 0 20 (success 51 104) []
    ≡ some (record {
      ext = owned;
      messages = message 1 (success 105 7) ∷ [];
      changes = "waiting" ∷ "state" ∷ "owner" ∷ "req_id" ∷ [];
      issued = 6;
    })
unfolding process handle_success_signal insert lookup delete
all_locked = refl

-- An error while one is locked: it is unlocked again, and nobody is told.
aborts :
    process uuid half 5 0 20 (error 51 104 "not_unlocked: Locked") (10 ∷ 20 ∷ [])
    ≡ some (record {
      ext = record half {
        state = aborting_lock;
        requirements = some ((10, unlocking) ∷ (20, unlocked) ∷ []);
        waiting = (105, 10) ∷ [];
      };
      messages = message 10 (unlock 105) ∷ [];
      changes = "waiting" ∷ "state" ∷ "requirements" ∷ "state" ∷ [];
      issued = 6;
    })
unfolding process handle_error_signal abort_all insert lookup delete
aborts = refl

idle-IsConsistent : IsConsistent uuid 3 idle
unfolding new_lockable_ext add_requirements insert
idle-IsConsistent = new_lockable_ext-IsConsistent uuid 3 (10 ∷ 20 ∷ [])

idle-IsRange : IsRange (entries idle.requirements) (10 ∷ 20 ∷ [])
unfolding has
idle-IsRange = keys-IsRange (entries idle.requirements) (refl, (refl, tt))

process-IsConsistent_example :
    (r : Reply) × (process uuid idle 3 0 1 (lock 7) (10 ∷ 20 ∷ []) ≡ some r)
    × IsConsistent uuid r.issued r.ext
    × (3 ≤ r.issued)
process-IsConsistent_example =
    process-IsConsistent uuid uuid-IsInjective idle 3 0 1 (lock 7) (10 ∷ 20 ∷ []) idle-IsConsistent
      idle-IsRange refl

process-Holds_example : Holds 1 owned (process uuid owned 6 0 2 (unlock 9) (10 ∷ 20 ∷ []))
process-Holds_example = process-Holds uuid owned 6 0 2 1 (unlock 9) (10 ∷ 20 ∷ []) refl refl refl

remove_leaves_stale_example :
    (r : Reply) × (handle_link_signal uuid idle 3 1 9 20 "remove" ≡ some r)
    × (lookup 20 (entries r.ext.requirements) ≡ none)
    × (has 20 r.ext.unlocked_set ≡ true)
    × ¬ IsConsistent uuid r.issued r.ext
unfolding has
remove_leaves_stale_example = remove_leaves_stale uuid idle 3 1 9 20 refl refl refl

handle_lock_signal-asks_example :
    (r : Reply) × (handle_lock_signal uuid idle 3 1 7 (10 ∷ 20 ∷ []) ≡ some r)
    × (r.ext.state ≡ locking)
    × (r.ext.pending_owner ≡ some 1)
    × (r.ext.req_id ≡ some 7)
    × (map (λ msg. msg.node) r.messages ≡ 10 ∷ 20 ∷ [])
    × All (IsAwaited uuid lock locking 3 r.ext.waiting) r.messages
    × ((id : NodeId)
        → has id (entries idle.requirements) ≡ true
        → lookup id (entries r.ext.requirements) ≡ some locking)
handle_lock_signal-asks_example =
    handle_lock_signal-asks uuid idle 3 1 7 (10 ∷ 20 ∷ []) uuid-IsInjective refl (omega arith)
      idle-IsRange

locked_once : History uuid 0 3 (new_lockable_ext (10 ∷ 20 ∷ [])) 5 asked
locked_once =
    signalled 3 1 (lock 7) (10 ∷ 20 ∷ []) asking begin (omega arith) (rw new_is_idle idle-IsRange)
      refl (rw new_is_idle asks)

asked-IsConsistent : IsConsistent uuid 5 asked
asked-IsConsistent =
    History-IsConsistent uuid uuid-IsInjective 0
      (new_lockable_ext-IsConsistent uuid 3 (10 ∷ 20 ∷ [])) locked_once

handle_error_signal-IsUnlock_example :
    (r : Reply) × (handle_error_signal uuid asked 5 103 (10 ∷ 20 ∷ []) ≡ some r)
    × All (IsUnlock uuid) r.messages
unfolding has
handle_error_signal-IsUnlock_example =
    handle_error_signal-IsUnlock uuid asked 5 103 (10 ∷ 20 ∷ []) uuid-IsInjective asked-IsConsistent
      (keys-IsRange (entries asked.requirements) (refl, (refl, tt)))

History-phases_example :
    (asked.state ≡ locked
      → (id : NodeId) (s : ReqState) → lookup id (entries asked.requirements) ≡ some s
      → s ≡ locked)
    × (asked.state ≡ unlocked
        → ((id : NodeId) (s : ReqState)
            → lookup id (entries asked.requirements) ≡ some s
            → s ≡ unlocked)
          × ((u : Uuid) → lookup u asked.waiting ≡ none))
    × ((id : NodeId)
        → (in_flight (lookup id (entries asked.requirements)) ≡ true
            → (u : Uuid) × (lookup u asked.waiting ≡ some id))
          × ((u : Uuid)
              → lookup u asked.waiting ≡ some id
              → in_flight (lookup id (entries asked.requirements)) ≡ true))
History-phases_example = History-phases uuid uuid-IsInjective 0 (10 ∷ 20 ∷ []) locked_once
