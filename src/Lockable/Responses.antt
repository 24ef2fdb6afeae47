-- ===== src/Lockable/Responses.antt =====
-- lockable.go: the handlers of error and success signals, which answer what the extension sent.
use graphvent.Prelude.{ℕ, ◌+◌, Bool, List, [], ◌∷◌, Option, none, some, if◌then◌else◌, ◌==◌, length}
use graphvent.Prelude.Maps.{Map, lookup, insert, delete}
use graphvent.Signal.{NodeId, Uuid, unlock, error, success, Message}
use graphvent.Lockable.{
  ReqState, unlocked, unlocking, locked, locking, aborting_lock, LockableExt, entries,
}
use graphvent.Lockable.Reply.{Reply, message, not_unlocked, count_unlocked, state_or_zero}

-- A handler that finds nothing to do.
abbrev pub ignore : LockableExt → ℕ → Option Reply
ignore ext n = some (record { ext = ext; messages = []; changes = []; issued = n })

-- `Requirements[id] = s`; into the nil map it is a panic.
abbrev pub assign : NodeId → ReqState → Option (Map ReqState) → Option (Map ReqState)
assign id s none = none
assign id s (some m) = some (insert id s m)

-- Do as many requirements stand at Unlocked as there are?
abbrev pub all_unlocked : Map ReqState → Bool
all_unlocked m = count_unlocked m == length m

-- A response that was waited for, and only the waiting entry to drop.
abbrev pub forget : LockableExt → ℕ → Map NodeId → Option Reply
forget ext n w = some (record {
  ext = record ext { waiting = w };
  messages = [];
  changes = "waiting" ∷ [];
  issued = n;
})

-- The requirement is locked, in the three fields that say so.
abbrev pub acquire : LockableExt → NodeId → Map NodeId → Map ReqState → LockableExt
acquire ext id w m = record ext {
  requirements = some m;
  waiting = w;
  locked_set = insert id tt ext.locked_set;
  unlocked_set = delete id ext.unlocked_set;
}

-- The requirement is unlocked, in the three fields that say so.
abbrev pub release : LockableExt → NodeId → Map NodeId → Map ReqState → LockableExt
release ext id w m = record ext {
  requirements = some m;
  waiting = w;
  unlocked_set = insert id tt ext.unlocked_set;
  locked_set = delete id ext.locked_set;
}

module _ (new_uuid : ℕ → Uuid) where
  -- The loop of `HandleErrorSignal` over the requirements while locking: unlock those that are
  -- locked, and count those that are unlocked.
  unfoldable pub abort_all :
      List NodeId → ℕ → Map ReqState → Map NodeId → Map ReqState × Map NodeId × List Message × ℕ × ℕ
  abort_all [] n m w = (m, w, [], n, 0)
  abort_all (id ∷ order) n m w = elim (state_or_zero (lookup id m)) [
    | locked ↦
        let (m', w', messages, n', count) =
          abort_all order (n + 1) (insert id unlocking m) (insert (new_uuid n) id w) in
        (m', w', message id (unlock (new_uuid n)) ∷ messages, n', count)
    | unlocked ↦
        let (m', w', messages, n', count) = abort_all order n m w in
        (m', w', messages, n', count + 1)
    | _ ↦ abort_all order n m w
  ]

  -- Locking: the requirement could not be locked, so the whole lock is aborted.
  unfoldable pub abort_lock : LockableExt → ℕ → NodeId → Map NodeId → List NodeId → Option Reply
  abort_lock ext n id w order = elim (assign id unlocked ext.requirements) [
    | none ↦ none
    | some m₀ ↦
        let (m, w', messages, n', count) = abort_all order n m₀ w in
        if count == length m
        then some (record {
          ext = record ext { requirements = some m; waiting = w'; state = unlocked; owner = none };
          messages = messages;
          changes = "waiting" ∷ "state" ∷ "requirements" ∷ "owner" ∷ "state" ∷ [];
          issued = n';
        })
        else some (record {
          ext = record ext { requirements = some m; waiting = w'; state = aborting_lock };
          messages = messages;
          changes = "waiting" ∷ "state" ∷ "requirements" ∷ "state" ∷ [];
          issued = n';
        })
  ]

  -- An unlock that failed is sent again.
  unfoldable pub retry_unlock : LockableExt → ℕ → NodeId → Map NodeId → Option Reply
  retry_unlock ext n id w = some (record {
    ext = record ext { waiting = insert (new_uuid n) id w };
    messages = message id (unlock (new_uuid n)) ∷ [];
    changes = "waiting" ∷ [];
    issued = n + 1;
  })

  -- Aborting: the requirement's lock has failed too, which leaves it unlocked.
  unfoldable pub abort_failed : LockableExt → ℕ → NodeId → Map NodeId → Option Reply
  abort_failed ext n id w = elim (assign id unlocked ext.requirements) [
    | none ↦ none
    | some m ↦
        if all_unlocked m
        then some (record {
          ext = record ext { requirements = some m; waiting = w; state = unlocked; owner = none };
          messages = [];
          changes = "waiting" ∷ "owner" ∷ "state" ∷ [];
          issued = n;
        })
        else forget (record ext { requirements = some m }) n w
  ]

  unfoldable pub handle_error_signal : LockableExt → ℕ → Uuid → List NodeId → Option Reply
  unfolding abort_lock retry_unlock abort_failed
  handle_error_signal ext n req order = elim (lookup req ext.waiting) [
    | none ↦ ignore ext n
    | some id ↦
        let w = delete req ext.waiting in
        elim ext.state [
          | locking ↦ abort_lock ext n id w order
          | unlocking ↦ retry_unlock ext n id w
          | aborting_lock ↦ elim (state_or_zero (lookup id (entries ext.requirements))) [
            | locking ↦ abort_failed ext n id w
            | unlocking ↦ retry_unlock ext n id w
            | _ ↦ forget ext n w
          ]
          | _ ↦ forget ext n w
        ]
  ]

  -- The last requirement has been locked: the pending owner becomes the owner and is told so.
  -- A nil PendingOwner or ReqID is dereferenced: a panic.
  unfoldable pub full_lock : LockableExt → ℕ → Option NodeId → Option Uuid → Option Reply
  full_lock ext n (some owner) (some sig) = some (record {
    ext = record ext { state = locked; owner = some owner; req_id = none };
    messages = message owner (success (new_uuid n) sig) ∷ [];
    changes = "waiting" ∷ "state" ∷ "owner" ∷ "req_id" ∷ [];
    issued = n + 1;
  })
  full_lock ext n _ _ = none

  unfoldable pub requirement_locked : LockableExt → ℕ → NodeId → Map NodeId → Option Reply
  unfolding full_lock
  requirement_locked ext n id w = elim (assign id locked ext.requirements) [
    | none ↦ none
    | some m ↦
        let ext' = acquire ext id w m in
        if length ext'.locked_set == length m
        then full_lock ext' n ext.pending_owner ext.req_id
        else forget ext' n w
  ]

  -- Aborting, and the requirement has been locked after all: unlock it.
  unfoldable pub unlock_late : LockableExt → ℕ → NodeId → Map NodeId → Option Reply
  unlock_late ext n id w = elim (assign id unlocking ext.requirements) [
    | none ↦ none
    | some m ↦ some (record {
      ext = record ext { requirements = some m; waiting = insert (new_uuid n) id w };
      messages = message id (unlock (new_uuid n)) ∷ [];
      changes = "waiting" ∷ [];
      issued = n + 1;
    })
  ]

  -- The last requirement of an aborted lock is unlocked: the pending owner is told of the failure.
  unfoldable pub full_abort : LockableExt → ℕ → Option NodeId → Option Uuid → Option Reply
  full_abort ext n (some pending) (some sig) = some (record {
    ext = record ext { state = unlocked; req_id = none; pending_owner = none };
    messages = message pending (error (new_uuid n) sig (not_unlocked ext.state)) ∷ [];
    changes = "waiting" ∷ "state" ∷ "pending_owner" ∷ "req_id" ∷ [];
    issued = n + 1;
  })
  full_abort ext n _ _ = none

  unfoldable pub abort_unlocked : LockableExt → ℕ → NodeId → Map NodeId → Option Reply
  unfolding full_abort
  abort_unlocked ext n id w = elim (assign id unlocked ext.requirements) [
    | none ↦ none
    | some m ↦
        if all_unlocked m
        then full_abort (release ext id w m) n ext.pending_owner ext.req_id
        else forget (release ext id w m) n w
  ]

  -- The last requirement has been unlocked: the owner is told so, and is owner no more.
  unfoldable pub full_unlock : LockableExt → ℕ → Option NodeId → Option Uuid → Option Reply
  full_unlock ext n (some owner) (some sig) = some (record {
    ext = record ext { state = unlocked; req_id = none; owner = none };
    messages = message owner (success (new_uuid n) sig) ∷ [];
    changes = "waiting" ∷ "state" ∷ "owner" ∷ "req_id" ∷ [];
    issued = n + 1;
  })
  full_unlock ext n _ _ = none

  unfoldable pub requirement_unlocked : LockableExt → ℕ → NodeId → Map NodeId → Option Reply
  unfolding full_unlock
  requirement_unlocked ext n id w = elim (assign id unlocked ext.requirements) [
    | none ↦ none
    | some m ↦
        let ext' = release ext id w m in
        if length ext'.unlocked_set == length m
        then full_unlock ext' n ext.owner ext.req_id
        else forget ext' n w
  ]

  unfoldable pub handle_success_signal : LockableExt → ℕ → Uuid → Option Reply
  unfolding requirement_locked unlock_late abort_unlocked requirement_unlocked
  handle_success_signal ext n req = elim (lookup req ext.waiting) [
    | none ↦ ignore ext n
    | some id ↦
        let w = delete req ext.waiting in
        elim ext.state [
          | locking ↦ requirement_locked ext n id w
          | aborting_lock ↦ elim (state_or_zero (lookup id (entries ext.requirements))) [
            | locking ↦ unlock_late ext n id w
            | unlocking ↦ abort_unlocked ext n id w
            | _ ↦ forget ext n w
          ]
          | unlocking ↦ requirement_unlocked ext n id w
          | _ ↦ forget ext n w
        ]
  ]
