-- ===== src/Lockable/Requests.antt =====
-- lockable.go: the handlers of link, lock and unlock signals.
use graphvent.Prelude.{
  ℕ, List, [], ◌∷◌, Option, none, some, String, if◌then◌else◌, ◌==◌, length, str_eq,
}
use graphvent.Prelude.Maps.{has, insert, delete}
use graphvent.Signal.{NodeId, Uuid, lock, unlock}
use graphvent.Lockable.{unlocked, unlocking, locked, locking, LockableExt, entries}
use graphvent.Lockable.Reply.{Reply, not_unlocked, refuse, confirm, request_all}

module _ (new_uuid : ℕ → Uuid) where
  unfoldable pub add_requirement : LockableExt → ℕ → NodeId → Uuid → NodeId → Option Reply
  add_requirement ext n source sig node_id =
      if has node_id (entries ext.requirements)
      then refuse new_uuid ext n source sig "already_requirement"
      else confirm new_uuid
          (record ext { requirements = some (insert node_id unlocked (entries ext.requirements)) })
          n source sig ("requirements" ∷ [])

  unfoldable pub remove_requirement : LockableExt → ℕ → NodeId → Uuid → NodeId → Option Reply
  remove_requirement ext n source sig node_id = elim ext.requirements [
    | none ↦ refuse new_uuid ext n source sig "not_requirement"
    | some m ↦
        if has node_id m
        then confirm new_uuid (record ext { requirements = some (delete node_id m) }) n source sig
            ("requirements" ∷ [])
        else refuse new_uuid ext n source sig "not_requirement"
  ]

  unfoldable pub handle_link_signal :
      LockableExt → ℕ → NodeId → Uuid → NodeId → String → Option Reply
  unfolding add_requirement remove_requirement
  handle_link_signal ext n source sig node_id action = elim ext.state [
    | unlocked ↦
        if str_eq action "add"
        then add_requirement ext n source sig node_id
        else if str_eq action "remove"
        then remove_requirement ext n source sig node_id
        else refuse new_uuid ext n source sig "unknown_action"
    | s ↦ refuse new_uuid ext n source sig (not_unlocked s)
  ]

  -- `HandleUnlockSignal` in state Locked, from the owner.
  unfoldable pub start_unlock : LockableExt → ℕ → NodeId → Uuid → List NodeId → Option Reply
  start_unlock ext n source sig order =
      if length (entries ext.requirements) == 0
      then confirm new_uuid (record ext { owner = none; pending_owner = none; state = unlocked }) n
          source sig ("state" ∷ "owner" ∷ "pending_owner" ∷ [])
      else (let (m, w, messages, n') =
            request_all new_uuid unlock unlocking order n (entries ext.requirements) ext.waiting in
          some (record {
            ext = record ext {
              pending_owner = none;
              req_id = some sig;
              state = unlocking;
              requirements = some m;
              waiting = w;
            };
            messages = messages;
            changes = "state" ∷ "waiting" ∷ "requirements" ∷ "pending_owner" ∷ [];
            issued = n';
          }))

  -- An Owner that is nil is dereferenced: a panic.
  unfoldable pub handle_unlock_signal : LockableExt → ℕ → NodeId → Uuid → List NodeId → Option Reply
  unfolding start_unlock
  handle_unlock_signal ext n source sig order = elim ext.state [
    | locked ↦ elim ext.owner [
      | none ↦ none
      | some owner ↦
          if source == owner
          then start_unlock ext n source sig order
          else refuse new_uuid ext n source sig "not_owner"
    ]
    | s ↦ refuse new_uuid ext n source sig "not_locked"
  ]

  -- `HandleLockSignal` in state Unlocked.
  unfoldable pub start_lock : LockableExt → ℕ → NodeId → Uuid → List NodeId → Option Reply
  start_lock ext n source sig order =
      if length (entries ext.requirements) == 0
      then confirm new_uuid
          (record ext { owner = some source; pending_owner = some source; state = locked }) n source
          sig ("state" ∷ "owner" ∷ "pending_owner" ∷ [])
      else (let (m, w, messages, n') =
            request_all new_uuid lock locking order n (entries ext.requirements) ext.waiting in
          some (record {
            ext = record ext {
              pending_owner = some source;
              req_id = some sig;
              state = locking;
              requirements = some m;
              waiting = w;
            };
            messages = messages;
            changes = "state" ∷ "requirements" ∷ "waiting" ∷ "pending_owner" ∷ [];
            issued = n';
          }))

  unfoldable pub handle_lock_signal : LockableExt → ℕ → NodeId → Uuid → List NodeId → Option Reply
  unfolding start_lock
  handle_lock_signal ext n source sig order = elim ext.state [
    | unlocked ↦ start_lock ext n source sig order
    | s ↦ refuse new_uuid ext n source sig (not_unlocked s)
  ]
