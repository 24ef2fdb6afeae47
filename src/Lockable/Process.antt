-- ===== src/Lockable/Process.antt =====
-- lockable.go: `Process`, which hands each signal to its handler.
use graphvent.Prelude.{ℕ, List, [], ◌∷◌, Option, none, some, if◌then◌else◌, ◌==◌}
use graphvent.Signal.{NodeId, Uuid, Signal, status, link, lock, unlock, error, success}
use graphvent.Lockable.{LockableExt}
use graphvent.Lockable.Reply.{Reply, message}
use graphvent.Lockable.Requests.{handle_link_signal, handle_lock_signal, handle_unlock_signal}
use graphvent.Lockable.Responses.{ignore, handle_error_signal, handle_success_signal}

module _ (new_uuid : ℕ → Uuid) where
  -- A StatusSignal goes on to the owner, unless the owner is the node itself.
  unfoldable pub forward_status : LockableExt → ℕ → NodeId → Signal → Option Reply
  forward_status ext n node_id signal = elim ext.owner [
    | none ↦ ignore ext n
    | some owner ↦
        if owner == node_id
        then ignore ext n
        else some
            (record { ext = ext; messages = message owner signal ∷ []; changes = []; issued = n })
  ]

  unfoldable pub process : LockableExt → ℕ → NodeId → NodeId → Signal → List NodeId → Option Reply
  unfolding forward_status
  process ext n node_id source (status id from fields) order =
      forward_status ext n node_id (status id from fields)
  process ext n node_id source (link id target action) order =
      handle_link_signal new_uuid ext n source id target action
  process ext n node_id source (lock id) order = handle_lock_signal new_uuid ext n source id order
  process ext n node_id source (unlock id) order =
      handle_unlock_signal new_uuid ext n source id order
  process ext n node_id source (error id req text) order =
      handle_error_signal new_uuid ext n req order
  process ext n node_id source (success id req) order = handle_success_signal new_uuid ext n req
  process ext n node_id source _ order = ignore ext n
