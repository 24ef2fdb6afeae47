-- ===== src/Lockable/Invariant/Process.antt =====
-- Any signal at all, in a consistent extension of lockable.go, and whole histories of signals.
use graphvent.Prelude.{
  ℕ, ◌≤◌, ◌≡◌, inl, inr, Bool, false, List, some, ◌==◌, arith, Option-cases, str_eq,
}
use graphvent.Prelude.Maps.{IsRange}
use graphvent.Signal.{NodeId, Uuid, Signal, success, error, status, link, lock, unlock}
use graphvent.Lockable.{LockableExt, entries}
use graphvent.Lockable.Reply.{Reply}
use graphvent.Lockable.Process.{process, forward_status}
use graphvent.Lockable.Tracking.{IsInjective}
use graphvent.Lockable.Phase.{IsConsistent}
use graphvent.Lockable.Invariant.Good.{Good, good, Good-returns, if-Good}
use graphvent.Lockable.Invariant.Requests.{
  handle_link_signal-Good, handle_lock_signal-Good, handle_unlock_signal-Good,
}
use graphvent.Lockable.Invariant.Errors.{handle_error_signal-Good}
use graphvent.Lockable.Invariant.Successes.{handle_success_signal-Good}

-- A link signal that asks for the removal of a requirement.
abbrev pub removes : Signal → Bool
removes (link id target action) = str_eq action "remove"
removes _ = false

module _ (new_uuid : ℕ → Uuid) where
  forward_status-Good :
      (ext : LockableExt) (n : ℕ) (node_id : NodeId) (signal : Signal)
      → IsConsistent new_uuid n ext
      → Good new_uuid n (forward_status new_uuid ext n node_id signal)
  unfolding forward_status
  forward_status-Good ext n node_id signal c = elim (Option-cases ext.owner) [
    | inl e ↦ rw (e, forward_status) (good _ c (omega arith))
    | inr (owner, e) ↦
        rw (e, forward_status)
          (if-Good new_uuid (owner == node_id) (λ _. good _ c (omega arith))
            (λ _. good _ c (omega arith)))
  ]

  module _ (distinct : IsInjective new_uuid) where
    process-Good :
        (ext : LockableExt) (n : ℕ) (node_id source : NodeId) (signal : Signal)
        (order : List NodeId)
        → IsConsistent new_uuid n ext
        → IsRange (entries ext.requirements) order
        → removes signal ≡ false
        → Good new_uuid n (process new_uuid ext n node_id source signal order)
    unfolding process
    process-Good ext n node_id source (status id from fields) order c r h =
        forward_status-Good ext n node_id (status id from fields) c
    process-Good ext n node_id source (link id target action) order c r h =
        handle_link_signal-Good new_uuid distinct ext n source id target action c h
    process-Good ext n node_id source (lock id) order c r h =
        handle_lock_signal-Good new_uuid distinct ext n source id order c r
    process-Good ext n node_id source (unlock id) order c r h =
        handle_unlock_signal-Good new_uuid distinct ext n source id order c r
    process-Good ext n node_id source (error id req text) order c r h =
        handle_error_signal-Good new_uuid distinct ext n req order c r
    process-Good ext n node_id source (success id req) order c r h =
        handle_success_signal-Good new_uuid distinct ext n req c
    process-Good ext n node_id source _ order c r h = good _ c (omega arith)

    -- With UUIDs that never repeat, `Process` of a consistent extension does not panic and leaves it
    -- consistent, for any signal from any source but the removal of a requirement.
    pub process-IsConsistent :
        (ext : LockableExt) (n : ℕ) (node_id source : NodeId) (signal : Signal)
        (order : List NodeId)
        → IsConsistent new_uuid n ext
        → IsRange (entries ext.requirements) order
        → removes signal ≡ false
        → (r : Reply) × (process new_uuid ext n node_id source signal order ≡ some r)
          × IsConsistent new_uuid r.issued r.ext
          × (n ≤ r.issued)
    process-IsConsistent ext n node_id source signal order c r h =
        Good-returns new_uuid (process-Good ext n node_id source signal order c r h)
