-- ===== src/Lockable/Protocol.antt =====
-- What the lockable extension of lockable.go says to others, and who may unlock it.
use mathlib.Core.Path.{subst}
use graphvent.Prelude.{
  ℕ, ◌+◌, ◌≡◌, refl, inl, inr, Bool, true, false, List, [], ◌∷◌, Option, none, some, if◌then◌else◌,
  ◌==◌, Option-cases, All,
}
use graphvent.Prelude.Maps.{Map, lookup, insert, delete, IsRange}
use graphvent.Signal.{NodeId, Uuid, Signal, success, error, status, link, lock, unlock, Message}
use graphvent.Lockable.{
  ReqState, unlocked, unlocking, locked, locking, aborting_lock, LockableExt, entries,
}
use graphvent.Lockable.Reply.{Reply, state_or_zero}
use graphvent.Lockable.Requests.{handle_link_signal, handle_lock_signal, handle_unlock_signal}
use graphvent.Lockable.Responses.{
  abort_all, handle_error_signal, handle_success_signal, abort_lock, retry_unlock, abort_failed,
  forget,
}
use graphvent.Lockable.Process.{process, forward_status}
use graphvent.Lockable.Tracking.{IsInjective}
use graphvent.Lockable.Phase.{IsConsistent}
use graphvent.Lockable.Invariant.Good.{Good-returns}
use graphvent.Lockable.Invariant.Errors.{handle_error_signal-Good}

-- Is this an unlock signal from the owner?
abbrev pub unlocks : NodeId → NodeId → Signal → Bool
unlocks owner source (unlock id) = source == owner
unlocks owner source _ = false

-- The handler has returned, and the lock is held as before.
pub data Holds (owner : NodeId) (ext : LockableExt) : Option Reply → Type 0 where
  holds :
      (r : Reply)
      → r.ext.state ≡ locked
      → r.ext.owner ≡ some owner
      → r.ext.requirements ≡ ext.requirements
      → Holds owner ext (some r)

if-Holds :
    (b : Bool) {owner : NodeId} {ext : LockableExt} {x y : Option Reply}
    → Holds owner ext x
    → Holds owner ext y
    → Holds owner ext (if b then x else y)
if-Holds true hx hy = hx
if-Holds false hx hy = hy

module _ (new_uuid : ℕ → Uuid) where
  -- A Locked extension stays Locked, under the same owner and with the same requirements, whatever
  -- signal it is sent, but for an unlock signal from the owner itself; and `Process` returns.
  pub process-Holds :
      (ext : LockableExt) (n : ℕ) (node_id source owner : NodeId) (signal : Signal)
      (order : List NodeId)
      → ext.state ≡ locked
      → ext.owner ≡ some owner
      → unlocks owner source signal ≡ false
      → Holds owner ext (process new_uuid ext n node_id source signal order)
  unfolding process forward_status handle_link_signal handle_lock_signal handle_unlock_signal
      handle_error_signal handle_success_signal
  process-Holds ext n node_id source owner (status id from fields) order e o h =
      rw (o, forward_status) (if-Holds (owner == node_id) (holds _ e o refl) (holds _ e o refl))
  process-Holds ext n node_id source owner (link id target action) order e o h =
      rw (e, handle_link_signal) (holds _ e o refl)
  process-Holds ext n node_id source owner (lock id) order e o h =
      rw (e, handle_lock_signal) (holds _ e o refl)
  process-Holds ext n node_id source owner (unlock id) order e o h =
      rw (e, handle_unlock_signal) (rw (o, handle_unlock_signal) (rw h (holds _ e o refl)))
  process-Holds ext n node_id source owner (error id req text) order e o h =
      elim (Option-cases (lookup req ext.waiting)) [
        | inl w ↦ rw (w, handle_error_signal) (holds _ e o refl)
        | inr (_, w) ↦ rw (w, handle_error_signal) (rw (e, handle_error_signal) (holds _ e o refl))
      ]
  process-Holds ext n node_id source owner (success id req) order e o h =
      elim (Option-cases (lookup req ext.waiting)) [
        | inl w ↦ rw (w, handle_success_signal) (holds _ e o refl)
        | inr (_, w) ↦
            rw (w, handle_success_signal) (rw (e, handle_success_signal) (holds _ e o refl))
      ]
  process-Holds ext n node_id source owner _ order e o h = holds _ e o refl

  -- Is this message an unlock signal?
  abbrev pub IsUnlock : Message → Type 0
  IsUnlock m = (id : Uuid) × (m.signal ≡ unlock id)

  abort_all-IsUnlock :
      (order : List NodeId) (n : ℕ) (m : Map ReqState) (w : Map NodeId)
      → All IsUnlock (abort_all new_uuid order n m w).2
  unfolding abort_all
  abort_all-IsUnlock [] n m w = tt
  abort_all-IsUnlock (id ∷ order) n m w =
      go (state_or_zero (lookup id m)) refl (abort_all-IsUnlock order (n + 1) _ _)
        (abort_all-IsUnlock order n m w)
    where
      go :
          (s : ReqState)
          → state_or_zero (lookup id m) ≡ s
          → All IsUnlock
              (abort_all new_uuid order
                (n + 1)
                (insert id unlocking m)
                (insert (new_uuid n) id w)).2
          → All IsUnlock (abort_all new_uuid order n m w).2
          → All IsUnlock (abort_all new_uuid (id ∷ order) n m w).2
      go locked e sent rest = rw (e, abort_all) ((new_uuid n, refl), sent)
      go unlocked e sent rest = rw (e, abort_all) rest
      go _ e sent rest = rw (e, abort_all) rest

  -- Whatever becomes of an error signal, the messages that go out are unlock signals.
  pub data Unlocks : Option Reply → Type 0 where
    panics : Unlocks none
    replies : (r : Reply) → All IsUnlock r.messages → Unlocks (some r)

  if-Unlocks :
      (b : Bool) {x y : Option Reply} → Unlocks x → Unlocks y → Unlocks (if b then x else y)
  if-Unlocks true hx hy = hx
  if-Unlocks false hx hy = hy

  abort_lock-Unlocks :
      (ext : LockableExt) (n : ℕ) (id : NodeId) (w : Map NodeId) (order : List NodeId)
      → Unlocks (abort_lock new_uuid ext n id w order)
  unfolding abort_lock
  abort_lock-Unlocks ext n id w order = elim (Option-cases ext.requirements) [
    | inl e ↦ rw (e, abort_lock) panics
    | inr (m, e) ↦
        let sent = abort_all-IsUnlock order n (insert id unlocked m) w in
        rw (e, abort_lock) (if-Unlocks _ (replies _ sent) (replies _ sent))
  ]

  abort_failed-Unlocks :
      (ext : LockableExt) (n : ℕ) (id : NodeId) (w : Map NodeId)
      → Unlocks (abort_failed new_uuid ext n id w)
  unfolding abort_failed
  abort_failed-Unlocks ext n id w = elim (Option-cases ext.requirements) [
    | inl e ↦ rw (e, abort_failed) panics
    | inr (m, e) ↦ rw (e, abort_failed) (if-Unlocks _ (replies _ tt) (replies _ tt))
  ]

  error-Unlocks :
      (ext : LockableExt) (n : ℕ) (req : Uuid) (order : List NodeId)
      → Unlocks (handle_error_signal new_uuid ext n req order)
  unfolding handle_error_signal retry_unlock
  error-Unlocks ext n req order = elim (Option-cases (lookup req ext.waiting)) [
    | inl e ↦ rw (e, handle_error_signal) (replies _ tt)
    | inr (id, e) ↦
        rw (e, handle_error_signal)
          (go id ext.state (state_or_zero (lookup id (entries ext.requirements))))
  ]
    where
      go :
          (id : NodeId) (s x : ReqState)
          → let w = delete req ext.waiting in
            Unlocks (elim s [
              | locking ↦ abort_lock new_uuid ext n id w order
              | unlocking ↦ retry_unlock new_uuid ext n id w
              | aborting_lock ↦ elim x [
                | locking ↦ abort_failed new_uuid ext n id w
                | unlocking ↦ retry_unlock new_uuid ext n id w
                | _ ↦ forget ext n w
              ]
              | _ ↦ forget ext n w
            ])
      go id locking x = abort_lock-Unlocks ext n id _ order
      go id unlocking x = replies _ ((new_uuid n, refl), tt)
      go id aborting_lock locking = abort_failed-Unlocks ext n id _
      go id aborting_lock unlocking = replies _ ((new_uuid n, refl), tt)
      go id aborting_lock _ = replies _ tt
      go id _ x = replies _ tt

  Unlocks-some :
      {out : Option Reply} (r : Reply) → Unlocks out → out ≡ some r → All IsUnlock r.messages
  Unlocks-some r panics e = cc
  Unlocks-some r (replies r' a) e =
      let same : r' ≡ r = cc in subst {A = Reply} (λ x. All IsUnlock x.messages) same a

  -- `HandleErrorSignal` of a consistent extension returns, and sends unlock signals only: whoever
  -- asked for the lock is sent neither an error nor a success when an error ends the attempt.
  pub handle_error_signal-IsUnlock :
      (ext : LockableExt) (n : ℕ) (req : Uuid) (order : List NodeId)
      → IsInjective new_uuid
      → IsConsistent new_uuid n ext
      → IsRange (entries ext.requirements) order
      → (r : Reply) × (handle_error_signal new_uuid ext n req order ≡ some r)
        × All IsUnlock r.messages
  handle_error_signal-IsUnlock ext n req order distinct c range =
      let (r, e, _, _) =
        Good-returns new_uuid
          (handle_error_signal-Good new_uuid distinct ext n req order c range) in
      (r, e, Unlocks-some r (error-Unlocks ext n req order) e)
