-- ===== src/Lockable/Invariant/Requests.antt =====
-- Lock and unlock signals and added requirements, in a consistent extension of lockable.go.
use graphvent.Prelude.{
  ℕ, ◌≡◌, refl, inl, inr, false, List, Option, none, some, String, ◌==◌, arith, ==_iff, Bool-cases,
  length, str_eq,
}
use graphvent.Prelude.Maps.{
  Map, has, lookup-insert, lookup_empty, lookup_missing, insert-IsUnique, IsRange,
}
use graphvent.Signal.{NodeId, Uuid, lock, unlock}
use graphvent.Lockable.{ReqState, unlocked, unlocking, locked, locking, LockableExt, entries}
use graphvent.Lockable.Reply.{request_all, refuse}
use graphvent.Lockable.Requests.{
  handle_link_signal, handle_lock_signal, handle_unlock_signal, add_requirement, start_lock,
  start_unlock,
}
use graphvent.Lockable.Tracking.{IsInjective, settle-Tracked}
use graphvent.Lockable.Loops.{Kept, lookup-request_all, request_all-IsUnique, request_all-Tracked}
use graphvent.Lockable.Phase.{IsConsistent}
use graphvent.Lockable.Invariant.Good.{Good, good, later-IsConsistent, if-Good}

module _ (new_uuid : ℕ → Uuid) (distinct : IsInjective new_uuid) where
  lock-Good :
      (ext : LockableExt) (n : ℕ) (source : NodeId) (sig : Uuid) (order : List NodeId)
      → IsConsistent new_uuid n ext
      → ext.state ≡ unlocked
      → IsRange (entries ext.requirements) order
      → Good new_uuid n (start_lock new_uuid ext n source sig order)
  unfolding start_lock
  lock-Good ext n source sig order c e r = elim (Bool-cases (length m == 0)) [
    | inl z ↦ rw z (
        good _
          (record {
            fitting = λ id. ground (arith, c.fitting id, lookup_empty id m);
            pointing = refl;
            tracked = c.tracked;
            fresh = λ k p. c.fresh k (omega arith);
            unique = c.unique;
            unique_locked = c.unique_locked;
            unique_unlocked = c.unique_unlocked;
          })
          (omega arith))
    | inr z ↦ rw z (
        good _
          (record {
            fitting = λ id. ground (
              arith,
              c.fitting id,
              r.exact id,
              lookup-request_all new_uuid lock locking order n m ext.waiting id,
              lookup_missing id m,
            );
            pointing = refl;
            tracked = kept.tracked;
            fresh = kept.fresh;
            unique = request_all-IsUnique new_uuid lock locking order n m ext.waiting c.unique;
            unique_locked = c.unique_locked;
            unique_unlocked = c.unique_unlocked;
          })
          kept.grows)
  ]
    where
      m : Map ReqState
      m = entries ext.requirements

      kept :
          let r = request_all new_uuid lock locking order n m ext.waiting in
          Kept new_uuid n r.0 r.1 r.3
      kept =
          request_all-Tracked new_uuid lock locking distinct refl order n m ext.waiting r.distinct
            (λ k v. ground (arith, c.fitting k)) c.fresh c.tracked

  unlock-Good :
      (ext : LockableExt) (n : ℕ) (source : NodeId) (sig : Uuid) (order : List NodeId)
      → IsConsistent new_uuid n ext
      → ext.state ≡ locked
      → IsRange (entries ext.requirements) order
      → Good new_uuid n (start_unlock new_uuid ext n source sig order)
  unfolding start_unlock
  unlock-Good ext n source sig order c e r = elim (Bool-cases (length m == 0)) [
    | inl z ↦ rw z (
        good _
          (record {
            fitting = λ id. ground (arith, c.fitting id, lookup_empty id m);
            pointing = refl;
            tracked = c.tracked;
            fresh = λ k p. c.fresh k (omega arith);
            unique = c.unique;
            unique_locked = c.unique_locked;
            unique_unlocked = c.unique_unlocked;
          })
          (omega arith))
    | inr z ↦ rw z (
        good _
          (record {
            fitting = λ id. ground (
              arith,
              c.fitting id,
              r.exact id,
              lookup-request_all new_uuid unlock unlocking order n m ext.waiting id,
              lookup_missing id m,
            );
            pointing = ground (arith, c.pointing);
            tracked = kept.tracked;
            fresh = kept.fresh;
            unique = request_all-IsUnique new_uuid unlock unlocking order n m ext.waiting c.unique;
            unique_locked = c.unique_locked;
            unique_unlocked = c.unique_unlocked;
          })
          kept.grows)
  ]
    where
      m : Map ReqState
      m = entries ext.requirements

      kept :
          let r = request_all new_uuid unlock unlocking order n m ext.waiting in
          Kept new_uuid n r.0 r.1 r.3
      kept =
          request_all-Tracked new_uuid unlock unlocking distinct refl order n m ext.waiting
            r.distinct (λ k v. ground (arith, c.fitting k)) c.fresh c.tracked

  refuse-Good :
      (ext : LockableExt) (n : ℕ) (source : NodeId) (sig : Uuid) (text : String)
      → IsConsistent new_uuid n ext
      → Good new_uuid n (refuse new_uuid ext n source sig text)
  refuse-Good ext n source sig text c =
      good _ (later-IsConsistent new_uuid (omega arith) c) (omega arith)

  pub handle_lock_signal-Good :
      (ext : LockableExt) (n : ℕ) (source : NodeId) (sig : Uuid) (order : List NodeId)
      → IsConsistent new_uuid n ext
      → IsRange (entries ext.requirements) order
      → Good new_uuid n (handle_lock_signal new_uuid ext n source sig order)
  unfolding handle_lock_signal
  handle_lock_signal-Good ext n source sig order c r = go ext.state refl
    where
      go :
          (s : ReqState)
          → ext.state ≡ s
          → Good new_uuid n (handle_lock_signal new_uuid ext n source sig order)
      go unlocked e = rw (e, handle_lock_signal) (lock-Good ext n source sig order c e r)
      go _ e = rw (e, handle_lock_signal) (refuse-Good ext n source sig _ c)

  pub handle_unlock_signal-Good :
      (ext : LockableExt) (n : ℕ) (source : NodeId) (sig : Uuid) (order : List NodeId)
      → IsConsistent new_uuid n ext
      → IsRange (entries ext.requirements) order
      → Good new_uuid n (handle_unlock_signal new_uuid ext n source sig order)
  unfolding handle_unlock_signal
  handle_unlock_signal-Good ext n source sig order c r = go ext.state refl ext.owner refl
    where
      go :
          (s : ReqState)
          → ext.state ≡ s
          → (o : Option NodeId) → ext.owner ≡ o
          → Good new_uuid n (handle_unlock_signal new_uuid ext n source sig order)
      go locked e none o = absurd (ground (arith, c.pointing))
      go locked e (some owner) o =
          rw (e, o, handle_unlock_signal)
            (if-Good new_uuid (source == owner) (λ _. unlock-Good ext n source sig order c e r)
              (λ _. refuse-Good ext n source sig _ c))
      go _ e _ o = rw (e, handle_unlock_signal) (refuse-Good ext n source sig _ c)

  -- Adding a requirement.
  add-Good :
      (ext : LockableExt) (n : ℕ) (source : NodeId) (sig : Uuid) (node_id : NodeId)
      → IsConsistent new_uuid n ext
      → ext.state ≡ unlocked
      → Good new_uuid n (add_requirement new_uuid ext n source sig node_id)
  unfolding add_requirement
  add-Good ext n source sig node_id c e =
      if-Good new_uuid (has node_id m) (λ _. refuse-Good ext n source sig _ c)
        λ new.
          good _
            (record {
              fitting = λ id. ground (
                arith,
                c.fitting id,
                lookup-insert node_id id unlocked m,
                lookup_missing node_id m,
                ==_iff id node_id,
              );
              pointing = ground arith;
              tracked =
                  settle-Tracked m ext.waiting node_id unlocked c.tracked
                    (ground (arith, lookup_missing node_id m)) refl;
              fresh = λ k p. c.fresh k (omega arith);
              unique = insert-IsUnique node_id unlocked m c.unique;
              unique_locked = c.unique_locked;
              unique_unlocked = c.unique_unlocked;
            })
            (omega arith)
    where
      m : Map ReqState
      m = entries ext.requirements

  -- A link signal that is not a removal.
  pub handle_link_signal-Good :
      (ext : LockableExt) (n : ℕ) (source : NodeId) (sig : Uuid) (node_id : NodeId)
      (action : String)
      → IsConsistent new_uuid n ext
      → str_eq action "remove" ≡ false
      → Good new_uuid n (handle_link_signal new_uuid ext n source sig node_id action)
  unfolding handle_link_signal
  handle_link_signal-Good ext n source sig node_id action c keep = go ext.state refl
    where
      go :
          (s : ReqState)
          → ext.state ≡ s
          → Good new_uuid n (handle_link_signal new_uuid ext n source sig node_id action)
      go unlocked e =
          rw (e, handle_link_signal)
            (if-Good new_uuid (str_eq action "add") (λ _. add-Good ext n source sig node_id c e)
              (λ _. rw keep (refuse-Good ext n source sig _ c)))
      go _ e = rw (e, handle_link_signal) (refuse-Good ext n source sig _ c)
