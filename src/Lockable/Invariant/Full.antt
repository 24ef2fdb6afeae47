-- ===== src/Lockable/Invariant/Full.antt =====
-- The replies of lockable.go with which a lock, an unlock or an abort is complete.
use graphvent.Prelude.{ℕ, ◌≡◌, refl, true, ◌&&◌, Option, none, some, arith}
use graphvent.Prelude.Maps.{Map, lookup, has, IsUnique}
use graphvent.Signal.{NodeId, Uuid}
use graphvent.Lockable.{ReqState, unlocked, locked, LockableExt, entries}
use graphvent.Lockable.Responses.{full_lock, full_abort, full_unlock, forget}
use graphvent.Lockable.Tracking.{Tracked, IsFresh}
use graphvent.Lockable.Phase.{fits, pointers, is_set}
use graphvent.Lockable.Invariant.Good.{Good, good}

-- What is left to show of an extension that is about to enter a state.
pub record Entering (new_uuid : ℕ → Uuid) (n : ℕ) (phase : ReqState) (ext : LockableExt)
    : Type 0 where
  pub fitting :
      (id : NodeId)
      → fits phase
          (lookup id (entries ext.requirements))
          (has id ext.locked_set)
          (has id ext.unlocked_set)
        ≡ true
  pub tracked : Tracked (entries ext.requirements) ext.waiting
  pub fresh : IsFresh new_uuid n ext.waiting
  pub unique : IsUnique (entries ext.requirements)
  pub unique_locked : IsUnique ext.locked_set
  pub unique_unlocked : IsUnique ext.unlocked_set

module _ (new_uuid : ℕ → Uuid) where
  pub full_lock-Good :
      (ext : LockableExt) (n : ℕ)
      → Entering new_uuid n locked ext
      → is_set ext.pending_owner && is_set ext.req_id ≡ true
      → Good new_uuid n (full_lock new_uuid ext n ext.pending_owner ext.req_id)
  unfolding full_lock
  full_lock-Good ext n c h = go ext.pending_owner ext.req_id h
    where
      go :
          (o : Option NodeId) (r : Option Uuid)
          → is_set o && is_set r ≡ true
          → Good new_uuid n (full_lock new_uuid ext n o r)
      go (some o) (some r) h =
          good _
            (record {
              fitting = c.fitting;
              pointing = refl;
              tracked = c.tracked;
              fresh = λ k p. c.fresh k (omega arith);
              unique = c.unique;
              unique_locked = c.unique_locked;
              unique_unlocked = c.unique_unlocked;
            })
            (omega arith)
      go none r h = cc
      go (some o) none h = cc

  pub full_abort-Good :
      (ext : LockableExt) (n : ℕ)
      → Entering new_uuid n unlocked ext
      → is_set ext.pending_owner && is_set ext.req_id ≡ true
      → Good new_uuid n (full_abort new_uuid ext n ext.pending_owner ext.req_id)
  unfolding full_abort
  full_abort-Good ext n c h = go ext.pending_owner ext.req_id h
    where
      go :
          (o : Option NodeId) (r : Option Uuid)
          → is_set o && is_set r ≡ true
          → Good new_uuid n (full_abort new_uuid ext n o r)
      go (some o) (some r) h =
          good _
            (record {
              fitting = c.fitting;
              pointing = refl;
              tracked = c.tracked;
              fresh = λ k p. c.fresh k (omega arith);
              unique = c.unique;
              unique_locked = c.unique_locked;
              unique_unlocked = c.unique_unlocked;
            })
            (omega arith)
      go none r h = cc
      go (some o) none h = cc

  pub full_unlock-Good :
      (ext : LockableExt) (n : ℕ)
      → Entering new_uuid n unlocked ext
      → is_set ext.owner && is_set ext.req_id ≡ true
      → Good new_uuid n (full_unlock new_uuid ext n ext.owner ext.req_id)
  unfolding full_unlock
  full_unlock-Good ext n c h = go ext.owner ext.req_id h
    where
      go :
          (o : Option NodeId) (r : Option Uuid)
          → is_set o && is_set r ≡ true
          → Good new_uuid n (full_unlock new_uuid ext n o r)
      go (some o) (some r) h =
          good _
            (record {
              fitting = c.fitting;
              pointing = refl;
              tracked = c.tracked;
              fresh = λ k p. c.fresh k (omega arith);
              unique = c.unique;
              unique_locked = c.unique_locked;
              unique_unlocked = c.unique_unlocked;
            })
            (omega arith)
      go none r h = cc
      go (some o) none h = cc

  -- Nothing to do but wait for the other answers.
  pub wait-Good :
      (ext : LockableExt) (n : ℕ) (w : Map NodeId) (phase : ReqState)
      → Entering new_uuid n phase (record ext { waiting = w })
      → ext.state ≡ phase
      → pointers phase ext ≡ true
      → Good new_uuid n (forget ext n w)
  wait-Good ext n w phase c e h =
      good _
        (record {
          fitting = rw e c.fitting;
          pointing = ground (arith, h);
          tracked = c.tracked;
          fresh = c.fresh;
          unique = c.unique;
          unique_locked = c.unique_locked;
          unique_unlocked = c.unique_unlocked;
        })
        (omega arith)
