-- ===== src/Lockable/Invariant/Good.antt =====
-- What the handlers of lockable.go owe: a reply, and a consistent extension in it.
use graphvent.Prelude.{
  ℕ, ◌≤◌, ◌≡◌, refl, Bool, true, false, [], Option, none, some, if◌then◌else◌, arith,
}
use graphvent.Prelude.Maps.{Map, lookup, lookup_empty}
use graphvent.Signal.{NodeId, Uuid}
use graphvent.Lockable.{ReqState, LockableExt, entries}
use graphvent.Lockable.Reply.{Reply}
use graphvent.Lockable.Tracking.{in_flight}
use graphvent.Lockable.Phase.{IsConsistent}

module _ (new_uuid : ℕ → Uuid) where
  -- The handler returned, the extension is consistent again, and no UUID was given back.
  pub data Good (n : ℕ) : Option Reply → Type 0 where
    good : (r : Reply) → IsConsistent new_uuid r.issued r.ext → n ≤ r.issued → Good n (some r)

  pub Good-returns :
      {n : ℕ} {out : Option Reply}
      → Good n out
      → (r : Reply) × (out ≡ some r) × IsConsistent new_uuid r.issued r.ext × (n ≤ r.issued)
  Good-returns (good r c h) = (r, refl, c, h)

  pub if-Good :
      (b : Bool) {n : ℕ} {x y : Option Reply}
      → (b ≡ true → Good n x)
      → (b ≡ false → Good n y)
      → Good n (if b then x else y)
  if-Good true hx hy = hx refl
  if-Good false hx hy = hy refl

  -- More UUIDs may have been drawn meanwhile.
  pub later-IsConsistent :
      {n n' : ℕ} {ext : LockableExt}
      → n ≤ n'
      → IsConsistent new_uuid n ext
      → IsConsistent new_uuid n' ext
  later-IsConsistent h c = record {
    fitting = c.fitting;
    pointing = c.pointing;
    tracked = c.tracked;
    fresh = λ k p. c.fresh k (omega arith);
    unique = c.unique;
    unique_locked = c.unique_locked;
    unique_unlocked = c.unique_unlocked;
  }

  -- Who is waited for is a requirement in flight.
  pub flying-requirement :
      {n : ℕ} {ext : LockableExt} (req : Uuid) {id : NodeId}
      → IsConsistent new_uuid n ext
      → lookup req ext.waiting ≡ some id
      → (m : Map ReqState) × (ext.requirements ≡ some m) × (in_flight (lookup id m) ≡ true)
  flying-requirement {ext = ext} req {id} c e = go ext.requirements refl (c.tracked.flying req id e)
    where
      go :
          (o : Option (Map ReqState))
          → ext.requirements ≡ o
          → in_flight (lookup id (entries ext.requirements)) ≡ true
          → (m : Map ReqState) × (ext.requirements ≡ some m) × (in_flight (lookup id m) ≡ true)
      go none q f = absurd (ground (arith, lookup_empty {V = ReqState} id []))
      go (some m) q f = (m, q, rw q at f)
