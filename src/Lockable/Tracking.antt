-- ===== src/Lockable/Tracking.antt =====
-- The Waiting map of lockable.go against the requirements: which requirement is in flight, and
-- which signal it owes an answer to.
use graphvent.Prelude.{
  ℕ, ◌+◌, ◌≤◌, ◌≡◌, inl, inr, Bool, true, false, Option, none, some, ◌==◌, arith, ==_iff,
  Bool-cases,
}
use graphvent.Prelude.Maps.{Map, lookup, insert, delete, lookup-insert, lookup-delete}
use graphvent.Signal.{NodeId, Uuid}
use graphvent.Lockable.{ReqState, unlocking, locking}

-- A requirement that has been sent a lock or an unlock, and has not answered.
abbrev pub in_flight : Option ReqState → Bool
in_flight (some locking) = true
in_flight (some unlocking) = true
in_flight _ = false

pub record Tracked (m : Map ReqState) (w : Map NodeId) : Type 0 where
  -- Who is waited for is in flight,
  pub flying : (u : Uuid) (id : NodeId) → lookup u w ≡ some id → in_flight (lookup id m) ≡ true
  -- and is waited for once;
  pub single : (u v : Uuid) (id : NodeId) → lookup u w ≡ some id → lookup v w ≡ some id → u ≡ v
  -- who is in flight is waited for.
  pub covered : (id : NodeId) → in_flight (lookup id m) ≡ true → (u : Uuid) × (lookup u w ≡ some id)

-- A signal is sent to a requirement that is not in flight.
pub send-Tracked :
    (m : Map ReqState) (w : Map NodeId) (u : Uuid) (id : NodeId) (s : ReqState)
    → Tracked m w
    → lookup u w ≡ none
    → in_flight (lookup id m) ≡ false
    → in_flight (some s) ≡ true
    → Tracked (insert id s m) (insert u id w)
send-Tracked m w u id s t fresh idle fly = record {
  flying = λ v j e.
      ground (arith, lookup-insert u v id w, lookup-insert id j s m, t.flying v j, ==_iff v u);
  single = λ v v' j e e'. ground (
    arith,
    lookup-insert u v id w,
    lookup-insert u v' id w,
    t.single v v' j,
    t.flying v j,
    t.flying v' j,
  );
  covered = λ j f. elim (Bool-cases (j == id)) [
    | inl e ↦ (u, ground (arith, lookup-insert u u id w))
    | inr e ↦
        let (v, p) = t.covered j (ground (arith, lookup-insert id j s m)) in
        (v, ground (arith, lookup-insert u v id w, p))
  ];
}

-- A requirement answers, and is in flight no more.
pub answer-Tracked :
    (m : Map ReqState) (w : Map NodeId) (u : Uuid) (id : NodeId) (s : ReqState)
    → Tracked m w
    → lookup u w ≡ some id
    → in_flight (some s) ≡ false
    → Tracked (insert id s m) (delete u w)
answer-Tracked m w u id s t e still = record {
  flying = λ v j p.
      ground (arith, lookup-delete u v w, lookup-insert id j s m, t.flying v j, t.single v u j);
  single =
      λ v v' j p p'. ground (arith, lookup-delete u v w, lookup-delete u v' w, t.single v v' j);
  covered = λ j f.
      let (v, p) = t.covered j (ground (arith, lookup-insert id j s m)) in
      (v, ground (arith, lookup-delete u v w, lookup-insert id j s m, p));
}

-- A requirement answers, and is sent another signal.
pub resend-Tracked :
    (m : Map ReqState) (w : Map NodeId) (u v : Uuid) (id : NodeId)
    → Tracked m w
    → lookup u w ≡ some id
    → lookup v w ≡ none
    → Tracked m (insert v id (delete u w))
resend-Tracked m w u v id t e fresh = record {
  flying = λ x j p.
      ground
        (arith, lookup-insert v x id (delete u w), lookup-delete u x w, t.flying x j, t.flying u j);
  single = λ x x' j p p'. ground (
    arith,
    lookup-insert v x id (delete u w),
    lookup-insert v x' id (delete u w),
    lookup-delete u x w,
    lookup-delete u x' w,
    t.single x x' j,
    t.single x u j,
    t.single x' u j,
  );
  covered = λ j f. elim (Bool-cases (j == id)) [
    | inl q ↦ (v, ground (arith, lookup-insert v v id (delete u w)))
    | inr q ↦
        let (x, p) = t.covered j f in
        (x, ground (arith, lookup-insert v x id (delete u w), lookup-delete u x w, p))
  ];
}

-- A requirement in flight goes from one such state to another.
pub turn-Tracked :
    (m : Map ReqState) (w : Map NodeId) (id : NodeId) (s : ReqState)
    → Tracked m w
    → in_flight (lookup id m) ≡ true
    → in_flight (some s) ≡ true
    → Tracked (insert id s m) w
turn-Tracked m w id s t f fly = record {
  flying = λ v j p. ground (arith, lookup-insert id j s m, t.flying v j);
  single = t.single;
  covered = λ j g. t.covered j (ground (arith, lookup-insert id j s m, ==_iff j id));
}

-- UUIDs from the n-th on are not yet waited for.
abbrev pub IsFresh : (ℕ → Uuid) → ℕ → Map NodeId → Type 0
IsFresh new_uuid n w = (k : ℕ) → n ≤ k → lookup (new_uuid k) w ≡ none

-- `uuid.New()` never returns a UUID twice.
abbrev pub IsInjective : (ℕ → Uuid) → Type 0
IsInjective new_uuid = (j k : ℕ) → new_uuid j ≡ new_uuid k → j ≡ k

module _ (new_uuid : ℕ → Uuid) (distinct : IsInjective new_uuid) where
  pub insert-IsFresh :
      (n : ℕ) (id : NodeId) (w : Map NodeId)
      → IsFresh new_uuid n w
      → IsFresh new_uuid (n + 1) (insert (new_uuid n) id w)
  insert-IsFresh n id w f k h =
      ground (arith, lookup-insert (new_uuid n) (new_uuid k) id w, distinct k n, f k)

pub delete-IsFresh :
    (new_uuid : ℕ → Uuid) (n : ℕ) (u : Uuid) (w : Map NodeId)
    → IsFresh new_uuid n w
    → IsFresh new_uuid n (delete u w)
delete-IsFresh new_uuid n u w f k h = ground (arith, lookup-delete u (new_uuid k) w, f k)

-- A requirement that is not in flight, or a new one, gets a state that is not in flight.
pub settle-Tracked :
    (m : Map ReqState) (w : Map NodeId) (id : NodeId) (s : ReqState)
    → Tracked m w
    → in_flight (lookup id m) ≡ false
    → in_flight (some s) ≡ false
    → Tracked (insert id s m) w
settle-Tracked m w id s t idle still = record {
  flying = λ v j p. ground (arith, lookup-insert id j s m, t.flying v j, ==_iff j id);
  single = t.single;
  covered = λ j g. t.covered j (ground (arith, lookup-insert id j s m));
}
