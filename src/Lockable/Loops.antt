-- ===== src/Lockable/Loops.antt =====
-- The loops of lockable.go that send signals to the requirements.
use graphvent.Prelude.{
  ℕ, ◌+◌, ◌≤◌, ◌≡◌, refl, true, false, List, [], ◌∷◌, Option, some, if◌then◌else◌, arith, ==_iff,
  length,
}
use graphvent.Prelude.Maps.{
  Map, lookup, insert, lookup-insert, insert-IsUnique, IsUnique, visits, IsDistinct,
}
use graphvent.Signal.{NodeId, Uuid, Signal}
use graphvent.Lockable.{ReqState, unlocked, unlocking, locked}
use graphvent.Lockable.Reply.{request_all, state_or_zero}
use graphvent.Lockable.Responses.{abort_all}
use graphvent.Lockable.Tracking.{
  in_flight, Tracked, IsFresh, IsInjective, send-Tracked, insert-IsFresh,
}

-- What a loop leaves that began with `n` UUIDs drawn.
pub record Kept (new_uuid : ℕ → Uuid) (n : ℕ) (m : Map ReqState) (w : Map NodeId) (n' : ℕ)
    : Type 0 where
  pub tracked : Tracked m w
  pub fresh : IsFresh new_uuid n' w
  pub grows : n ≤ n'

-- What aborting does to a requirement.
abbrev pub abort_state : Option ReqState → Option ReqState
abort_state (some locked) = some unlocking
abort_state s = s

module _ (new_uuid : ℕ → Uuid) where
  module _ (make : Uuid → Signal) (s : ReqState) where
    -- Every visited requirement is marked, and no other.
    pub lookup-request_all :
        (order : List NodeId) (n : ℕ) (m : Map ReqState) (w : Map NodeId) (k : NodeId)
        → lookup k (request_all new_uuid make s order n m w).0
          ≡ (if visits k order then some s else lookup k m)
    unfolding request_all visits
    lookup-request_all [] n m w k = refl
    lookup-request_all (id ∷ order) n m w k = ground (
      arith,
      lookup-request_all order (n + 1) (insert id s m) (insert (new_uuid n) id w) k,
      lookup-insert id k s m,
    )

    pub request_all-IsUnique :
        (order : List NodeId) (n : ℕ) (m : Map ReqState) (w : Map NodeId)
        → IsUnique m
        → IsUnique (request_all new_uuid make s order n m w).0
    unfolding request_all
    request_all-IsUnique [] n m w u = u
    request_all-IsUnique (id ∷ order) n m w u =
        request_all-IsUnique order (n + 1) _ _ (insert-IsUnique id s m u)

    module _ (distinct : IsInjective new_uuid) (fly : in_flight (some s) ≡ true) where
      pub request_all-Tracked :
          (order : List NodeId) (n : ℕ) (m : Map ReqState) (w : Map NodeId)
          → IsDistinct order
          → ((k : NodeId) → visits k order ≡ true → in_flight (lookup k m) ≡ false)
          → IsFresh new_uuid n w
          → Tracked m w
          → let (m', w', messages, n') = request_all new_uuid make s order n m w in
            Kept new_uuid n m' w' n'
      unfolding request_all visits
      request_all-Tracked [] n m w d idle f t = record {
        tracked = t;
        fresh = f;
        grows = omega arith;
      }
      request_all-Tracked (id ∷ order) n m w d idle f t =
          let r =
            request_all-Tracked order (n + 1) (insert id s m) (insert (new_uuid n) id w) d.1
              (λ k v. ground (arith, lookup-insert id k s m, idle k, ==_iff k id))
              (insert-IsFresh new_uuid distinct n id w f)
              (send-Tracked m w (new_uuid n) id s t (f n (omega arith)) (idle id (ground arith))
                fly) in
          record { tracked = r.tracked; fresh = r.fresh; grows = omega (arith, r.grows) }

  pub lookup-abort_all :
      (order : List NodeId) (n : ℕ) (m : Map ReqState) (w : Map NodeId) (k : NodeId)
      → lookup k (abort_all new_uuid order n m w).0
        ≡ (if visits k order then abort_state (lookup k m) else lookup k m)
  unfolding abort_all visits
  lookup-abort_all [] n m w k = refl
  lookup-abort_all (id ∷ order) n m w k = ground (
    arith,
    lookup-abort_all order (n + 1) (insert id unlocking m) (insert (new_uuid n) id w) k,
    lookup-abort_all order n m w k,
    lookup-insert id k unlocking m,
    ==_iff k id,
  )

  pub abort_all-IsUnique :
      (order : List NodeId) (n : ℕ) (m : Map ReqState) (w : Map NodeId)
      → IsUnique m
      → IsUnique (abort_all new_uuid order n m w).0
  unfolding abort_all
  abort_all-IsUnique [] n m w u = u
  abort_all-IsUnique (id ∷ order) n m w u = ground (
    arith,
    abort_all-IsUnique order (n + 1) (insert id unlocking m) (insert (new_uuid n) id w)
        (insert-IsUnique id unlocking m u),
    abort_all-IsUnique order n m w u,
  )

  abort_all-count-le :
      (order : List NodeId) (n : ℕ) (m : Map ReqState) (w : Map NodeId)
      → (abort_all new_uuid order n m w).4 ≤ length order
  unfolding abort_all
  abort_all-count-le [] n m w = omega arith
  abort_all-count-le (id ∷ order) n m w = ground (
    arith,
    abort_all-count-le order (n + 1) (insert id unlocking m) (insert (new_uuid n) id w),
    abort_all-count-le order n m w,
  )

  -- All that were visited are counted only if all that were visited are unlocked.
  pub abort_all-count :
      (order : List NodeId) (n : ℕ) (m : Map ReqState) (w : Map NodeId) (k : NodeId)
      → length order ≤ (abort_all new_uuid order n m w).4
      → visits k order ≡ true
      → state_or_zero (lookup k m) ≡ unlocked
  unfolding abort_all visits
  abort_all-count [] n m w k h v = cc
  abort_all-count (id ∷ order) n m w k h v = ground (
    arith,
    abort_all-count-le order (n + 1) (insert id unlocking m) (insert (new_uuid n) id w),
    abort_all-count-le order n m w,
    abort_all-count order n m w k,
    ==_iff k id,
  )

  module _ (distinct : IsInjective new_uuid) where
    pub abort_all-Tracked :
        (order : List NodeId) (n : ℕ) (m : Map ReqState) (w : Map NodeId)
        → IsFresh new_uuid n w
        → Tracked m w
        → let r = abort_all new_uuid order n m w in Kept new_uuid n r.0 r.1 r.3
    unfolding abort_all
    abort_all-Tracked [] n m w f t = record { tracked = t; fresh = f; grows = omega arith }
    abort_all-Tracked (id ∷ order) n m w f t =
        go (state_or_zero (lookup id m)) refl
          (λ idle.
            abort_all-Tracked order (n + 1) (insert id unlocking m) (insert (new_uuid n) id w)
              (insert-IsFresh new_uuid distinct n id w f)
              (send-Tracked m w (new_uuid n) id unlocking t (f n (omega arith)) idle refl))
          (abort_all-Tracked order n m w f t)
      where
        go :
            (s : ReqState)
            → state_or_zero (lookup id m) ≡ s
            → (in_flight (lookup id m) ≡ false
                → let r =
                    abort_all new_uuid order
                      (n + 1)
                      (insert id unlocking m)
                      (insert (new_uuid n) id w) in
                  Kept new_uuid (n + 1) r.0 r.1 r.3)
            → (let r = abort_all new_uuid order n m w in Kept new_uuid n r.0 r.1 r.3)
            → (let r = abort_all new_uuid (id ∷ order) n m w in Kept new_uuid n r.0 r.1 r.3)
        go locked e sent kept =
            let k = sent (ground arith) in
            rw (e, abort_all)
              (record { tracked = k.tracked; fresh = k.fresh; grows = omega (arith, k.grows) })
        go unlocked e sent kept = rw (e, abort_all) kept
        go _ e sent kept = rw (e, abort_all) kept
