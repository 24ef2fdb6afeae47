-- ===== src/Node/Soonest.antt =====
-- The signal that SoonestSignal chooses.
use graphvent.Prelude.{
  ℕ, zero, suc, ◌≤◌, ◌≡◌, refl, ap, ◌∙◌, ◌⊎◌, inl, inr, Bool, true, false, ◌||◌, List, [], ◌∷◌,
  Option, none, some, get_elem?, All, ltb, if◌then◌else◌, Bool-cases, arith,
}
use graphvent.Node.{
  QueuedSignal, no_timeout, ready, at_time, soonest_loop, soonest_signal, timeout_of,
}

-- The choice among `q` and those behind it, each of which it is as soon as.
abbrev Chosen : QueuedSignal → List QueuedSignal → Option QueuedSignal → Type 0
Chosen q qs o =
    (r : QueuedSignal) × (o ≡ some r)
    × ((i : ℕ) × (get_elem? (q ∷ qs) i ≡ some r))
    × All (λ p. r.time ≤ p.time) (q ∷ qs)

or_false : (b : Bool) → (b || false) ≡ b
or_false true = refl
or_false false = refl

or_true : (b : Bool) → (b || true) ≡ true
or_true true = refl
or_true false = refl

soonest_loop-Chosen :
    (qs : List QueuedSignal) (s : QueuedSignal) → Chosen s qs (soonest_loop qs (some s) s.time)
unfolding soonest_loop
soonest_loop-Chosen [] s = (s, refl, (0, refl), (omega arith, tt))
soonest_loop-Chosen (q ∷ qs) s = elim (Bool-cases (ltb q.time s.time)) [
  | inl sooner ↦
      let c : Chosen q qs (soonest_loop qs (some q) q.time) = soonest_loop-Chosen qs q in
      (
        c.0,
        ap (go qs s q) (or_false (ltb q.time s.time) ∙ sooner) ∙ c.1,
        (suc c.2.0, c.2.1),
        (before s q c.0 sooner c.3.0, c.3),
      )
  | inr later ↦
      let c : Chosen s qs (soonest_loop qs (some s) s.time) = soonest_loop-Chosen qs s in
      (
        c.0,
        ap (go qs s q) (or_false (ltb q.time s.time) ∙ later) ∙ c.1,
        past s q qs c.0 c.2.0 c.2.1,
        (c.3.0, (after s q c.0 later c.3.0, c.3.1)),
      )
]
  where
    go : List QueuedSignal → QueuedSignal → QueuedSignal → Bool → Option QueuedSignal
    go qs s q b =
        let next : Option QueuedSignal × ℕ = if b then (some q, q.time) else (some s, s.time) in
        soonest_loop qs next.0 next.1

    before : (s q r : QueuedSignal) → ltb q.time s.time ≡ true → r.time ≤ q.time → r.time ≤ s.time
    before s q r h le = ground arith

    after : (s q r : QueuedSignal) → ltb q.time s.time ≡ false → r.time ≤ s.time → r.time ≤ q.time
    after s q r h le = ground arith

    past :
        (s q : QueuedSignal) (qs : List QueuedSignal) (r : QueuedSignal) (i : ℕ)
        → get_elem? (s ∷ qs) i ≡ some r
        → (j : ℕ) × (get_elem? (s ∷ q ∷ qs) j ≡ some r)
    past s q qs r zero e = (0, e)
    past s q qs r (suc i) e = (suc (suc i), e)

-- SoonestSignal of an empty queue is nil, with a nil channel. Of another it is a signal of the queue
-- that no other is due before, with a channel that has its time at once if that is not in the future
-- and at that time otherwise.
pub soonest_signal-cases :
    (now : ℕ) (qs : List QueuedSignal)
    → ((qs ≡ []) × (soonest_signal now qs ≡ (none, no_timeout)))
      ⊎ ((r : QueuedSignal) × (soonest_signal now qs
            ≡ (some r, if ltb now r.time then at_time r.time else ready r.time))
          × ((i : ℕ) × (get_elem? qs i ≡ some r))
          × All (λ p. r.time ≤ p.time) qs)
unfolding soonest_signal soonest_loop
soonest_signal-cases now [] = inl (refl, refl)
soonest_signal-cases now (q ∷ qs) =
    let c : Chosen q qs (soonest_loop qs (some q) q.time) = soonest_loop-Chosen qs q in
    inr (
      c.0,
      ap (λ o. (o, timeout_of now o)) (ap (first q qs) (or_true (ltb q.time 0)) ∙ c.1),
      c.2,
      c.3,
    )
  where
    first : QueuedSignal → List QueuedSignal → Bool → Option QueuedSignal
    first q qs b =
        let next : Option QueuedSignal × ℕ = if b then (some q, q.time) else (none, 0) in
        soonest_loop qs next.0 next.1
