-- ===== src/Waiting/Response.antt =====
-- Which event ends a wait, and what a listener's channel holds.
use graphvent.Prelude.{
  ℕ, zero, suc, ◌+◌, ◌-◌, ◌≤◌, ◌≡◌, ◌≢◌, refl, ap, sym, ◌∙◌, ◌⊎◌, inl, inr, Bool, true, false, List,
  [], ◌∷◌, ◌++◌, Option, map, length, take, All, ltb, ==_ne, if◌then◌else◌, Bool-cases,
  append_assoc, append-nil, length-append, ltb→lt, ◌<◌, arith,
}
use mathlib.Core.Path.{subst}
use graphvent.Signal.{Uuid, Signal}
use graphvent.Waiting.{
  Event, received, closed, timed_out, Waited, waiting, got, listener_closed, listener_timeout,
  answers, wait_loop, wait_for_response, ListenerExt, listener_process, process_all,
}

-- The wait is over with the events that have come, or goes on.
abbrev pub Ends : (Signal → Bool) → List Event → List Signal → Waited → Type 0
Ends wanted events others r =
    ((r ≡ waiting) × (events ≡ map received others))
    ⊎ ((rest : List Event) × (((signal : Signal) × (r ≡ got signal)
            × (wanted signal ≡ true)
            × (events ≡ map received others ++ received signal ∷ rest))
          ⊎ (((r ≡ listener_closed) × (events ≡ map received others ++ closed ∷ rest))
              ⊎ ((r ≡ listener_timeout) × (events ≡ map received others ++ timed_out ∷ rest)))))

abbrev Cases : (Signal → Bool) → List Signal → List Event → Waited × List Signal → Type 0
Cases wanted before events o =
    (others : List Signal) × (o.1 ≡ before ++ others)
    × All (λ s. wanted s ≡ false) others
    × Ends wanted events others o.0

later :
    (wanted : Signal → Bool) (s : Signal) (events : List Event) (others : List Signal) (r : Waited)
    → Ends wanted events others r
    → Ends wanted (received s ∷ events) (s ∷ others) r
later wanted s events others r (inl h) = inl (h.0, ap (◌∷◌ (received s)) h.1)
later wanted s events others r (inr (rest, inl h)) =
    inr (rest, inl (h.0, h.1, h.2, ap (◌∷◌ (received s)) h.3))
later wanted s events others r (inr (rest, inr (inl h))) =
    inr (rest, inr (inl (h.0, ap (◌∷◌ (received s)) h.1)))
later wanted s events others r (inr (rest, inr (inr h))) =
    inr (rest, inr (inr (h.0, ap (◌∷◌ (received s)) h.1)))

wait_loop-Cases :
    (wanted : Signal → Bool) (timeout : ℕ) (before : List Signal) (events : List Event)
    → timeout ≢ 0
    → Cases wanted before events (wait_loop wanted timeout before events)
unfolding wait_loop
wait_loop-Cases wanted timeout before [] timed = ([], sym (append-nil before), tt, inl (refl, refl))
wait_loop-Cases wanted timeout before (closed ∷ events) timed =
    ([], sym (append-nil before), tt, inr (events, inr (inl (refl, refl))))
wait_loop-Cases wanted timeout before (timed_out ∷ events) timed =
    subst (Cases wanted before (timed_out ∷ events))
      (sym (
        ap (λ b. if b then wait_loop wanted timeout before events else (listener_timeout, before))
          (==_ne timeout 0 timed)))
      ([], sym (append-nil before), tt, inr (events, inr (inr (refl, refl))))
wait_loop-Cases wanted timeout before (received s ∷ events) timed =
    let rest : Waited × List Signal = wait_loop wanted timeout (before ++ s ∷ []) events in
    elim (Bool-cases (wanted s)) [
      | inl yes_it ↦
          subst (Cases wanted before (received s ∷ events))
            (sym (ap (λ b. if b then (got s, before) else rest) yes_it))
            ([], sym (append-nil before), tt, inr (events, inl (s, refl, yes_it, refl)))
      | inr other ↦
          let c : Cases wanted (before ++ s ∷ []) events rest =
            wait_loop-Cases wanted timeout (before ++ s ∷ []) events timed in
          subst (Cases wanted before (received s ∷ events))
            (sym (ap (λ b. if b then (got s, before) else rest) other))
            (
              s ∷ c.0,
              c.1 ∙ append_assoc before (s ∷ []) c.0,
              (other, c.2),
              later wanted s events c.0 rest.0 c.3,
            )
    ]

-- A wait with a timeout for the response to a request returns every signal received before its end
-- in the order they came, none of which answers the request; it ends with the first signal that does, or
-- with the close of the listener or the timeout if that comes first, and goes on if none has come.
pub wait_for_response-cases :
    (timeout : ℕ) (req : Uuid) (events : List Event)
    → timeout ≢ 0
    → (others : List Signal) × ((wait_for_response timeout req events).1 ≡ others)
      × All (λ s. answers req s ≡ false) others
      × Ends (answers req) events others (wait_for_response timeout req events).0
unfolding wait_for_response
wait_for_response-cases timeout req events timed =
    wait_loop-Cases (answers req) timeout [] events timed

take_nothing : (n : ℕ) → take {A = Option Signal} n [] ≡ []
take_nothing zero = refl
take_nothing (suc n) = refl

one_more : (m n : ℕ) → n ≡ m + 1 → suc m ≡ n
one_more m n e = omega arith

no_room : (m n : ℕ) → ltb m n ≡ false → 0 ≡ n - m
no_room m n h = ground arith

-- A listener whose channel is read by no one keeps the first signals that it has room for, behind
-- those that were there, in the order they came; the others are dropped.
pub process_all-keeps :
    (signals : List (Option Signal)) (ext : ListenerExt)
    → length ext.chan ≤ ext.buffer
    → (process_all signals ext).chan ≡ ext.chan ++ take (ext.buffer - length ext.chan) signals
unfolding process_all listener_process
process_all-keeps [] ext fits =
    sym (ap (◌++◌ ext.chan) (take_nothing (ext.buffer - length ext.chan)) ∙ append-nil ext.chan)
process_all-keeps (s ∷ signals) ext fits =
    let longer : List (Option Signal) = ext.chan ++ s ∷ [] in
    let grown : length longer ≡ length ext.chan + 1 = length-append ext.chan (s ∷ []) in
    elim (Bool-cases (ltb (length ext.chan) ext.buffer)) [
      | inl free ↦
          let less : length ext.chan < ext.buffer = ltb→lt (length ext.chan) ext.buffer free in
          ap (λ b. (process_all signals (if b then record ext { chan = longer } else ext)).chan)
            free
          ∙ process_all-keeps signals (record ext { chan = longer }) (omega arith)
          ∙ append_assoc ext.chan (s ∷ []) (take (ext.buffer - length longer) signals)
          ∙ ap (λ n. ext.chan ++ take n (s ∷ signals))
              (one_more (ext.buffer - length longer) (ext.buffer - length ext.chan) (omega arith))
      | inr full ↦
          let none_left : 0 ≡ ext.buffer - length ext.chan =
            no_room (length ext.chan) ext.buffer full in
          ap (λ b. (process_all signals (if b then record ext { chan = longer } else ext)).chan)
            full
          ∙ process_all-keeps signals ext fits
          ∙ ap (λ n. ext.chan ++ take n signals) (sym none_left)
          ∙ ap (λ n. ext.chan ++ take n (s ∷ signals)) none_left
    ]
