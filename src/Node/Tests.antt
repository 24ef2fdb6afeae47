-- ===== src/Node/Tests.antt =====
-- A queue of three signals, and the theorems applied to it.
use graphvent.Prelude.{
  ℕ, ◌+◌, ◌≤◌, ◌≡◌, ◌≢◌, refl, ◌⊎◌, true, false, List, [], ◌∷◌, none, some, get_elem?, All, ltb,
  if◌then◌else◌, arith,
}
use mathlib.Core.List.{Permᴰ}
use graphvent.Signal.{signal_id, lock, unlock, loaded}
use graphvent.Node.{
  QueuedSignal, no_timeout, ready, at_time, queued_id, soonest_signal, dequeue_signal, reschedule,
  timeouts_fire,
}
use graphvent.Node.Removal.{dequeue_signal-cases}
use graphvent.Node.Soonest.{soonest_signal-cases}
use graphvent.Node.Drain.{HasUniqueIds, IsOrdered, timeouts_fire-Perm}

abbrev some_queue : List QueuedSignal
some_queue =
    record { signal = lock 1; time = 30 }
    ∷ record { signal = unlock 2; time = 10 }
    ∷ record { signal = loaded 3; time = 20 }
    ∷ []

some_queue-HasUniqueIds : HasUniqueIds some_queue
unfolding HasUniqueIds queued_id signal_id
some_queue-HasUniqueIds = (
  (λ e. refl, (λ e. absurd (omega (arith, e)), (λ e. absurd (omega (arith, e)), tt))),
  (
    (λ e. absurd (omega (arith, e)), (λ e. refl, (λ e. absurd (omega (arith, e)), tt))),
    ((λ e. absurd (omega (arith, e)), (λ e. absurd (omega (arith, e)), (λ e. refl, tt))), tt),
  ),
)

timeouts_fire-Perm_example :
    (fired : List QueuedSignal) × (then_at : ℕ) × (timeouts_fire
        (λ n. 100 + n)
        3
        (reschedule 5 some_queue)
      ≡ some (fired, reschedule then_at []))
    × Permᴰ some_queue fired
    × IsOrdered fired
timeouts_fire-Perm_example =
    timeouts_fire-Perm (λ n. 100 + n) 5 3 some_queue refl some_queue-HasUniqueIds

soonest_signal-cases_example :
    ((some_queue ≡ []) × (soonest_signal 15 some_queue ≡ (none, no_timeout)))
    ⊎ ((r : QueuedSignal) × (soonest_signal 15 some_queue
          ≡ (some r, if ltb 15 r.time then at_time r.time else ready r.time))
        × ((i : ℕ) × (get_elem? some_queue i ≡ some r))
        × All (λ p. r.time ≤ p.time) some_queue)
soonest_signal-cases_example = soonest_signal-cases 15 some_queue

dequeue_signal-cases_example :
    ((dequeue_signal 15 2 (reschedule 5 some_queue) ≡ some (false, reschedule 5 some_queue))
      × All (λ q. queued_id q ≢ 2) (reschedule 5 some_queue).signal_queue)
    ⊎ ((q : QueuedSignal) × (left : List QueuedSignal) × (dequeue_signal 15 2
            (reschedule 5 some_queue)
          ≡ some (true, reschedule 15 left))
        × (queued_id q ≡ 2)
        × Permᴰ (reschedule 5 some_queue).signal_queue (q ∷ left))
dequeue_signal-cases_example = dequeue_signal-cases 15 2 (reschedule 5 some_queue)
