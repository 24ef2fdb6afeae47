-- ===== src/Waiting/Tests.antt =====
-- A wait for a response, and a listener that overflows.
use mathlib.Core.Bool.{false≢true}
use graphvent.Prelude.{
  refl, none, map, ap, sym, true, Bool, ◌≢◌, some, ◌≡◌, List, [], ◌∷◌, All, false, arith, ◌⊎◌, ◌≤◌,
  ◌<◌, ◌+◌, length,
}
use graphvent.Signal.{Signal, success, loaded, lock, read, unloaded}
use graphvent.Waiting.{
  Event, received, closed, answers, wait_for_response, process_all, ListenerExt, new_listener_ext,
  taken, listener_closed,
}
use graphvent.Waiting.Commands.{
  Waits, ended, Output, answer_read, resume, pause, Input, command, signal, at_select, in_pause,
  give, resumed, paused, processed, loop_step, node_loop, expected_outputs, for_signals, in_unload,
  crashed,
}
use graphvent.Waiting.Commands.Nil.{command_closes_wait, node_loop-signals}
use graphvent.Waiting.Listener.{load_listener, unload_listener, loaded_with, unread_listener-cases}
use graphvent.Waiting.Response.{Ends, wait_for_response-cases}

abbrev some_events : List Event
some_events = received (loaded 1) ∷ received (success 2 9) ∷ received (success 3 7) ∷ closed ∷ []

wait_for_response-cases_example :
    (others : List Signal) × ((wait_for_response 100 7 some_events).1 ≡ others)
    × All (λ s. answers 7 s ≡ false) others
    × Ends (answers 7) some_events others (wait_for_response 100 7 some_events).0
wait_for_response-cases_example = wait_for_response-cases 100 7 some_events (omega arith)

-- A buffer of three is filled by two signals behind the LoadedSignal.
unread_listener-cases_example :
    ((load_listener 1 (new_listener_ext 3) ≡ none) × ((new_listener_ext 3).buffer ≡ 0))
    ⊎ ((load_listener 1 (new_listener_ext 3) ≡ some (loaded_with 1 3 []))
        × (((unload_listener 2 (loaded_with 1 3 (some (lock 5) ∷ some (lock 6) ∷ [])) ≡ none)
              × (3 ≤ 1 + length (some (lock 5) ∷ some (lock 6) ∷ [])))
            ⊎ ((left : ListenerExt) × (unload_listener 2
                    (loaded_with 1 3 (some (lock 5) ∷ some (lock 6) ∷ []))
                  ≡ some left)
                × (left.chan
                    ≡ some (loaded 1) ∷ some (lock 5) ∷ some (lock 6) ∷ some (unloaded 2) ∷ [])
                × (1 + length (some (lock 5) ∷ some (lock 6) ∷ []) < 3))))
unread_listener-cases_example =
    unread_listener-cases 1 2 (new_listener_ext 3) (some (lock 5) ∷ some (lock 6) ∷ [])

is_select : Waits → Bool
is_select at_select = true
is_select in_pause = false
is_select in_unload = false
is_select ended = false
is_select crashed = false

select_not_pause : at_select ≢ in_pause
unfolding is_select
select_not_pause e = false≢true (sym (ap is_select e))

select_not_crashed : at_select ≢ crashed
unfolding is_select
select_not_crashed e = false≢true (sym (ap is_select e))

resumes : loop_step 0 true in_pause (command resume) ≡ some (at_select, resumed ∷ give none ∷ [])
unfolding loop_step
resumes = refl

command_closes_wait_example :
    wait_for_response 100 7
      (map taken (process_all (processed (resumed ∷ give none ∷ [])) (new_listener_ext 4)).chan)
    ≡ (listener_closed, [])
command_closes_wait_example =
    command_closes_wait 0 true in_pause resume at_select (resumed ∷ give none ∷ []) 4 100 7 resumes
      select_not_pause (omega arith)

abbrev some_inputs : List Input
some_inputs =
    signal 3 (lock 5)
    ∷ command pause
    ∷ command resume
    ∷ signal 3 (read 6 [])
    ∷ signal 4 (lock 7)
    ∷ []

abbrev some_outputs : List Output
some_outputs =
    give (some (lock 5))
    ∷ paused
    ∷ resumed
    ∷ give none
    ∷ answer_read 3 6
    ∷ give (some (lock 7))
    ∷ []

some_run : node_loop 0 true at_select some_inputs ≡ some (at_select, some_outputs)
unfolding node_loop loop_step
some_run = refl

node_loop-signals_example : for_signals some_outputs ≡ expected_outputs some_inputs
node_loop-signals_example =
    node_loop-signals 0 true at_select some_inputs at_select some_outputs some_run
      select_not_crashed
