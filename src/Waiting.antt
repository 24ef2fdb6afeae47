-- ===== src/Waiting.antt =====
-- signal.go and listener.go: a listener's channel, and the loops that wait for a signal on it.
pub mod Response
pub mod Commands
mod Listener
mod Tests
use graphvent.Prelude.{
  ℕ, Bool, true, false, List, [], ◌∷◌, ◌++◌, Option, none, some, length, ltb, ◌==◌, if◌then◌else◌,
}
use graphvent.Signal.{Uuid, Signal, loaded, unloaded, response_id}

-- What a select on the listener and the timeout's channel receives; a closed channel gives nil.
pub data Event : Type 0 where
  received : Signal → Event
  closed : Event
  timed_out : Event

-- A wait goes on, ends with a signal, or ends with LISTENER_CLOSED or LISTENER_TIMEOUT; beside it
-- the other signals that were received.
pub data Waited : Type 0 where
  waiting : Waited
  got : Signal → Waited
  listener_closed : Waited
  listener_timeout : Waited

-- Is the signal a response to the request?
abbrev pub answers : Uuid → Signal → Bool
unfolding response_id
answers req signal = elim (response_id signal) [ none ↦ false | some id ↦ id == req ]

-- The loop of `WaitForResponse`, with the signals received before; without a timeout (0) its
-- channel is nil and never ready, so such an event is passed over.
unfoldable pub wait_loop : (Signal → Bool) → ℕ → List Signal → List Event → Waited × List Signal
wait_loop wanted timeout signals [] = (waiting, signals)
wait_loop wanted timeout signals (closed ∷ events) = (listener_closed, signals)
wait_loop wanted timeout signals (timed_out ∷ events) =
    let rest = wait_loop wanted timeout signals events in
    if timeout == 0 then rest else (listener_timeout, signals)
wait_loop wanted timeout signals (received signal ∷ events) =
    let rest = wait_loop wanted timeout (signals ++ signal ∷ []) events in
    if wanted signal then (got signal, signals) else rest

unfoldable pub wait_for_response : ℕ → Uuid → List Event → Waited × List Signal
unfolding wait_loop answers
wait_for_response timeout req events = wait_loop (answers req) timeout [] events

-- `WaitForSignal`; `check` is the type assertion and the check.
pub wait_for_signal : ℕ → (Signal → Bool) → List Event → Waited
unfolding wait_loop
wait_for_signal timeout check events = (wait_loop check timeout [] events).0

-- ListenerExt with what stands in its channel, where `none` is a nil Signal.
pub record ListenerExt : Type 0 where
  pub buffer : ℕ
  pub chan : List (Option Signal)

abbrev pub new_listener_ext : ℕ → ListenerExt
new_listener_ext buffer = record { buffer = buffer; chan = [] }

-- `Process`: a signal that the channel has no room for is dropped.
unfoldable pub listener_process : Option Signal → ListenerExt → ListenerExt
listener_process signal ext =
    if ltb (length ext.chan) ext.buffer then record ext { chan = ext.chan ++ signal ∷ [] } else ext

unfoldable pub process_all : List (Option Signal) → ListenerExt → ListenerExt
unfolding listener_process
process_all [] ext = ext
process_all (signal ∷ signals) ext = process_all signals (listener_process signal ext)

-- What a select makes of what it takes from the channel.
abbrev pub taken : Option Signal → Event
taken none = closed
taken (some signal) = received signal
