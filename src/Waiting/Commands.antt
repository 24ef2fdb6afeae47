-- ===== src/Waiting/Commands.antt =====
-- node.go: the control channel of nodeLoop, and what its commands leave in a listener's channel.
pub mod Nil
use graphvent.Prelude.{
  ℕ, zero, suc, ◌+◌, ◌<◌, ◌≤◌, ◌≡◌, ◌≢◌, refl, ap, ◌∙◌, sym, Bool, true, false, List, [], ◌∷◌, ◌++◌,
  map, Option, none, some, ltb, leb, length, if◌then◌else◌, ◌==◌, arith,
}
use mathlib.Core.Option.{none-ne-some}
use graphvent.Signal.{NodeId, Uuid, Signal, read}
use graphvent.Waiting.{
  Event, taken, Waited, listener_closed, wait_for_response, wait_loop, ListenerExt,
  new_listener_ext, listener_process, process_all,
}

-- "stop", "pause", "resume", or a command that nodeLoop does not know.
pub data Command : Type 0 where
  stop : Command
  pause : Command
  resume : Command
  unknown : Command

-- What the select of nodeLoop receives: a command, or a signal with its source, from RecvChan or on
-- a timeout.
pub data Input : Type 0 where
  command : Command → Input
  signal : NodeId → Signal → Input

-- Where nodeLoop waits: at its select, for the command behind a pause, in an Unload that waits
-- forever, or nowhere any more, as it has ended or as a panic has ended the program.
pub data Waits : Type 0 where
  at_select : Waits
  in_pause : Waits
  in_unload : Waits
  ended : Waits
  crashed : Waits

-- What nodeLoop does: a status, a signal given to the extensions, where `none` is nil, or the answer
-- to a read signal, which the extensions do not get: it is given to Send for the source, whose error
-- nodeLoop does not look at.
pub data Output : Type 0 where
  paused : Output
  resumed : Output
  give : Option Signal → Output
  answer_read : NodeId → Uuid → Output
  stopped : Output

-- The end of nodeLoop behind a stop, which the extensions get as a nil signal: each of them is
-- unloaded, which may wait forever, and then the status is sent.
abbrev pub ending : Bool → Waits × List Output
ending true = (ended, give none ∷ stopped ∷ [])
ending false = (in_unload, give none ∷ [])

-- The zero NodeID, to which Send panics, and whether Unload of all extensions returns.
module _ (null_id : NodeId) (unloads : Bool) where
  -- The switch on the signal's type.
  abbrev pub handle_signal : NodeId → Signal → Waits × List Output
  handle_signal source (read id fields) =
      if source == null_id then (crashed, []) else (at_select, answer_read source id ∷ [])
  handle_signal source s = (at_select, give (some s) ∷ [])

  -- One input and what it leads to; `none` is an input that is not received there.
  unfoldable pub loop_step : Waits → Input → Option (Waits × List Output)
  loop_step at_select (command stop) = some (ending unloads)
  loop_step at_select (command pause) = some (in_pause, paused ∷ [])
  loop_step at_select (command resume) = some (at_select, give none ∷ [])
  loop_step at_select (command unknown) = some (at_select, give none ∷ [])
  loop_step at_select (signal source s) = some (handle_signal source s)
  loop_step in_pause (command resume) = some (at_select, resumed ∷ give none ∷ [])
  loop_step in_pause (command stop) = some (ending unloads)
  loop_step in_pause (command pause) = some (at_select, give none ∷ [])
  loop_step in_pause (command unknown) = some (at_select, give none ∷ [])
  loop_step in_pause (signal source s) = none
  loop_step in_unload input = none
  loop_step ended input = none
  loop_step crashed input = none

-- The rest of a run behind one step.
abbrev pub followed : List Output → Option (Waits × List Output) → Option (Waits × List Output)
followed out none = none
followed out (some r) = some (r.0, out ++ r.1)

module _ (null_id : NodeId) (unloads : Bool) where
  unfoldable pub node_loop : Waits → List Input → Option (Waits × List Output)
  unfolding loop_step
  node_loop w [] = some (w, [])
  node_loop w (input ∷ inputs) = elim (loop_step null_id unloads w input) [
    | none ↦ none
    | some r ↦ followed r.1 (node_loop r.0 inputs)
  ]

-- The signals that the extensions are given.
unfoldable pub processed : List Output → List (Option Signal)
processed [] = []
processed (give s ∷ outs) = s ∷ processed outs
processed (o ∷ outs) = processed outs

-- What is to be done with a signal: a read signal is answered to its source, and any other is given to
-- the extensions.
abbrev pub expected : NodeId → Signal → Output
expected source (read id fields) = answer_read source id
expected source s = give (some s)

-- What is to be done with the signals that came in, in their order.
abbrev pub expected_outputs : List Input → List Output
expected_outputs [] = []
expected_outputs (command c ∷ inputs) = expected_outputs inputs
expected_outputs (signal source s ∷ inputs) = expected source s ∷ expected_outputs inputs

-- The outputs but for statuses and nil.
abbrev pub for_signals : List Output → List Output
for_signals [] = []
for_signals (give (some s) ∷ outs) = give (some s) ∷ for_signals outs
for_signals (answer_read source id ∷ outs) = answer_read source id ∷ for_signals outs
for_signals (give none ∷ outs) = for_signals outs
for_signals (paused ∷ outs) = for_signals outs
for_signals (resumed ∷ outs) = for_signals outs
for_signals (stopped ∷ outs) = for_signals outs
