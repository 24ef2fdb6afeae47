-- ===== src/Waiting/Commands/Nil.antt =====
-- What the extensions are given by a run of nodeLoop, and what commands do to a wait.
use graphvent.Prelude.{
  ℕ, ◌<◌, ◌≡◌, ◌≢◌, refl, ap, ◌∙◌, sym, Bool, true, false, Bool-cases, ◌⊎◌, inl, inr, ◌==◌, List,
  [], ◌∷◌, ◌++◌, map, Option, none, some, ltb, if◌then◌else◌, arith,
}
use mathlib.Core.Option.{none-ne-some}
use graphvent.Signal.{NodeId, Uuid, Signal}
use graphvent.Waiting.{
  taken, listener_closed, wait_for_response, wait_loop, new_listener_ext, listener_process,
  process_all,
}
use graphvent.Waiting.Commands.{
  Command, stop, pause, resume, unknown, Input, command, signal, Waits, at_select, in_pause, ended,
  Output, paused, resumed, give, handle_signal, loop_step, followed, node_loop, processed,
  in_unload, crashed, answer_read, ending, expected, expected_outputs, for_signals,
}

outputs : Option (Waits × List Output) → List Output
outputs none = []
outputs (some r) = r.1

next_wait : Option (Waits × List Output) → Waits
next_wait none = in_pause
next_wait (some r) = r.0

closes :
    (signals : List (Option Signal)) (buffer timeout : ℕ) (req : Uuid)
    → signals ≡ none ∷ []
    → 0 < buffer
    → wait_for_response timeout req (map taken (process_all signals (new_listener_ext buffer)).chan)
      ≡ (listener_closed, [])
unfolding wait_for_response wait_loop process_all listener_process
closes signals buffer timeout req one room =
    ap
      (λ l.
        wait_for_response timeout req (map taken (process_all l (new_listener_ext buffer)).chan))
      one
    ∙ ap
        (λ b. wait_for_response timeout req (
          map taken
            (if b
              then record (new_listener_ext buffer) { chan = none ∷ [] }
              else new_listener_ext buffer).chan))
        (free buffer room)
  where
    free : (b : ℕ) → 0 < b → ltb 0 b ≡ true
    free b h = ground arith

ending-nil : (b : Bool) → processed (ending b).1 ≡ none ∷ []
unfolding processed
ending-nil true = refl
ending-nil false = refl

one_nil :
    (null_id : NodeId) (unloads : Bool) (w : Waits) (c : Command) (w' : Waits) (outs : List Output)
    → loop_step null_id unloads w (command c) ≡ some (w', outs)
    → w' ≢ in_pause
    → processed outs ≡ none ∷ []
unfolding loop_step processed outputs next_wait
one_nil z u at_select stop w' outs e h = ap (λ o. processed (outputs o)) (sym e) ∙ ending-nil u
one_nil z u at_select pause w' outs e h = absurd (h (ap next_wait (sym e)))
one_nil z u at_select resume w' outs e h = ap (λ o. processed (outputs o)) (sym e)
one_nil z u at_select unknown w' outs e h = ap (λ o. processed (outputs o)) (sym e)
one_nil z u in_pause stop w' outs e h = ap (λ o. processed (outputs o)) (sym e) ∙ ending-nil u
one_nil z u in_pause pause w' outs e h = ap (λ o. processed (outputs o)) (sym e)
one_nil z u in_pause resume w' outs e h = ap (λ o. processed (outputs o)) (sym e)
one_nil z u in_pause unknown w' outs e h = ap (λ o. processed (outputs o)) (sym e)
one_nil z u in_unload c w' outs e h = absurd (none-ne-some (w', outs) e)
one_nil z u ended c w' outs e h = absurd (none-ne-some (w', outs) e)
one_nil z u crashed c w' outs e h = absurd (none-ne-some (w', outs) e)

-- Every command that nodeLoop receives, but one that leads into a pause, gives the extensions a nil
-- signal: the channel of a new listener with a buffer gets it, and a wait for any response ends with
-- LISTENER_CLOSED, though the listener is open.
pub command_closes_wait :
    (null_id : NodeId) (unloads : Bool) (w : Waits) (c : Command) (w' : Waits) (outs : List Output)
    (buffer timeout : ℕ) (req : Uuid)
    → loop_step null_id unloads w (command c) ≡ some (w', outs)
    → w' ≢ in_pause
    → 0 < buffer
    → wait_for_response timeout req
        (map taken (process_all (processed outs) (new_listener_ext buffer)).chan)
      ≡ (listener_closed, [])
command_closes_wait null_id unloads w c w' outs buffer timeout req e h room =
    closes (processed outs) buffer timeout req (one_nil null_id unloads w c w' outs e h) room

abbrev Rest : List Output → Option (Waits × List Output) → Waits → List Output → Type 0
Rest out o w' outs = (rest : List Output) × (o ≡ some (w', rest)) × (outs ≡ out ++ rest)

followed-Rest :
    (out : List Output) (o : Option (Waits × List Output)) (w' : Waits) (outs : List Output)
    → followed out o ≡ some (w', outs)
    → Rest out o w' outs
unfolding outputs next_wait
followed-Rest out none w' outs e = absurd (none-ne-some (w', outs) e)
followed-Rest out (some r) w' outs e =
    (r.1, ap (λ w. some (w, r.1)) (ap next_wait e), ap outputs (sym e))

for_signals-expected :
    (source : NodeId) (s : Signal) (outs : List Output)
    → for_signals (expected source s ∷ outs) ≡ expected source s ∷ for_signals outs
for_signals-expected source (Signal.timeout i r) outs = refl
for_signals-expected source (Signal.success i r) outs = refl
for_signals-expected source (Signal.error i r t) outs = refl
for_signals-expected source (Signal.acl_timeout i r) outs = refl
for_signals-expected source (Signal.status i n fs) outs = refl
for_signals-expected source (Signal.link i n a) outs = refl
for_signals-expected source (Signal.lock i) outs = refl
for_signals-expected source (Signal.unlock i) outs = refl
for_signals-expected source (Signal.read i fs) outs = refl
for_signals-expected source (Signal.read_result i r n t fs) outs = refl
for_signals-expected source (Signal.loaded i) outs = refl
for_signals-expected source (Signal.unloaded i) outs = refl

module _ (null_id : NodeId) (unloads : Bool) where
  -- A signal is handled as it is to be, or the program has crashed.
  handled :
      (source : NodeId) (s : Signal)
      → (handle_signal null_id unloads source s ≡ (at_select, expected source s ∷ []))
        ⊎ (handle_signal null_id unloads source s ≡ (crashed, []))
  handled source (Signal.read i fs) = elim (Bool-cases (source == null_id)) [
    | inl zero_source ↦ inr (ap (λ b. if b then (crashed, []) else answered) zero_source)
    | inr other ↦ inl (ap (λ b. if b then (crashed, []) else answered) other)
  ]
    where
      answered : Waits × List Output
      answered = (at_select, answer_read source i ∷ [])
  handled source (Signal.timeout i r) = inl refl
  handled source (Signal.success i r) = inl refl
  handled source (Signal.error i r t) = inl refl
  handled source (Signal.acl_timeout i r) = inl refl
  handled source (Signal.status i n fs) = inl refl
  handled source (Signal.link i n a) = inl refl
  handled source (Signal.lock i) = inl refl
  handled source (Signal.unlock i) = inl refl
  handled source (Signal.read_result i r n t fs) = inl refl
  handled source (Signal.loaded i) = inl refl
  handled source (Signal.unloaded i) = inl refl

  abbrev HandsOn : List Input → Option (Waits × List Output) → Type 0
  HandsOn inputs o =
      (w' : Waits) (outs : List Output)
      → o ≡ some (w', outs)
      → w' ≢ crashed
      → for_signals outs ≡ expected_outputs inputs

  -- Nothing is received any more.
  ending-HandsOn :
      (b : Bool) (inputs : List Input)
      → HandsOn inputs (followed (ending b).1 (node_loop null_id unloads (ending b).0 inputs))
  unfolding node_loop loop_step outputs
  ending-HandsOn true [] w' outs e live = ap (λ o. for_signals (outputs o)) (sym e)
  ending-HandsOn false [] w' outs e live = ap (λ o. for_signals (outputs o)) (sym e)
  ending-HandsOn true (i ∷ inputs) w' outs e live = absurd (none-ne-some (w', outs) e)
  ending-HandsOn false (i ∷ inputs) w' outs e live = absurd (none-ne-some (w', outs) e)

  crashed-HandsOn :
      (inputs inputs' : List Input)
      → HandsOn inputs' (followed [] (node_loop null_id unloads crashed inputs))
  unfolding node_loop loop_step next_wait
  crashed-HandsOn [] inputs' w' outs e live = absurd (live (ap next_wait (sym e)))
  crashed-HandsOn (i ∷ inputs) inputs' w' outs e live = absurd (none-ne-some (w', outs) e)

  -- Outputs that are for no signal, and the rest of the run.
  quiet-HandsOn :
      (out : List Output) (w : Waits) (inputs : List Input)
      → ((rest : List Output) → for_signals (out ++ rest) ≡ for_signals rest)
      → HandsOn inputs (node_loop null_id unloads w inputs)
      → HandsOn inputs (followed out (node_loop null_id unloads w inputs))
  quiet-HandsOn out w inputs quiet later w' outs e live =
      let r : Rest out (node_loop null_id unloads w inputs) w' outs =
        followed-Rest out (node_loop null_id unloads w inputs) w' outs e in
      ap for_signals r.2 ∙ quiet r.0 ∙ later w' r.0 r.1 live

  signal-HandsOn :
      (source : NodeId) (s : Signal) (inputs : List Input)
      → HandsOn inputs (node_loop null_id unloads at_select inputs)
      → HandsOn (signal source s ∷ inputs) (
          followed
            (handle_signal null_id unloads source s).1
            (node_loop null_id unloads (handle_signal null_id unloads source s).0 inputs))
  signal-HandsOn source s inputs later w' outs e live = elim (handled source s) [
    | inl done ↦
        let r : Rest (expected source s ∷ []) (node_loop null_id unloads at_select inputs) w' outs =
          followed-Rest (expected source s ∷ []) (node_loop null_id unloads at_select inputs) w'
            outs (ap (λ h. followed h.1 (node_loop null_id unloads h.0 inputs)) (sym done) ∙ e) in
        ap for_signals r.2
        ∙ for_signals-expected source s r.0
        ∙ ap (◌∷◌ (expected source s)) (later w' r.0 r.1 live)
    | inr over ↦
        crashed-HandsOn inputs (signal source s ∷ inputs) w' outs
          (ap (λ h. followed h.1 (node_loop null_id unloads h.0 inputs)) (sym over) ∙ e) live
  ]

  loop-HandsOn :
      (w : Waits) (inputs : List Input) → HandsOn inputs (node_loop null_id unloads w inputs)
  unfolding node_loop loop_step outputs
  loop-HandsOn w [] = λ w' outs e live. ap (λ o. for_signals (outputs o)) (sym e)
  loop-HandsOn at_select (command stop ∷ inputs) = ending-HandsOn unloads inputs
  loop-HandsOn at_select (command pause ∷ inputs) =
      quiet-HandsOn (paused ∷ []) in_pause inputs (λ r. refl) (loop-HandsOn in_pause inputs)
  loop-HandsOn at_select (command resume ∷ inputs) =
      quiet-HandsOn (give none ∷ []) at_select inputs (λ r. refl) (loop-HandsOn at_select inputs)
  loop-HandsOn at_select (command unknown ∷ inputs) =
      quiet-HandsOn (give none ∷ []) at_select inputs (λ r. refl) (loop-HandsOn at_select inputs)
  loop-HandsOn at_select (signal source s ∷ inputs) =
      signal-HandsOn source s inputs (loop-HandsOn at_select inputs)
  loop-HandsOn in_pause (command stop ∷ inputs) = ending-HandsOn unloads inputs
  loop-HandsOn in_pause (command pause ∷ inputs) =
      quiet-HandsOn (give none ∷ []) at_select inputs (λ r. refl) (loop-HandsOn at_select inputs)
  loop-HandsOn in_pause (command resume ∷ inputs) =
      quiet-HandsOn (resumed ∷ give none ∷ []) at_select inputs (λ r. refl)
        (loop-HandsOn at_select inputs)
  loop-HandsOn in_pause (command unknown ∷ inputs) =
      quiet-HandsOn (give none ∷ []) at_select inputs (λ r. refl) (loop-HandsOn at_select inputs)
  loop-HandsOn in_pause (signal source s ∷ inputs) =
      λ w' outs e live. absurd (none-ne-some (w', outs) e)
  loop-HandsOn in_unload (i ∷ inputs) = λ w' outs e live. absurd (none-ne-some (w', outs) e)
  loop-HandsOn ended (i ∷ inputs) = λ w' outs e live. absurd (none-ne-some (w', outs) e)
  loop-HandsOn crashed (i ∷ inputs) = λ w' outs e live. absurd (none-ne-some (w', outs) e)

-- Whatever commands come between, a run of nodeLoop whose inputs were all received and that did not end
-- in a panic hands on exactly the signals that came in, in their order: a read signal is answered to
-- its source, and any other is given to the extensions.
pub node_loop-signals :
    (null_id : NodeId) (unloads : Bool) (w : Waits) (inputs : List Input) (w' : Waits)
    (outs : List Output)
    → node_loop null_id unloads w inputs ≡ some (w', outs)
    → w' ≢ crashed
    → for_signals outs ≡ expected_outputs inputs
node_loop-signals null_id unloads w inputs w' outs e live =
    loop-HandsOn null_id unloads w inputs w' outs e live
