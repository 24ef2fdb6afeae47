-- ===== src/MessageQueue/Tests.antt =====
-- Runs of the queue of message.go, and its theorems at concrete queues.
use graphvent.Prelude.{ℕ, ◌≡◌, refl, List, [], ◌∷◌, ◌++◌, some, none, arith}
use graphvent.MessageQueue.{
  MessageQueue, Event, incoming, outgoing, store, grow, process_incoming, new_message_queue,
  offered, sent, perform, round, pump,
}
use graphvent.MessageQueue.Fifo
use graphvent.MessageQueue.Inv.{IsValid}
use graphvent.MessageQueue.Refine.{contents, process_incoming_refines, pump_refines, pump_fifo}

-- 8, then 9, round the end of a buffer of three: the next message makes it grow.
abbrev wrapped : MessageQueue ℕ
wrapped = record { buffer = 9 ∷ 7 ∷ 8 ∷ []; write_cursor = 1; read_cursor = 2 }

abbrev script : List (Event ℕ)
script =
    incoming 1 ∷ incoming 2 ∷ outgoing ∷ outgoing ∷ incoming 3 ∷ outgoing ∷ outgoing ∷ outgoing ∷ []

wrapped-IsValid : IsValid wrapped
wrapped-IsValid = omega arith

grows :
    process_incoming 0 5 wrapped
    ≡ some (record { buffer = 8 ∷ 9 ∷ 5 ∷ 0 ∷ 0 ∷ 0 ∷ []; write_cursor = 3; read_cursor = 0 })
unfolding process_incoming grow store
grows = refl

-- A queue made with no slot panics on its first message.
no_slot : pump {A = ℕ} 0 (new_message_queue 0 0) (incoming 1 ∷ []) ≡ none
unfolding pump round perform offered process_incoming grow store new_message_queue
no_slot = refl

delivers :
    pump 0 wrapped script
    ≡ some (
      8 ∷ 9 ∷ 1 ∷ 2 ∷ 3 ∷ [],
      record { buffer = 8 ∷ 9 ∷ 1 ∷ 2 ∷ 3 ∷ 0 ∷ []; write_cursor = 5; read_cursor = 5 },
    )
unfolding pump round perform offered process_incoming grow store sent
delivers = refl

process_incoming_refines_example :
    (q' : MessageQueue ℕ) × (process_incoming 0 5 wrapped ≡ some q')
    × IsValid q'
    × (contents q' ≡ contents wrapped ++ 5 ∷ [])
process_incoming_refines_example = process_incoming_refines 0 5 wrapped-IsValid

pump_refines_example :
    (out : List ℕ) × (q' : MessageQueue ℕ) × (pump 0 wrapped script ≡ some (out, q'))
    × IsValid q'
    × ((out, contents q') ≡ Fifo.run (contents wrapped) script)
pump_refines_example = pump_refines 0 script wrapped-IsValid

pump_fifo_example :
    (out : List ℕ) × (q : MessageQueue ℕ) × (pump 0 (new_message_queue 0 2) script ≡ some (out, q))
    × (out ++ contents q ≡ Fifo.sends script)
pump_fifo_example = pump_fifo 0 2 script (omega arith)
