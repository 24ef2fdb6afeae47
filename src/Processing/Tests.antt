-- ===== src/Processing/Tests.antt =====
-- A node with two extensions, whose answers go to a node that is there and to one that is not.
use graphvent.Prelude.{
  ℕ, ◌+◌, ◌≡◌, ◌≢◌, ◌⊎◌, refl, ap, Bool, true, false, ◌||◌, map, All, length, arith, List, [], ◌∷◌,
  Option, none, some, String, ◌==◌, if◌then◌else◌,
}
use graphvent.Signal.{NodeId, Signal, Message, success, loaded}
use graphvent.Node.{Node, no_timeout, queue_signal}
use graphvent.Processing.{
  fine, ReverseFields, changed_fields, field_names, queue_changes, Answers, process_extensions,
  send, Processed, deliver, after_send, process_node,
}
use graphvent.Processing.Sending.{Sends, send-Sends, delivered}
use graphvent.Processing.Names.{Names, tag_pairs}
use graphvent.Processing.Changes.{StatusQueued, queue_changes-cases, process_node-sent}

abbrev is_five : NodeId → Bool
is_five id = id == 5

abbrev to_five : Message
to_five = record { node = 5; signal = success 20 9 }

abbrev to_nobody : Message
to_nobody = record { node = 6; signal = success 21 9 }

abbrev idle_node : Node
idle_node = record {
  write_signal_queue = false;
  signal_queue = [];
  next_signal = none;
  timeout_chan = no_timeout;
}

-- The extension of type 1 counts signals in the field "count".
abbrev some_reverse_fields : ReverseFields
some_reverse_fields ext_type = if ext_type == 1 then some (λ tag. some "count") else none

abbrev count_signals : ℕ → NodeId → Signal → Option (ℕ × List Message × List String)
count_signals n source signal = some (n + 1, to_five ∷ to_nobody ∷ [], "n" ∷ [])

send-Sends_example :
    Sends 0 is_five 7
      (to_five ∷ to_nobody ∷ to_five ∷ [])
      (send 0 is_five 7 (to_five ∷ to_nobody ∷ to_five ∷ []))
send-Sends_example = send-Sends 0 is_five 7 (to_five ∷ to_nobody ∷ to_five ∷ [])

queue_changes-cases_example :
    (names : List String) × Names some_reverse_fields (tag_pairs ((1, "n" ∷ []) ∷ [])) names
    × (((names ≡ [])
          × (queue_changes 50 7 30 (some some_reverse_fields) ((1, "n" ∷ []) ∷ []) idle_node
              ≡ (idle_node, fine)))
        ⊎ ((names ≢ [])
            × ((queue_changes 50 7 30 (some some_reverse_fields) ((1, "n" ∷ []) ∷ []) idle_node).1
                ≡ fine)
            × StatusQueued 50 7 30 names idle_node
                (queue_changes 50 7 30
                  (some some_reverse_fields)
                  ((1, "n" ∷ []) ∷ [])
                  idle_node).0))
queue_changes-cases_example =
    queue_changes-cases 50 7 30 some_reverse_fields ((1, "n" ∷ []) ∷ []) idle_node

-- Both nodes are there.
abbrev is_known : NodeId → Bool
is_known id = id == 5 || id == 6

abbrev changed_node : Node
changed_node = (queue_changes 50 7 30 (some some_reverse_fields) ((1, "n" ∷ []) ∷ []) idle_node).0

abbrev two_messages : List Message
two_messages = to_five ∷ to_nobody ∷ []

abbrev all_sent : Processed count_signals
all_sent = record {
  node = changed_node;
  extensions = (1, 4) ∷ [];
  sent = map (delivered 7) two_messages;
  result = fine;
}

processes :
    process_node count_signals is_known 0 50 7 30
      (some some_reverse_fields)
      3
      (loaded 8)
      ((1, 3) ∷ [])
      idle_node
    ≡ some all_sent
unfolding process_node process_extensions send deliver after_send
processes = refl

queue_differs : changed_node ≢ idle_node
unfolding queue_changes changed_fields field_names queue_signal
queue_differs e = omega (arith, ap (λ n. length n.signal_queue) e)

process_node-sent_example :
    (a : Answers ℕ) × (process_extensions count_signals 3 (loaded 8) ((1, 3) ∷ []) ≡ some a)
    × (all_sent.extensions ≡ a.extensions)
    × (all_sent.sent ≡ map (delivered 7) a.messages)
    × All (λ m. ((m.node == 0) ≡ false) × (is_known m.node ≡ true)) a.messages
process_node-sent_example =
    process_node-sent count_signals is_known 0 50 7 30 (some some_reverse_fields) 3 (loaded 8)
      ((1, 3) ∷ []) idle_node all_sent processes queue_differs
