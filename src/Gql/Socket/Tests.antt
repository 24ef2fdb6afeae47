-- ===== src/Gql/Socket/Tests.antt =====
-- The theorem on a connection applied to some events.
use graphvent.Prelude.{
  ℕ, zero, suc, ◌≤◌, ◌≡◌, refl, true, List, [], ◌∷◌, map, Option, none, some, All,
}
use graphvent.Gql.Socket.{
  Request, connection_init, ping, subscribe, connection_ack, pong, answer, closed, Definition,
  operation, query, subscription, Library, find_operation, forward_at, new_socket, SocketEvent,
  read, result, run_socket,
}
use graphvent.Gql.Socket.Answers.{acks, Answers}
use graphvent.Gql.Socket.Requests.{Takes, subscribes, run_socket-Answers}

abbrev some_definitions : ℕ → Option (List Definition)
some_definitions zero = some (operation none query ∷ [])
some_definitions (suc n) = some (operation (some 4) subscription ∷ [])

-- The query 0 has the result 50; the others are subscriptions.
abbrev some_library : Library
some_library = record { parse = some_definitions; do_query = λ p. answer 50 }

abbrev request : ℕ → ℕ → Request
request id q = record { id = id; payload = record { operation_name = 0; query = q; variables = 0 } }

-- The second connection_init ends the connection, and what comes behind it is not read.
abbrev some_events : List SocketEvent
some_events =
    read (connection_init true) true
    ∷ read (subscribe (request 7 0)) true
    ∷ read (subscribe (request 8 1)) true
    ∷ result 1 (answer 60) true
    ∷ result 0 closed true
    ∷ read ping true
    ∷ result 1 (answer 61) true
    ∷ result 0 closed true
    ∷ read (connection_init true) true
    ∷ result 1 (answer 62) true
    ∷ read (subscribe (request 9 0)) true
    ∷ []

events_written :
    map (λ s. s.written) (run_socket some_library some_events new_socket).streams
    ≡ (50 ∷ []) ∷ (60 ∷ 61 ∷ []) ∷ []
unfolding run_socket find_operation forward_at
events_written = refl

events_control :
    (run_socket some_library some_events new_socket).control ≡ connection_ack ∷ pong ∷ []
unfolding run_socket find_operation forward_at
events_control = refl

run_socket-Answers_example :
    (acks (run_socket some_library some_events new_socket).control ≤ 1)
    × Takes [] (subscribes some_events) (run_socket some_library some_events new_socket)
    × All (Answers some_library) (run_socket some_library some_events new_socket).streams
run_socket-Answers_example = run_socket-Answers some_library some_events
