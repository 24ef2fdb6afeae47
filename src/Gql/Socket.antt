-- ===== src/Gql/Socket.antt =====
-- gql.go: a websocket connection of GQLWSHandler, with the goroutine of every subscribe message.
pub mod Answers
pub mod Requests
mod Tests
use graphvent.Prelude.{
  ℕ, zero, Bool, true, false, ◌&&◌, ◌||◌, List, [], ◌∷◌, ◌++◌, Option, none, some, ◌==◌, suc,
  if◌then◌else◌,
}

-- A GQLPayload; names, queries and variables are numbers, and 0 is the empty name.
pub record Payload : Type 0 where
  pub operation_name : ℕ
  pub query : ℕ
  pub variables : ℕ

pub record Request : Type 0 where
  pub id : ℕ
  pub payload : Payload

-- A GQLWSMsg by its type. For connection_init: whether the parameters can be read from the message.
pub data ClientMessage : Type 0 where
  connection_init : Bool → ClientMessage
  ping : ClientMessage
  subscribe : Request → ClientMessage
  unknown : ClientMessage

pub data ConnState : Type 0 where
  init ready : ConnState

-- What the handler itself writes.
pub data Control : Type 0 where
  connection_ack pong : Control

-- What a goroutine takes from its channel of results.
pub data Received : Type 0 where
  closed nil_result errors : Received
  answer : ℕ → Received

pub data OperationType : Type 0 where
  query mutation subscription : OperationType

-- A definition of a parsed request.
pub data Definition : Type 0 where
  operation : Option ℕ → OperationType → Definition
  fragment : Definition

-- The GraphQL library: `parser.Parse`, which may fail, and `graphql.Do`.
pub record Library : Type 0 where
  pub parse : ℕ → Option (List Definition)
  pub do_query : Payload → Received

-- The goroutine of a subscribe message. `pending` is what `sendOneResultAndClose` has still to send,
-- and none for a channel of `graphql.Subscribe`; `written` are the data of its messages.
pub record Stream : Type 0 where
  pub request : Request
  pub pending : Option (List Received)
  pub running : Bool
  pub written : List ℕ

pub record Socket : Type 0 where
  pub state : ConnState
  pub connected : Bool
  pub control : List Control
  pub streams : List Stream

abbrev pub new_socket : Socket
new_socket = record { state = init; connected = true; control = []; streams = [] }

abbrev pub close : Socket → Socket
close s = record { state = s.state; connected = false; control = s.control; streams = s.streams }

abbrev pub with_streams : List Stream → Socket → Socket
with_streams streams s = record {
  state = s.state;
  connected = s.connected;
  control = s.control;
  streams = streams;
}

abbrev name_of : Option ℕ → ℕ
name_of none = 0
name_of (some name) = name

-- The loop of `getOperationTypeOfReq` over the definitions; the texts that are not the type of an
-- operation are none.
unfoldable pub find_operation : ℕ → List Definition → Option OperationType
find_operation wanted [] = none
find_operation wanted (fragment ∷ ds) = find_operation wanted ds
find_operation wanted (operation name type ∷ ds) =
    let rest = find_operation wanted ds in
    if (name_of name == wanted) || (wanted == 0) then some type else rest

abbrev type_in : ℕ → Option (List Definition) → Option OperationType
type_in wanted none = none
type_in wanted (some ds) = find_operation wanted ds

-- `getOperationTypeOfReq`
abbrev pub operation_type : Library → Payload → Option OperationType
operation_type lib p = type_in p.operation_name (lib.parse p.query)

abbrev pub results_for : Library → Payload → Option OperationType → Option (List Received)
results_for lib p (some subscription) = none
results_for lib p type = some (lib.do_query p ∷ [])

abbrev pub start_stream : Library → Request → Stream
start_stream lib r = record {
  request = r;
  pending = results_for lib r.payload (operation_type lib r.payload);
  running = true;
  written = [];
}

-- A receive, where `offered` is what a channel of the library gives.
abbrev pub receive : Option (List Received) → Received → Received × Option (List Received)
receive none offered = (offered, none)
receive (some []) offered = (closed, some [])
receive (some (r ∷ rs)) offered = (r, some rs)

abbrev pub took : Bool → List ℕ → Option (List Received) → Stream → Stream
took running written pending s = record {
  request = s.request;
  pending = pending;
  running = running;
  written = written;
}

-- The body of a goroutine's loop; `sent` is whether the data could be encoded and written.
abbrev pub forward_result : Bool → Received × Option (List Received) → Stream → Stream
forward_result sent (closed, pending) s = took false s.written pending s
forward_result sent (nil_result, pending) s = took false s.written pending s
forward_result sent (errors, pending) s = took true s.written pending s
forward_result true (answer d, pending) s = took true (s.written ++ d ∷ []) pending s
forward_result false (answer d, pending) s = took true s.written pending s

abbrev pub forward_next : Bool → Received → Stream → Stream
forward_next sent offered s =
    if s.running then forward_result sent (receive s.pending offered) s else s

-- The goroutine of a number goes on.
unfoldable pub forward_at : ℕ → Bool → Received → List Stream → List Stream
forward_at i sent offered [] = []
forward_at zero sent offered (s ∷ ss) = forward_next sent offered s ∷ ss
forward_at (suc i) sent offered (s ∷ ss) = s ∷ forward_at i sent offered ss

-- `WriteServerMessage`, which ends the loop if it fails.
abbrev pub write_control : Bool → Control → ConnState → Socket → Socket
write_control true c state s = record {
  state = state;
  connected = s.connected;
  control = s.control ++ c ∷ [];
  streams = s.streams;
}
write_control false c state s = record {
  state = state;
  connected = false;
  control = s.control;
  streams = s.streams;
}

abbrev pub acknowledge : ConnState → Bool → Bool → Socket → Socket
acknowledge ready readable written s = close s
acknowledge init false written s = close s
acknowledge init true written s = write_control written connection_ack ready s

-- The body of the handler's loop for a message.
abbrev pub handle : Library → ClientMessage → Bool → Socket → Socket
handle lib (connection_init readable) written s = acknowledge s.state readable written s
handle lib ping written s = write_control written pong s.state s
handle lib (subscribe r) written s = with_streams (s.streams ++ start_stream lib r ∷ []) s
handle lib unknown written s = s

-- A read that fails, a message that is read, with whether the answer can be written, or a step of a
-- goroutine, with what its channel offers and whether the data can be encoded and written.
pub data SocketEvent : Type 0 where
  read_fails : SocketEvent
  read : ClientMessage → Bool → SocketEvent
  result : ℕ → Received → Bool → SocketEvent

-- The handler reads no more when the connection is closed, and writing to it fails.
abbrev pub step : Library → SocketEvent → Socket → Socket
step lib read_fails s = close s
step lib (read m written) s = if s.connected then handle lib m written s else s
step lib (result i offered sent) s =
    with_streams (forward_at i (sent && s.connected) offered s.streams) s

unfoldable pub run_socket : Library → List SocketEvent → Socket → Socket
unfolding find_operation forward_at
run_socket lib [] s = s
run_socket lib (e ∷ es) s = run_socket lib es (step lib e s)
