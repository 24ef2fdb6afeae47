-- ===== src/Gql/Socket/Answers.antt =====
-- What a connection answers.
use mathlib.Core.Path.{subst}
use graphvent.Prelude.{
  ℕ, zero, suc, ◌+◌, ◌≤◌, ◌≡◌, refl, sym, ap, ◌∙◌, Bool, true, false, ◌&&◌, List, [], ◌∷◌, ◌++◌,
  Option, none, some, ◌⊎◌, inl, inr, All, All-append, if◌then◌else◌, arith,
}
use graphvent.Gql.Socket.{
  Request, ClientMessage, connection_init, ping, subscribe, unknown, ConnState, init, ready,
  Control, connection_ack, pong, Received, closed, nil_result, errors, OperationType, query,
  mutation, subscription, Library, Stream, Socket, operation_type, start_stream, results_for,
  receive, answer, forward_result, forward_next, forward_at, write_control, acknowledge, handle,
  SocketEvent, read_fails, read, result, step, run_socket,
}

unfoldable pub acks : List Control → ℕ
acks [] = 0
acks (connection_ack ∷ cs) = suc (acks cs)
acks (pong ∷ cs) = acks cs

acks-append : (cs ds : List Control) → acks (cs ++ ds) ≡ acks cs + acks ds
unfolding acks
acks-append [] ds = omega arith
acks-append (connection_ack ∷ cs) ds = omega (arith, acks-append cs ds)
acks-append (pong ∷ cs) ds = acks-append cs ds

abbrev pub allowed : ConnState → ℕ
allowed init = 0
allowed ready = 1

abbrev pub AcksOnce : Socket → Type 0
AcksOnce s = acks s.control ≤ allowed s.state

pub allowed-bound : (state : ConnState) → allowed state ≤ 1
allowed-bound init = omega arith
allowed-bound ready = omega arith

write_control-AcksOnce :
    (written : Bool) (c : Control) (state : ConnState) (s : Socket)
    → acks s.control + acks (c ∷ []) ≤ allowed state
    → AcksOnce (write_control written c state s)
write_control-AcksOnce true c state s h = omega (arith, acks-append s.control (c ∷ []))
write_control-AcksOnce false c state s h = omega arith

acknowledge-AcksOnce :
    (state : ConnState) (readable written : Bool) (s : Socket)
    → acks s.control ≤ allowed state
    → s.state ≡ state
    → AcksOnce s
    → AcksOnce (acknowledge state readable written s)
unfolding acks
acknowledge-AcksOnce ready readable written s h same old = old
acknowledge-AcksOnce init false written s h same old = old
acknowledge-AcksOnce init true written s h same old =
    write_control-AcksOnce written connection_ack ready s (omega arith)

handle-AcksOnce :
    (lib : Library) (m : ClientMessage) (written : Bool) (s : Socket)
    → AcksOnce s
    → AcksOnce (handle lib m written s)
unfolding acks
handle-AcksOnce lib (connection_init readable) written s h =
    acknowledge-AcksOnce s.state readable written s h refl h
handle-AcksOnce lib ping written s h = write_control-AcksOnce written pong s.state s (omega arith)
handle-AcksOnce lib (subscribe r) written s h = h
handle-AcksOnce lib unknown written s h = h

step-AcksOnce :
    (lib : Library) (e : SocketEvent) (s : Socket) → AcksOnce s → AcksOnce (step lib e s)
step-AcksOnce lib read_fails s h = h
step-AcksOnce lib (read m written) s h = by_open s.connected
  where
    by_open : (b : Bool) → AcksOnce (if b then handle lib m written s else s)
    by_open true = handle-AcksOnce lib m written s h
    by_open false = h
step-AcksOnce lib (result i offered sent) s h = h

abbrev pub result_data : Received → List ℕ
result_data (answer d) = d ∷ []
result_data r = []

-- A goroutine has written nothing, or what the request's one result holds; or the request is a
-- subscription.
abbrev pub Answers : Library → Stream → Type 0
Answers lib s =
    (s.written ≡ [])
    ⊎ ((s.written ≡ result_data (lib.do_query s.request.payload))
        ⊎ (operation_type lib s.request.payload ≡ some subscription))

abbrev pub Awaits : Library → Stream → Option (List Received) → Type 0
Awaits lib s none = operation_type lib s.request.payload ≡ some subscription
Awaits lib s (some []) =
    (s.written ≡ []) ⊎ (s.written ≡ result_data (lib.do_query s.request.payload))
Awaits lib s (some (r ∷ rs)) = (s.written ≡ []) × (r ≡ lib.do_query s.request.payload) × (rs ≡ [])

abbrev pub IsAnswering : Library → Stream → Type 0
IsAnswering lib s = Awaits lib s s.pending

pub IsAnswering-Answers : (lib : Library) (s : Stream) → IsAnswering lib s → Answers lib s
IsAnswering-Answers lib s h = by_pending s.pending h
  where
    by_pending : (p : Option (List Received)) → Awaits lib s p → Answers lib s
    by_pending none e = inr (inr e)
    by_pending (some []) (inl e) = inl e
    by_pending (some []) (inr e) = inr (inl e)
    by_pending (some (r ∷ rs)) e = inl e.0

start_stream-IsAnswering : (lib : Library) (r : Request) → IsAnswering lib (start_stream lib r)
start_stream-IsAnswering lib r = by_type (operation_type lib r.payload) refl
  where
    by_type :
        (type : Option OperationType)
        → operation_type lib r.payload ≡ type
        → Awaits lib (start_stream lib r) (results_for lib r.payload type)
    by_type (some subscription) e = e
    by_type (some query) e = (refl, refl, refl)
    by_type (some mutation) e = (refl, refl, refl)
    by_type none e = (refl, refl, refl)

any-IsAnswering :
    (lib : Library) (sent : Bool) (offered : Received) (s : Stream)
    → operation_type lib s.request.payload ≡ some subscription
    → IsAnswering lib (forward_result sent (offered, none) s)
any-IsAnswering lib sent closed s e = e
any-IsAnswering lib sent nil_result s e = e
any-IsAnswering lib sent errors s e = e
any-IsAnswering lib true (answer d) s e = e
any-IsAnswering lib false (answer d) s e = e

last-IsAnswering :
    (lib : Library) (sent : Bool) (r : Received) (s : Stream)
    → s.written ≡ []
    → r ≡ lib.do_query s.request.payload
    → IsAnswering lib (forward_result sent (r, some []) s)
last-IsAnswering lib sent closed s none_yet one = inl none_yet
last-IsAnswering lib sent nil_result s none_yet one = inl none_yet
last-IsAnswering lib sent errors s none_yet one = inl none_yet
last-IsAnswering lib true (answer d) s none_yet one =
    inr (ap (λ l. l ++ d ∷ []) none_yet ∙ ap result_data one)
last-IsAnswering lib false (answer d) s none_yet one = inl none_yet

forward_result-IsAnswering :
    (lib : Library) (sent : Bool) (offered : Received) (s : Stream) (p : Option (List Received))
    → Awaits lib s p
    → IsAnswering lib (forward_result sent (receive p offered) s)
forward_result-IsAnswering lib sent offered s none h = any-IsAnswering lib sent offered s h
forward_result-IsAnswering lib sent offered s (some []) h = h
forward_result-IsAnswering lib sent offered s (some (r ∷ rs)) h =
    subst (λ l. IsAnswering lib (forward_result sent (r, some l) s)) (sym h.2)
      (last-IsAnswering lib sent r s h.0 h.1)

forward_next-IsAnswering :
    (lib : Library) (sent : Bool) (offered : Received) (s : Stream)
    → IsAnswering lib s
    → IsAnswering lib (forward_next sent offered s)
forward_next-IsAnswering lib sent offered s h = by_running s.running
  where
    by_running :
        (b : Bool)
        → IsAnswering lib (if b then forward_result sent (receive s.pending offered) s else s)
    by_running true = forward_result-IsAnswering lib sent offered s s.pending h
    by_running false = h

forward_at-IsAnswering :
    (lib : Library) (i : ℕ) (sent : Bool) (offered : Received) (ss : List Stream)
    → All (IsAnswering lib) ss
    → All (IsAnswering lib) (forward_at i sent offered ss)
unfolding forward_at
forward_at-IsAnswering lib i sent offered [] h = h
forward_at-IsAnswering lib zero sent offered (s ∷ ss) h =
    (forward_next-IsAnswering lib sent offered s h.0, h.1)
forward_at-IsAnswering lib (suc i) sent offered (s ∷ ss) h =
    (h.0, forward_at-IsAnswering lib i sent offered ss h.1)

abbrev pub AllAnswering : Library → Socket → Type 0
AllAnswering lib s = All (IsAnswering lib) s.streams

write_control-AllAnswering :
    (lib : Library) (written : Bool) (c : Control) (state : ConnState) (s : Socket)
    → AllAnswering lib s
    → AllAnswering lib (write_control written c state s)
write_control-AllAnswering lib true c state s h = h
write_control-AllAnswering lib false c state s h = h

acknowledge-AllAnswering :
    (lib : Library) (state : ConnState) (readable written : Bool) (s : Socket)
    → AllAnswering lib s
    → AllAnswering lib (acknowledge state readable written s)
acknowledge-AllAnswering lib ready readable written s h = h
acknowledge-AllAnswering lib init false written s h = h
acknowledge-AllAnswering lib init true written s h =
    write_control-AllAnswering lib written connection_ack ready s h

step-AllAnswering :
    (lib : Library) (e : SocketEvent) (s : Socket)
    → AllAnswering lib s
    → AllAnswering lib (step lib e s)
step-AllAnswering lib read_fails s h = h
step-AllAnswering lib (read m written) s h = by_open s.connected
  where
    handled : (m : ClientMessage) → AllAnswering lib (handle lib m written s)
    handled (connection_init readable) = acknowledge-AllAnswering lib s.state readable written s h
    handled ping = write_control-AllAnswering lib written pong s.state s h
    handled (subscribe r) =
        All-append (IsAnswering lib) s.streams (start_stream lib r ∷ []) h
          (start_stream-IsAnswering lib r, tt)
    handled unknown = h

    by_open : (b : Bool) → AllAnswering lib (if b then handle lib m written s else s)
    by_open true = handled m
    by_open false = h
step-AllAnswering lib (result i offered sent) s h =
    forward_at-IsAnswering lib i (sent && s.connected) offered s.streams h

pub run_socket-IsAnswering :
    (lib : Library) (es : List SocketEvent) (s : Socket)
    → AcksOnce s
    → AllAnswering lib s
    → AcksOnce (run_socket lib es s) × AllAnswering lib (run_socket lib es s)
unfolding run_socket
run_socket-IsAnswering lib [] s once h = (once, h)
run_socket-IsAnswering lib (e ∷ es) s once h =
    run_socket-IsAnswering lib es (step lib e s) (step-AcksOnce lib e s once)
      (step-AllAnswering lib e s h)
