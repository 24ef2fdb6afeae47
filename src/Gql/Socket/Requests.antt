-- ===== src/Gql/Socket/Requests.antt =====
-- Which subscribe messages a connection answers, and how.
use mathlib.Core.Path.{subst}
use graphvent.Prelude.{
  ℕ, zero, suc, ◌≤◌, ◌≡◌, refl, sym, ap, ◌∙◌, Bool, true, false, ◌&&◌, List, [], ◌∷◌, ◌++◌, map,
  append_assoc, append-nil, Option, ◌⊎◌, inl, inr, All, All-mono, if◌then◌else◌, arith,
}
use graphvent.Gql.Socket.{
  Request, ClientMessage, connection_init, ping, subscribe, unknown, ConnState, init, ready,
  Control, connection_ack, pong, Received, closed, nil_result, errors, answer, Library, Stream,
  Socket, new_socket, start_stream, receive, forward_result, forward_next, forward_at,
  write_control, acknowledge, handle, SocketEvent, read_fails, read, result, step, run_socket,
}
use graphvent.Gql.Socket.Answers.{
  acks, allowed-bound, IsAnswering, IsAnswering-Answers, Answers, run_socket-IsAnswering,
}

-- The requests that the goroutines were started for.
abbrev pub requests : List Stream → List Request
requests streams = map (λ s. s.request) streams

-- The subscribe messages among the events.
unfoldable pub subscribes : List SocketEvent → List Request
subscribes [] = []
subscribes (read (subscribe r) written ∷ es) = r ∷ subscribes es
subscribes (read (connection_init readable) written ∷ es) = subscribes es
subscribes (read ping written ∷ es) = subscribes es
subscribes (read unknown written ∷ es) = subscribes es
subscribes (read_fails ∷ es) = subscribes es
subscribes (result i offered sent ∷ es) = subscribes es

forward_result-request :
    (sent : Bool) (r : Received) (p : Option (List Received)) (s : Stream)
    → (forward_result sent (r, p) s).request ≡ s.request
forward_result-request sent closed p s = refl
forward_result-request sent nil_result p s = refl
forward_result-request sent errors p s = refl
forward_result-request true (answer d) p s = refl
forward_result-request false (answer d) p s = refl

forward_next-request :
    (sent : Bool) (offered : Received) (s : Stream)
    → (forward_next sent offered s).request ≡ s.request
forward_next-request sent offered s = by_running s.running
  where
    by_running :
        (b : Bool)
        → (if b then forward_result sent (receive s.pending offered) s else s).request ≡ s.request
    by_running true =
        forward_result-request sent (receive s.pending offered).0 (receive s.pending offered).1 s
    by_running false = refl

requests-forward_at :
    (i : ℕ) (sent : Bool) (offered : Received) (ss : List Stream)
    → requests (forward_at i sent offered ss) ≡ requests ss
unfolding forward_at
requests-forward_at i sent offered [] = refl
requests-forward_at zero sent offered (s ∷ ss) =
    ap (λ r. r ∷ requests ss) (forward_next-request sent offered s)
requests-forward_at (suc i) sent offered (s ∷ ss) =
    ap (λ rs. s.request ∷ rs) (requests-forward_at i sent offered ss)

requests-append :
    (ss : List Stream) (s : Stream) → requests (ss ++ s ∷ []) ≡ requests ss ++ s.request ∷ []
requests-append [] s = refl
requests-append (t ∷ ss) s = ap (λ rs. t.request ∷ rs) (requests-append ss s)

-- What a connection takes of the subscribe messages that come, behind those that it has, while it is
-- not closed.
abbrev pub Takes : List Request → List Request → Socket → Type 0
Takes before asked s =
    (taken : List Request) × (rest : List Request) × (requests s.streams ≡ before ++ taken)
    × (asked ≡ taken ++ rest)
    × ((s.connected ≡ false) ⊎ (rest ≡ []))

module _ (lib : Library) where
  -- A closed connection takes none.
  closed-Takes :
      (es : List SocketEvent) (s : Socket)
      → s.connected ≡ false
      → (requests (run_socket lib es s).streams ≡ requests s.streams)
        × ((run_socket lib es s).connected ≡ false)
  unfolding run_socket
  closed-Takes [] s shut = (refl, shut)
  closed-Takes (read_fails ∷ es) s shut = closed-Takes es (step lib read_fails s) refl
  closed-Takes (read m written ∷ es) s shut =
      subst
        (λ b.
          (requests (run_socket lib es (if b then handle lib m written s else s)).streams
            ≡ requests s.streams)
          × ((run_socket lib es (if b then handle lib m written s else s)).connected ≡ false))
        (sym shut) (closed-Takes es s shut)
  closed-Takes (result i offered sent ∷ es) s shut =
      let later = closed-Takes es (step lib (result i offered sent) s) shut in
      (later.0 ∙ requests-forward_at i (sent && s.connected) offered s.streams, later.1)

  shut-Takes :
      (es : List SocketEvent) (before asked : List Request) (s : Socket)
      → s.connected ≡ false
      → requests s.streams ≡ before
      → Takes before asked (run_socket lib es s)
  shut-Takes es before asked s shut same =
      let later = closed-Takes es s shut in
      ([], asked, later.0 ∙ same ∙ sym (append-nil before), refl, inl later.1)

  write_control-streams :
      (written : Bool) (c : Control) (state : ConnState) (s : Socket)
      → (write_control written c state s).streams ≡ s.streams
  write_control-streams true c state s = refl
  write_control-streams false c state s = refl

  acknowledge-streams :
      (state : ConnState) (readable written : Bool) (s : Socket)
      → (acknowledge state readable written s).streams ≡ s.streams
  acknowledge-streams ready readable written s = refl
  acknowledge-streams init false written s = refl
  acknowledge-streams init true written s = write_control-streams written connection_ack ready s

  also-Takes :
      (r : Request) (before asked : List Request) (s : Socket)
      → Takes (before ++ r ∷ []) asked s
      → Takes before (r ∷ asked) s
  also-Takes r before asked s h =
      (r ∷ h.0, h.1, h.2 ∙ append_assoc before (r ∷ []) h.0, ap (λ rs. r ∷ rs) h.3, h.4)

  read-Takes :
      (es : List SocketEvent) (m : ClientMessage) (written : Bool) (before : List Request)
      (s : Socket)
      → requests s.streams ≡ before
      → ((before' : List Request) (s' : Socket)
          → requests s'.streams ≡ before'
          → Takes before' (subscribes es) (run_socket lib es s'))
      → Takes before (subscribes (read m written ∷ es)) (run_socket lib (read m written ∷ es) s)
  unfolding run_socket subscribes
  read-Takes es m written before s same later = by_open s.connected refl
    where
      handled :
          (m : ClientMessage)
          → Takes before
              (subscribes (read m written ∷ es))
              (run_socket lib es (handle lib m written s))
      handled (connection_init readable) =
          later before (acknowledge s.state readable written s)
            (ap requests (acknowledge-streams s.state readable written s) ∙ same)
      handled ping =
          later before (write_control written pong s.state s)
            (ap requests (write_control-streams written pong s.state s) ∙ same)
      handled (subscribe r) =
          also-Takes r before (subscribes es)
            (run_socket lib es (handle lib (subscribe r) written s))
            (later (before ++ r ∷ []) (handle lib (subscribe r) written s)
              (requests-append s.streams (start_stream lib r) ∙ ap (λ rs. rs ++ r ∷ []) same))
      handled unknown = later before s same

      by_open :
          (b : Bool)
          → s.connected ≡ b
          → Takes before
              (subscribes (read m written ∷ es))
              (run_socket lib es (if b then handle lib m written s else s))
      by_open true e = handled m
      by_open false e = shut-Takes es before (subscribes (read m written ∷ es)) s e same

  run_socket-Takes :
      (es : List SocketEvent) (before : List Request) (s : Socket)
      → requests s.streams ≡ before
      → Takes before (subscribes es) (run_socket lib es s)
  unfolding run_socket subscribes
  run_socket-Takes [] before s same = ([], [], same ∙ sym (append-nil before), refl, inr refl)
  run_socket-Takes (read_fails ∷ es) before s same =
      shut-Takes es before (subscribes es) (step lib read_fails s) refl same
  run_socket-Takes (result i offered sent ∷ es) before s same =
      run_socket-Takes es before (step lib (result i offered sent) s)
        (requests-forward_at i (sent && s.connected) offered s.streams ∙ same)
  run_socket-Takes (read m written ∷ es) before s same =
      read-Takes es m written before s same λ before' s' same'. run_socket-Takes es before' s' same'

-- Whatever the client sends and however the goroutines are scheduled, a connection is acknowledged
-- once at most; it starts one goroutine for each subscribe message, in order, up to a point, and for
-- every one if it is not closed; and each of them writes nothing, or what the one result of its
-- request holds, or is that of a subscription.
pub run_socket-Answers :
    (lib : Library) (es : List SocketEvent)
    → (acks (run_socket lib es new_socket).control ≤ 1)
      × Takes [] (subscribes es) (run_socket lib es new_socket)
      × All (Answers lib) (run_socket lib es new_socket).streams
unfolding acks
run_socket-Answers lib es =
    let s = run_socket lib es new_socket in
    let kept = run_socket-IsAnswering lib es new_socket (omega arith) tt in
    (
      omega (arith, kept.0, allowed-bound s.state),
      run_socket-Takes lib es [] new_socket refl,
      All-mono (IsAnswering lib) (Answers lib) s.streams (IsAnswering-Answers lib) kept.1,
    )
