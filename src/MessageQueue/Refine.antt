-- ===== src/MessageQueue/Refine.antt =====
-- The ring buffer of message.go against the plain queue of the messages that it holds.
use graphvent.Prelude.{
  ℕ, ◌*◌, ◌<◌, ◌≡◌, refl, ap, ◌∙◌, ◌≢◌, ◌⊎◌, inl, inr, true, false, List, [], ◌∷◌, ◌++◌, Option,
  none, some, length, get_elem?, set, take, drop, ◌==◌, leb, if◌then◌else◌, arith, length-set,
  length-append, length-take, length-drop, suc, append_assoc, append-nil, Bool-cases,
  take-length-append, add-one, take-set, take-set_le, drop-set_lt, drop-append_le, take_all,
  drop_all, take-append_le, drop-get_elem?, get_elem?-take,
}
use graphvent.MessageQueue.{
  MessageQueue, Event, incoming, outgoing, is_full, grow, process_incoming, new_message_queue,
  offered, sent, perform, round, pump,
}
use graphvent.MessageQueue.Fifo
use graphvent.MessageQueue.Inv.{
  IsValid, get_elem?_in, grow-buffer, grow-IsValid, grow-is_full, stored, store-eq-stored,
  stored-IsValid, sent-IsValid, new_message_queue-IsValid,
}

module _ {A : Type 0} where
  -- The messages held, oldest first: up to the write cursor, or round the end of the buffer.
  pub contents : MessageQueue A → List A
  contents q =
      if leb q.read_cursor q.write_cursor
      then drop q.read_cursor (take q.write_cursor q.buffer)
      else drop q.read_cursor q.buffer ++ take q.write_cursor q.buffer

  -- A slot that is free takes the message behind those held.
  stored-contents :
      (m : A) {q : MessageQueue A}
      → IsValid q
      → is_full q ≡ false
      → contents (stored m q) ≡ contents q ++ m ∷ []
  unfolding contents
  stored-contents m {q} v f = ground (
    arith,
    add-one w,
    take-set b w m,
    take-set_le b w w m,
    drop-set_lt b r w m,
    drop-append_le r (take w b) (m ∷ []),
    length-take w b,
    take_all (suc w) (set b w m),
    length-set b w m,
    append_assoc (drop r b) (take w b) (m ∷ []),
    append-nil (drop r (set b w m)),
  )
    where
      open q use {buffer as b, write_cursor as w, read_cursor as r}

  -- Growing keeps the messages and their order.
  grow-contents :
      (z : A) {q : MessageQueue A} → IsValid q → is_full q ≡ true → contents (grow z q) ≡ contents q
  unfolding contents grow
  grow-contents z {q} v f = ground (
    arith,
    room.1,
    append_assoc first second room.0,
    take-length-append (first ++ second) room.0,
    length-append first second,
    length-drop r b,
    length-take w b,
    take-append_le w b (second ++ room.0),
  )
    where
      open q use {buffer as b, write_cursor as w, read_cursor as r}

      first : List A
      first = drop r b

      second : List A
      second = take w b

      room :
          (room : List A) × ((grow z q).buffer ≡ first ++ (second ++ room))
          × (length (grow z q).buffer ≡ length b * 2)
      room = grow-buffer z v

  -- A message that comes in goes behind those held, growing or not, without a panic.
  pub process_incoming_refines :
      (z m : A) {q : MessageQueue A}
      → IsValid q
      → (q' : MessageQueue A) × (process_incoming z m q ≡ some q')
        × IsValid q'
        × (contents q' ≡ contents q ++ m ∷ [])
  unfolding process_incoming
  process_incoming_refines z m {q} v = elim (Bool-cases (is_full q)) [
    | inl f ↦
        let g = grow-IsValid z v in
        (
          stored m (grow z q),
          rw f (store-eq-stored m g),
          stored-IsValid m g,
          stored-contents m g (grow-is_full z v) ∙ ap (λ xs. xs ++ m ∷ []) (grow-contents z v f),
        )
    | inr f ↦ (stored m q, rw f (store-eq-stored m v), stored-IsValid m v, stored-contents m v f)
  ]

  contents-empty : (q : MessageQueue A) → q.write_cursor ≡ q.read_cursor → contents q ≡ []
  unfolding contents
  contents-empty q e = ground (
    arith,
    drop_all q.read_cursor (take q.write_cursor q.buffer),
    length-take q.write_cursor q.buffer,
  )

  contents-sent :
      (x : A) {q : MessageQueue A}
      → IsValid q
      → q.write_cursor ≢ q.read_cursor
      → get_elem? q.buffer q.read_cursor ≡ some x
      → contents q ≡ x ∷ contents (sent q)
  unfolding contents sent
  contents-sent x {q} v ne e = ground (
    arith,
    add-one r,
    get_elem?-take b w r,
    drop-get_elem? (take w b) r x,
    drop-get_elem? b r x,
    drop_all (suc r) b,
  )
    where
      open q use {buffer as b, write_cursor as w, read_cursor as r}

  -- The goroutine offers the oldest message, if there is one, and taking it leaves the others.
  pub offered-contents :
      {q : MessageQueue A}
      → IsValid q
      → ((offered q ≡ some none) × (contents q ≡ []))
        ⊎ ((m : A) × (offered q ≡ some (some m)) × (contents q ≡ m ∷ contents (sent q)))
  unfolding offered
  offered-contents {q} v = elim (Bool-cases (q.write_cursor == q.read_cursor)) [
    | inl e ↦ inl (rw e, contents-empty q (ground arith))
    | inr e ↦
        let x = get_elem?_in q.buffer q.read_cursor v.read_in in
        inr (x.0, rw e (rw x.1), contents-sent x.0 v (ground arith) x.1)
  ]

module _ {A : Type 0} (z : A) where
  -- One round of the goroutine is one round of the queue.
  round_refines :
      (e : Event A) {q : MessageQueue A}
      → IsValid q
      → (out : Option A) × (q' : MessageQueue A) × (round z q e ≡ some (out, q'))
        × IsValid q'
        × ((out, contents q') ≡ Fifo.round (contents q) e)
  unfolding round perform Fifo.round
  round_refines (incoming m) {q} v =
      let (q', eq, v', c) = process_incoming_refines z m v in
      (
        none,
        q',
        elim (offered-contents v) [
          | inl (o, _) ↦ rw (o, round) (rw (eq, perform))
          | inr (x, o, _) ↦ rw (o, round) (rw (eq, perform))
        ],
        v',
        rw c,
      )
  round_refines outgoing {q} v = elim (offered-contents v) [
    | inl (o, c) ↦ (none, q, rw (o, round), v, rw c)
    | inr (x, o, c) ↦ (some x, sent q, rw (o, round), sent-IsValid v, rw c)
  ]

  -- From a valid queue the goroutine never panics, whatever operations the channels see, and it
  -- delivers what the queue of its contents delivers and is left with what that is left with.
  pub pump_refines :
      (es : List (Event A)) {q : MessageQueue A}
      → IsValid q
      → (out : List A) × (q' : MessageQueue A) × (pump z q es ≡ some (out, q'))
        × IsValid q'
        × ((out, contents q') ≡ Fifo.run (contents q) es)
  unfolding pump Fifo.run
  pump_refines [] {q} v = ([], q, refl, v, refl)
  pump_refines (e ∷ es) {q} v =
      let (o, q₁, eq₁, v₁, c₁) = round_refines e v in
      let (out, q₂, eq₂, v₂, c₂) = pump_refines es v₁ in
      (Fifo.push_front o out, q₂, ground (arith, eq₁, eq₂), v₂, ground (arith, c₁, c₂))

  -- A new queue of at least one slot never panics, and never loses, repeats or reorders a message:
  -- what it has delivered, followed by what it still holds, is what came in.
  pub pump_fifo :
      (initial : ℕ) (es : List (Event A))
      → 0 < initial
      → (out : List A) × (q : MessageQueue A) × (pump z (new_message_queue z initial) es
          ≡ some (out, q))
        × (out ++ contents q ≡ Fifo.sends es)
  pump_fifo initial es h =
      let fresh = new_message_queue-IsValid z initial h in
      let (out, q, eq, v, c) = pump_refines es fresh in
      (
        out,
        q,
        eq,
        ap (λ r. r.0 ++ r.1) c ∙ Fifo.run-conserves _ es ∙ ap (λ xs. xs ++ Fifo.sends es) empty,
      )
    where
      empty : contents (new_message_queue z initial) ≡ []
      empty = contents-empty (new_message_queue z initial) (unfold new_message_queue in refl)
