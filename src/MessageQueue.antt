-- ===== src/MessageQueue.antt =====
-- message.go: the unbounded queue between a node's SendChan and RecvChan, a ring buffer that doubles.
pub mod Inv
pub mod Fifo
pub mod Refine
mod Tests
use graphvent.Prelude.{
  ℕ, ◌+◌, ◌-◌, ◌*◌, Bool, true, false, ◌&&◌, ◌||◌, not, List, [], ◌∷◌, ◌++◌, Option, none, some,
  length, get_elem?, set, take, drop, replicate, ◌==◌, leb, if◌then◌else◌,
}

-- `copy(dst, src)`: as many elements as both have.
abbrev pub copy {ℓ} : {A : Type ℓ} → List A → List A → List A
copy [] src = []
copy (d ∷ dst) [] = d ∷ dst
copy (d ∷ dst) (s ∷ src) = s ∷ copy dst src

-- `copy(dst[off:], src)`
abbrev pub copy_at {ℓ} : {A : Type ℓ} → ℕ → List A → List A → List A
copy_at off dst src = take off dst ++ copy (drop off dst) src

-- `MessageQueue` without its two channels. A message is any value; `zero_message` is what
-- `make` fills a slice with.
pub record MessageQueue (A : Type 0) : Type 0 where
  pub buffer : List A
  pub write_cursor : ℕ
  pub read_cursor : ℕ

module _ {A : Type 0} where
  -- Is there one free slot left, the one that keeps a full buffer apart from an empty one?
  abbrev pub is_full : MessageQueue A → Bool
  is_full q =
      q.write_cursor + 1 == q.read_cursor
      || (q.write_cursor + 1 == length q.buffer && q.read_cursor == 0)

  -- A cursor that has been moved on by one, and goes back to 0 at the end of the buffer.
  abbrev pub wrap : MessageQueue A → ℕ → ℕ
  wrap q cursor = if leb (length q.buffer) cursor then 0 else cursor

  -- The write of `message`; past the buffer's end it is a panic, `none`.
  pub store : A → MessageQueue A → Option (MessageQueue A)
  store message q = elim (get_elem? q.buffer q.write_cursor) [
    | none ↦ none
    | some _ ↦ some (record q {
      buffer = set q.buffer q.write_cursor message;
      write_cursor = wrap q (q.write_cursor + 1);
    })
  ]

  module _ (zero_message : A) where
    -- The buffer of twice the size, the stored messages from its start on.
    pub grow : MessageQueue A → MessageQueue A
    grow q =
        let len = length q.buffer in
        let first_chunk = len - q.read_cursor in
        let new_buffer = copy (replicate (len * 2) zero_message) (drop q.read_cursor q.buffer) in
        record {
          buffer = copy_at first_chunk new_buffer (take q.write_cursor q.buffer);
          write_cursor = len - 1;
          read_cursor = 0;
        }

    pub process_incoming : A → MessageQueue A → Option (MessageQueue A)
    process_incoming message q = store message (if is_full q then grow q else q)

    pub new_message_queue : ℕ → MessageQueue A
    new_message_queue initial = record {
      buffer = replicate initial zero_message;
      write_cursor = 0;
      read_cursor = 0;
    }

  -- What the select offers on the out channel: nothing while the cursors are equal. A read past
  -- the buffer's end is a panic, the outer `none`.
  pub offered : MessageQueue A → Option (Option A)
  offered q =
      if q.write_cursor == q.read_cursor
      then some none
      else elim (get_elem? q.buffer q.read_cursor) [ none ↦ none | some m ↦ some (some m) ]

  -- The receiver has taken the message that was offered.
  pub sent : MessageQueue A → MessageQueue A
  sent q = record q { read_cursor = wrap q (q.read_cursor + 1) }

-- The channel operation that another goroutine attempts.
pub data Event (A : Type 0) : Type 0 where
  incoming : A → Event A
  outgoing : Event A

module _ {A : Type 0} (zero_message : A) where
  perform : MessageQueue A → Option A → Event A → Option (Option A × MessageQueue A)
  perform q offer (incoming m) = elim (process_incoming zero_message m q) [
    | none ↦ none
    | some q' ↦ some (none, q')
  ]
  perform q none outgoing = some (none, q)
  perform q (some m) outgoing = some (some m, sent q)

  -- One round of the goroutine's loop: what it delivered, and its state. A receiver that is offered
  -- nothing waits, and nothing changes.
  pub round : MessageQueue A → Event A → Option (Option A × MessageQueue A)
  unfolding perform
  round q e = elim (offered q) [ none ↦ none | some offer ↦ perform q offer e ]

  -- The goroutine over a sequence of channel operations: the messages that it delivered, in
  -- order, and its state.
  pub pump : MessageQueue A → List (Event A) → Option (List A × MessageQueue A)
  pump q [] = some ([], q)
  pump q (e ∷ es) = elim (round q e) [
    | none ↦ none
    | some (out, q') ↦ elim (pump q' es) [
      | none ↦ none
      | some (rest, q'') ↦ elim out [ none ↦ some (rest, q'') | some m ↦ some (m ∷ rest, q'') ]
    ]
  ]
