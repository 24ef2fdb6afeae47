-- ===== src/MessageQueue/Inv.antt =====
-- The cursors of message.go's ring buffer stay inside the buffer, whatever it is made of.
use graphvent.Prelude.{
  ℕ, ◌+◌, ◌-◌, ◌*◌, ◌≤◌, ◌<◌, ◌≡◌, refl, sym, ap, ap₂, ◌∙◌, false, List, [], ◌∷◌, ◌++◌, some,
  length, get_elem?, set, take, drop, replicate, arith, length-set, length-append, length-take,
  length-drop, length-replicate, zero, suc, take-length-append, drop-length-append,
}
use graphvent.MessageQueue.{
  MessageQueue, copy, copy_at, is_full, wrap, store, grow, new_message_queue, sent,
}

pub record IsValid {A : Type 0} (q : MessageQueue A) : Type 0 where
  pub write_in : q.write_cursor < length q.buffer
  pub read_in : q.read_cursor < length q.buffer

module _ {ℓ} {A : Type ℓ} where
  pub get_elem?_in : (xs : List A) (i : ℕ) → i < length xs → (x : A) × (get_elem? xs i ≡ some x)
  get_elem?_in [] i h = absurd (omega arith)
  get_elem?_in (x ∷ xs) zero h = (x, refl)
  get_elem?_in (x ∷ xs) (suc i) h = get_elem?_in xs i (omega arith)

  pub copy-append :
      (dst src : List A) → length src ≤ length dst → copy dst src ≡ src ++ drop (length src) dst
  copy-append [] [] h = refl
  copy-append [] (s ∷ src) h = absurd (omega arith)
  copy-append (d ∷ dst) [] h = refl
  copy-append (d ∷ dst) (s ∷ src) h = ap (◌∷◌ s) (copy-append dst src (omega arith))

  -- A copy behind what is there already.
  pub copy_at-append :
      (xs ys src : List A)
      → length src ≤ length ys
      → copy_at (length xs) (xs ++ ys) src ≡ xs ++ (src ++ drop (length src) ys)
  copy_at-append xs ys src h =
      ap₂ ◌++◌ (take-length-append xs ys)
        (ap (λ zs. copy zs src) (drop-length-append xs ys) ∙ copy-append ys src h)

module _ {A : Type 0} (z : A) where
  -- What `grow` builds: the messages from the read cursor on, those before the write cursor, and
  -- room.
  pub grow-buffer :
      {q : MessageQueue A}
      → IsValid q
      → (room : List A) × ((grow z q).buffer
          ≡ drop q.read_cursor q.buffer ++ (take q.write_cursor q.buffer ++ room))
        × (length (grow z q).buffer ≡ length q.buffer * 2)
  unfolding grow
  grow-buffer {q} v = (room, eq, ap length eq ∙ total)
    where
      open q use {buffer, write_cursor, read_cursor}

      fill : List A
      fill = replicate (length buffer * 2) z

      first : List A
      first = drop read_cursor buffer

      second : List A
      second = take write_cursor buffer

      left : List A
      left = drop (length first) fill

      room : List A
      room = drop (length second) left

      sizes :
          (length first ≡ length buffer - read_cursor)
          × (length second ≡ write_cursor)
          × (length left ≡ length buffer * 2 - length first)
      sizes = (
        length-drop read_cursor buffer,
        omega (arith, length-take write_cursor buffer),
        omega (arith, length-drop (length first) fill, length-replicate (length buffer * 2) z),
      )

      eq :
          copy_at (length buffer - read_cursor) (copy fill first) second ≡ first ++ (second ++ room)
      eq =
          ap₂ (λ n xs. copy_at n xs second) (sym sizes.0)
            (copy-append fill first
              (omega (arith, sizes.0, length-replicate (length buffer * 2) z)))
          ∙ copy_at-append first left second (omega (arith, sizes.0, sizes.1, sizes.2))

      total : length (first ++ (second ++ room)) ≡ length buffer * 2
      total = omega (
        arith,
        length-append first (second ++ room),
        length-append second room,
        length-drop (length second) left,
        sizes.0,
        sizes.1,
        sizes.2,
      )

  pub grow-IsValid : {q : MessageQueue A} → IsValid q → IsValid (grow z q)
  unfolding grow
  grow-IsValid {q} v =
      let room = grow-buffer v in
      record { write_in = omega (arith, room.2); read_in = omega (arith, room.2) }

  pub grow-is_full : {q : MessageQueue A} → IsValid q → is_full (grow z q) ≡ false
  unfolding grow
  grow-is_full {q} v = let room = grow-buffer v in ground (arith, room.2)

module _ {A : Type 0} where
  -- The queue after a write inside the buffer.
  abbrev pub stored : A → MessageQueue A → MessageQueue A
  stored m q = record q {
    buffer = set q.buffer q.write_cursor m;
    write_cursor = wrap q (q.write_cursor + 1);
  }

  -- In a valid queue `store` does not panic.
  pub store-eq-stored : (m : A) {q : MessageQueue A} → IsValid q → store m q ≡ some (stored m q)
  unfolding store
  store-eq-stored m {q} v = ground (arith, (get_elem?_in q.buffer q.write_cursor v.write_in).1)

  pub stored-IsValid : (m : A) {q : MessageQueue A} → IsValid q → IsValid (stored m q)
  stored-IsValid m {q} v = ground (arith, length-set q.buffer q.write_cursor m)

  pub sent-IsValid : {q : MessageQueue A} → IsValid q → IsValid (sent q)
  unfolding sent
  sent-IsValid v = ground arith

  -- `make` of at least one slot.
  pub new_message_queue-IsValid :
      (z : A) (initial : ℕ) → 0 < initial → IsValid (new_message_queue z initial)
  unfolding new_message_queue
  new_message_queue-IsValid z initial h = omega (arith, length-replicate initial z)
