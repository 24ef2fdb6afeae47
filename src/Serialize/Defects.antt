-- ===== src/Serialize/Defects.antt =====
-- Nil slices, pointers to slices and maps, and interfaces that hold types without a stack.
use graphvent.Prelude.{
  ℕ, suc, ◌≤◌, ◌≡◌, ap, refl, ◌∙◌, sym, false, List, [], ◌∷◌, ◌++◌, Option, none, some, length,
  take, drop, take-length-append, append-nil, length-take, length-drop, length-append, arith,
}
use graphvent.Serialize.{
  scalar_info, no_fields, GoType, Value, type_of, TypeInfo, Context, ok, error, panic, bytes_left,
  ◌>>=◌,
}
use graphvent.Serialize.Bytes.{
  big_endian, length-big_endian, bind_ok, overwrite, put_fits, within-overwrite,
}
use graphvent.Serialize.Encode.{
  serialize_value, serialize_flagged, serialized_size, type_stack, or_registered,
}
use graphvent.Serialize.Decode.{
  called, iterations, post_deserialize, read_struct, read_fields, deserialize, deserialize_value,
  read_type, whole, addressable,
}
use graphvent.Serialize.Encoding.{encode, IsPlain, IsPlainAt}
use graphvent.Serialize.Encoding.Whole.{serialize_value-encode, serialize_flagged-encode}
use graphvent.Serialize.Reading.{read_append, IsRegistry, IsReadable, size, if_false, read_byte}
use graphvent.Serialize.Reading.RoundTrip.{deserialize_value-encode}

abbrev IsLeaf : GoType → Type 0
IsLeaf (GoType.map k t) = ⊥
IsLeaf (GoType.pointer t) = ⊥
IsLeaf (GoType.slice t) = ⊥
IsLeaf (GoType.array n t) = ⊥
IsLeaf t = Unit

unknown :
    {o : Option TypeInfo} (bytes : List ℕ)
    → o ≡ none
    → or_registered o bytes (ok (bytes, none)) ≡ ok (bytes, none)
unknown bytes free = ap (λ o. or_registered o bytes (ok (bytes, none))) free

module _ (ctx : Context) where
  -- SerializedSize counts one byte for a nil slice. SerializeValue writes that one byte into any
  -- buffer of eight bytes or more, but returns that it has written eight; Deserialize of those eight
  -- bytes fails, as there are bytes left.
  nil_slice_length :
      (t : GoType) (bytes : List ℕ) (fuel : ℕ)
      → 8 ≤ length bytes
      → (serialized_size ctx (Value.nil_slice t) ≡ ok 1)
        × (serialize_value ctx (Value.nil_slice t) bytes ≡ ok (overwrite 0 (0 ∷ []) bytes, 8))
        × ((serialize_value ctx (Value.nil_slice t) bytes >>= λ r.
              deserialize ctx (suc fuel) (GoType.slice t) (take r.1 r.0))
            ≡ error bytes_left)
  unfolding serialized_size serialize_flagged deserialize deserialize_value read_type
  nil_slice_length t bytes fuel room = (
    refl,
    bind_ok _ (put_fits 0 (0 ∷ []) bytes (omega arith)) refl,
    bind_ok _ (bind_ok _ (put_fits 0 (0 ∷ []) bytes (omega arith)) refl) (
        bind_ok _ (bind_ok _ (read_byte 0 (take 7 (drop 1 bytes))) refl) (
          whole_more (Value.nil_slice t) (take 7 (drop 1 bytes))
            (omega (arith, length-take 7 (drop 1 bytes), length-drop 1 bytes)))),
  )
    where
      whole_more :
          (v : Value) (left : List ℕ)
          → 1 ≤ length left
          → whole ctx (GoType.slice t) v left ≡ error bytes_left
      whole_more v [] h = ground arith
      whole_more v (b ∷ left) h = refl

  -- A pointer to a slice or a map that is not nil is serialized, if what it points to is plain and
  -- the buffer has room. Reading it back is a panic, where the registry is sound and what it points to
  -- is readable, since the value that was made for it has no address.
  pub pointer_without_address :
      IsRegistry ctx
      → (v : Value) (bytes : List ℕ) (fuel : ℕ) → addressable v ≡ false
      → IsPlain ctx v
      → IsReadable ctx v
      → length (encode ctx (Value.pointer v)) ≤ length bytes
      → size v ≤ fuel
      → (serialize_value ctx (Value.pointer v) bytes
          ≡ ok (overwrite 0 (1 ∷ encode ctx v) bytes, length (1 ∷ encode ctx v)))
        × ((serialize_value ctx (Value.pointer v) bytes >>= λ r.
              deserialize ctx (suc fuel) (GoType.pointer (type_of v)) (take r.1 r.0))
            ≡ panic)
  unfolding encode IsPlainAt deserialize deserialize_value read_type
  pointer_without_address registry v bytes fuel homeless plain readable room enough = (
    written,
    bind_ok _ written (ap (λ o. o >>= λ r. whole ctx (GoType.pointer (type_of v)) r.0 r.1) reads),
  )
    where
      written :
          serialize_value ctx (Value.pointer v) bytes
          ≡ ok (overwrite 0 (1 ∷ encode ctx v) bytes, length (1 ∷ encode ctx v))
      written = serialize_value-encode ctx (Value.pointer v) bytes plain room

      reads :
          deserialize_value ctx
            (suc fuel)
            (GoType.pointer (type_of v))
            (take (length (1 ∷ encode ctx v)) (overwrite 0 (1 ∷ encode ctx v) bytes))
          ≡ panic
      reads =
          ap (deserialize_value ctx (suc fuel) (GoType.pointer (type_of v))) (
            take-length-append (1 ∷ encode ctx v) (drop (length (1 ∷ encode ctx v)) bytes)
            ∙ sym (append-nil (1 ∷ encode ctx v)))
          ∙ bind_ok _ (read_byte 1 (encode ctx v ++ [])) (
              bind_ok _ (deserialize_value-encode ctx registry v fuel enough readable [])
                (ap (λ o. o >>= λ p. ok (p, [])) (if_false _ _ _ homeless)))

  unregistered_leaf :
      (t : GoType) (bytes : List ℕ)
      → IsLeaf t
      → ctx.types t ≡ none
      → type_stack ctx t bytes ≡ ok (bytes, none)
  unfolding type_stack
  unregistered_leaf (GoType.map k t) bytes leaf free = absurd leaf
  unregistered_leaf (GoType.pointer t) bytes leaf free = absurd leaf
  unregistered_leaf (GoType.slice t) bytes leaf free = absurd leaf
  unregistered_leaf (GoType.array n t) bytes leaf free = absurd leaf
  unregistered_leaf GoType.bool bytes leaf free = unknown bytes free
  unregistered_leaf (GoType.num k) bytes leaf free = unknown bytes free
  unregistered_leaf GoType.string bytes leaf free = unknown bytes free
  unregistered_leaf GoType.id bytes leaf free = unknown bytes free
  unregistered_leaf (GoType.struct n) bytes leaf free = unknown bytes free
  unregistered_leaf (GoType.interface n) bytes leaf free = unknown bytes free
  unregistered_leaf (GoType.other n) bytes leaf free = unknown bytes free

  -- An interface that holds a plain value whose type is neither registered nor a map, pointer, slice
  -- or array is serialized without an error and without the type: the bytes are those of the value
  -- itself without an address, whichever interface holds it.
  unregistered_is_untyped :
      (name : ℕ) (v : Value) (bytes : List ℕ)
      → IsLeaf (type_of v)
      → ctx.types (type_of v) ≡ none
      → IsPlainAt ctx false v
      → length (encode ctx v) ≤ length bytes
      → serialize_value ctx (Value.interface name v) bytes ≡ serialize_flagged ctx false v bytes
  unfolding serialize_flagged
  unregistered_is_untyped name v bytes leaf free plain room =
      bind_ok _ (unregistered_leaf (type_of v) bytes leaf free) (
        bind_ok _
          (within-overwrite 0 (serialize_flagged ctx false v) (encode ctx v) bytes
            (length (encode ctx v)) (omega arith)
            (serialize_flagged-encode ctx false v bytes plain room))
          (ap (λ n. ok (overwrite 0 (encode ctx v) bytes, n)) (omega arith)
            ∙ sym (serialize_flagged-encode ctx false v bytes plain room)))

  -- A struct type that is registered as a scalar without functions of its own: a value of it is
  -- serialized into a buffer with room, as the number of no fields, and reading that back is a panic
  -- where the type's method 0 panics when it is called with the context.
  pub scalar_without_functions :
      (name serialized : ℕ) (bytes : List ℕ) (fuel : ℕ)
      → ctx.types (GoType.struct name) ≡ some (scalar_info serialized)
      → ctx.call_method name 0 (ctx.zero_fields name) ≡ none
      → 8 ≤ length bytes
      → (serialize_value ctx (Value.struct name no_fields) bytes
          ≡ ok (overwrite 0 (big_endian 8 0 ++ []) bytes, 8))
        × ((serialize_value ctx (Value.struct name no_fields) bytes >>= λ r.
              deserialize ctx (suc fuel) (GoType.struct name) (take r.1 r.0))
            ≡ panic)
  unfolding encode IsPlainAt deserialize deserialize_value read_type read_fields
  scalar_without_functions name serialized bytes fuel known panics room = (
    written,
    bind_ok _ written (ap (λ o. o >>= λ r. whole ctx (GoType.struct name) r.0 r.1) reads),
  )
    where
      zeros : List ℕ
      zeros = big_endian 8 0 ++ []

      long : length zeros ≡ 8
      long = omega (arith, length-append (big_endian 8 0) [], length-big_endian 8 0)

      written :
          serialize_value ctx (Value.struct name no_fields) bytes ≡ ok (overwrite 0 zeros bytes, 8)
      written =
          serialize_value-encode ctx (Value.struct name no_fields) bytes
            ((scalar_info serialized, known, refl), tt) (omega (arith, long))
          ∙ ap (λ n. ok (overwrite 0 zeros bytes, n)) long

      no_field :
          read_fields ctx (deserialize_value ctx fuel) [] (iterations 0) (ctx.zero_fields name) []
          ≡ ok (ctx.zero_fields name, [])
      no_field = refl

      reads :
          deserialize_value ctx (suc fuel) (GoType.struct name) (take 8 (overwrite 0 zeros bytes))
          ≡ panic
      reads =
          ap (deserialize_value ctx (suc fuel) (GoType.struct name)) (
            ap (λ n. take n (overwrite 0 zeros bytes)) (sym long)
            ∙ take-length-append zeros (drop (length zeros) bytes))
          ∙ ap (λ o. read_struct ctx (deserialize_value ctx fuel) name o zeros) known
          ∙ bind_ok
              (λ n.
                read_fields ctx (deserialize_value ctx fuel) [] (iterations n.0)
                  (ctx.zero_fields name) n.1
                >>= λ r.
                    post_deserialize ctx name (some 0) r.0 >>= λ fs. ok (Value.struct name fs, r.1))
              (read_append 8 0 [] (omega arith))
              (bind_ok
                (λ r.
                  post_deserialize ctx name (some 0) r.0 >>= λ fs. ok (Value.struct name fs, r.1))
                no_field (ap (λ o. called o >>= λ fs. ok (Value.struct name fs, [])) panics))
