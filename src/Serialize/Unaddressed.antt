-- ===== src/Serialize/Unaddressed.antt =====
-- Ids without an address, which SerializeValue cannot write.
pub mod Plain
use mathlib.Core.Bool.{false≢true}
use graphvent.Prelude.{
  ℕ, ◌+◌, ◌≤◌, ◌≡◌, refl, ap, ◌∙◌, sym, Bool, true, false, ◌||◌, List, [], ◌∷◌, ◌++◌, Option, some,
  length, drop, take, leb, if◌then◌else◌, length-append, length-drop, Bool-cases, ◌⊎◌, inl, inr,
  arith,
}
use graphvent.Serialize.{
  GoType, Value, Values, Fields, no_values, value, no_fields, field, count_fields, type_of,
  TypeInfo, Context, Outcome, ok, panic, ◌>>=◌,
}
use graphvent.Serialize.Bytes.{
  bind_ok, big_endian, length-big_endian, overwrite, within, put_fits, length-overwrite,
}
use graphvent.Serialize.Encode.{
  serialize_value, serialize_flagged, serialize_values, serialize_fields, put_uint64, registered,
  or_zero,
}
use graphvent.Serialize.Encoding.{
  stack, HasStack, encode, encode_values, encode_fields, IsPlain, IsPlainAt, ArePlain,
  FieldsArePlain,
}
use graphvent.Serialize.Unaddressed.Plain.{
  holds_id, some_hold_id, fields_hold_id, or_rest, plain_without,
}
use graphvent.Serialize.Encoding.Stacks.{type_stack-stack, length-three}
use graphvent.Serialize.Encoding.Writes.{behind}
use graphvent.Serialize.Encoding.Whole.{serialize_flagged-encode}

bind_panic : {A B : Type 0} {o : Outcome A} (f : A → Outcome B) → o ≡ panic → (o >>= f) ≡ panic
bind_panic f e = ap (λ o. o >>= f) e

within_panic :
    (off : ℕ) (f : List ℕ → Outcome (List ℕ × ℕ)) (bytes : List ℕ)
    → f (drop off bytes) ≡ panic
    → within off f bytes ≡ panic
within_panic off f bytes e = by_room (leb off (length bytes))
  where
    by_room :
        (b : Bool)
        → Path
            (Outcome (List ℕ × ℕ))
            (if b then (f (drop off bytes) >>= λ r. ok (take off bytes ++ r.0, r.1)) else panic)
            panic
    by_room true = bind_panic _ e
    by_room false = refl

module _ (ctx : Context) where
  written_without :
      (off : ℕ) (v : Value) (bytes : List ℕ)
      → IsPlain ctx v
      → holds_id v ≡ false
      → off + length (encode ctx v) ≤ length bytes
      → within off (serialize_flagged ctx false v) bytes
        ≡ ok (overwrite off (encode ctx v) bytes, length (encode ctx v))
  written_without off v bytes h e room =
      behind ctx false off v bytes (serialize_flagged-encode ctx false v) (plain_without ctx v h e)
        room

  struct_panics :
      (info : TypeInfo) (o : Option TypeInfo) (fs : Fields) (bytes : List ℕ)
      → o ≡ some info
      → 8 ≤ length bytes
      → ((n : ℕ) → serialize_fields ctx false fs 0 (overwrite 0 (big_endian 8 n) bytes) ≡ panic)
      → Path
          (Outcome (List ℕ × ℕ))
          (registered o >>= λ info. put_uint64 0 (length info.fields) bytes >>= λ out.
            serialize_fields ctx false fs 0 out >>= λ r. ok (r.0, 8 + r.1))
          panic
  struct_panics info o fs bytes known room panics = bind_ok _ (ap registered known) (
      bind_ok _
        (put_fits 0 (big_endian 8 (length info.fields)) bytes
          (omega (arith, length-big_endian 8 (length info.fields))))
        (bind_panic _ (panics (length info.fields))))

  mutual
    unfolding holds_id IsPlainAt serialize_flagged encode

    flagged_panics :
        (v : Value) (bytes : List ℕ)
        → IsPlain ctx v
        → holds_id v ≡ true
        → length (encode ctx v) ≤ length bytes
        → serialize_flagged ctx false v bytes ≡ panic
    flagged_panics (Value.id s) bytes h e room = refl
    flagged_panics (Value.array t vs) bytes h e room =
        values_panic vs 0 0 0 bytes refl h e (omega arith)
    flagged_panics (Value.struct name fs) bytes h e room =
        let size : List ℕ = big_endian 8 (count_fields fs) in
        let total : length (size ++ encode_fields ctx fs)
            ≡ length size + length (encode_fields ctx fs) =
          length-append size (encode_fields ctx fs) in
        let eight : length size ≡ 8 = length-big_endian 8 (count_fields fs) in
        struct_panics h.0.0 (ctx.types (GoType.struct name)) fs bytes h.0.1 (omega arith) λ n.
          (let written : length (overwrite 0 (big_endian 8 n) bytes) ≡ length bytes =
              length-overwrite 0 (big_endian 8 n) bytes (omega (arith, length-big_endian 8 n)) in
            fields_panic fs 0 (overwrite 0 (big_endian 8 n) bytes) h.1 e (omega arith))
    flagged_panics (Value.bool b) bytes h e room = absurd (false≢true e)
    flagged_panics (Value.num k n) bytes h e room = absurd (false≢true e)
    flagged_panics (Value.string s) bytes h e room = absurd (false≢true e)
    flagged_panics (Value.nil_pointer t) bytes h e room = absurd (false≢true e)
    flagged_panics (Value.pointer v) bytes h e room = absurd (false≢true e)
    flagged_panics (Value.nil_slice t) bytes h e room = absurd (false≢true e)
    flagged_panics (Value.slice t vs) bytes h e room = absurd (false≢true e)
    flagged_panics (Value.nil_map k t) bytes h e room = absurd (false≢true e)
    flagged_panics (Value.map k t es) bytes h e room = absurd (false≢true e)
    flagged_panics (Value.nil_interface name) bytes h e room = absurd (false≢true e)
    flagged_panics (Value.interface name v) bytes h e room = absurd (false≢true e)
    flagged_panics (Value.other name) bytes h e room = absurd (false≢true e)

    values_panic :
        (vs : Values) (base total off : ℕ) (bytes : List ℕ)
        → off ≡ base + total
        → ArePlain ctx true vs
        → some_hold_id vs ≡ true
        → off + length (encode_values ctx vs) ≤ length bytes
        → serialize_values ctx false base vs total bytes ≡ panic
    values_panic no_values base total off bytes at h e room = absurd (false≢true e)
    values_panic (value v vs) base total off bytes at h e room =
        let both : length (encode ctx v ++ encode_values ctx vs)
            ≡ length (encode ctx v) + length (encode_values ctx vs) =
          length-append (encode ctx v) (encode_values ctx vs) in
        elim (Bool-cases (holds_id v)) [
          | inl here ↦ bind_panic _ (
              within_panic (base + total) (serialize_flagged ctx false v) bytes (
                flagged_panics v (drop (base + total) bytes) h.0 here
                  (omega (arith, length-drop (base + total) bytes))))
          | inr later ↦
              let same : length (overwrite (base + total) (encode ctx v) bytes) ≡ length bytes =
                length-overwrite (base + total) (encode ctx v) bytes (omega arith) in
              bind_ok _ (written_without (base + total) v bytes h.0 later (omega arith)) (
                values_panic vs base (total + length (encode ctx v)) (off + length (encode ctx v))
                  (overwrite (base + total) (encode ctx v) bytes) (omega arith) h.1
                  (or_rest (holds_id v) (some_hold_id vs) e later) (omega arith))
        ]

    fields_panic :
        (fs : Fields) (total : ℕ) (bytes : List ℕ)
        → FieldsArePlain ctx true fs
        → fields_hold_id fs ≡ true
        → 8 + total + length (encode_fields ctx fs) ≤ length bytes
        → serialize_fields ctx false fs total bytes ≡ panic
    fields_panic no_fields total bytes h e room = absurd (false≢true e)
    fields_panic (field tag v fs) total bytes h e room =
        let code : List ℕ = big_endian 8 tag in
        let eight : length code ≡ 8 = length-big_endian 8 tag in
        let all : length (code ++ (encode ctx v ++ encode_fields ctx fs))
            ≡ length code + length (encode ctx v) + length (encode_fields ctx fs) =
          length-three code (encode ctx v) (encode_fields ctx fs) in
        let out : List ℕ = overwrite (8 + total) code bytes in
        let same : length out ≡ length bytes =
          length-overwrite (8 + total) code bytes (omega arith) in
        let off : ℕ = 8 + (total + 8) in
        bind_ok _ (put_fits (8 + total) code bytes (omega arith)) (elim (Bool-cases (holds_id v)) [
          | inl here ↦ bind_panic _ (
              within_panic off (serialize_flagged ctx false v) out
                (flagged_panics v (drop off out) h.0 here (omega (arith, length-drop off out))))
          | inr later ↦
              let same' : length (overwrite off (encode ctx v) out) ≡ length out =
                length-overwrite off (encode ctx v) out (omega arith) in
              bind_ok _ (written_without off v out h.0 later (omega arith)) (
                fields_panic fs (total + 8 + length (encode ctx v))
                  (overwrite off (encode ctx v) out) h.1
                  (or_rest (holds_id v) (fields_hold_id fs) e later) (omega arith))
        ])

  -- Let a value be plain, its type have a stack, and a buffer have room for an interface that holds it.
  -- If it is an id, or a struct or an array with an id by value in it, however deep, SerializeValue of
  -- the interface is a panic, and else it writes the encoding and returns its length.
  pub serialize_interface-cases :
      (name : ℕ) (v : Value) (bytes : List ℕ)
      → IsPlain ctx v
      → HasStack ctx (type_of v)
      → length (encode ctx (Value.interface name v)) ≤ length bytes
      → ((holds_id v ≡ true) × (serialize_value ctx (Value.interface name v) bytes ≡ panic))
        ⊎ ((holds_id v ≡ false)
            × (serialize_value ctx (Value.interface name v) bytes
                ≡ ok (
                  overwrite 0 (encode ctx (Value.interface name v)) bytes,
                  length (encode ctx (Value.interface name v)),
                )))
  unfolding encode serialize_flagged IsPlainAt
  serialize_interface-cases name v bytes plain known room =
      let ts : List ℕ = stack ctx (type_of v) in
      let both : length (ts ++ encode ctx v) ≡ length ts + length (encode ctx v) =
        length-append ts (encode ctx v) in
      elim (Bool-cases (holds_id v)) [
        | inl here ↦
            let same : length (overwrite 0 ts bytes) ≡ length bytes =
              length-overwrite 0 ts bytes (omega arith) in
            inl (
              here,
              bind_ok _ (type_stack-stack ctx (type_of v) bytes known (omega arith)) (
                  bind_panic _ (
                    within_panic (length ts) (serialize_flagged ctx false v) (overwrite 0 ts bytes)
                      (flagged_panics v (drop (length ts) (overwrite 0 ts bytes)) plain here
                        (omega (arith, length-drop (length ts) (overwrite 0 ts bytes)))))),
            )
        | inr none_there ↦ inr (
          none_there,
          serialize_flagged-encode ctx true (Value.interface name v) bytes
              (known, plain_without ctx v plain none_there) room,
        )
      ]
