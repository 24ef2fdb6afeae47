-- ===== src/Serialize/Encoding/Whole.antt =====
-- SerializeValue and SerializedSize on plain values.
use mathlib.Core.Bool.{false≢true}
use graphvent.Prelude.{
  ℕ, Bool, true, false, ◌+◌, ◌≤◌, ◌≡◌, refl, ap, ◌∙◌, sym, List, [], ◌∷◌, ◌++◌, Option, some,
  length, length-append, arith,
}
use graphvent.Serialize.{
  width, GoType, Value, Values, Entries, Fields, no_values, value, no_entries, entry, no_fields,
  field, count, count_entries, count_fields, TypeInfo, Context, Outcome, ok, ◌>>=◌,
}
use graphvent.Serialize.Bytes.{
  bind_ok, big_endian, length-big_endian, overwrite, put, put_fits, copy_fits, length-overwrite,
}
use graphvent.Serialize.Encode.{
  serialize_flagged, serialize_values, serialize_entries, serialize_fields, put_uint64, bool_byte,
  registered,
}
use graphvent.Serialize.Encoding.{
  encode, encode_values, encode_entries, encode_fields, IsPlainAt, ArePlain, EntriesArePlain,
  FieldsArePlain,
}
use graphvent.Serialize.Encoding.Stacks.{joined}
use graphvent.Serialize.Encoding.Writes.{
  counted, Writes, string_writes, pointer_writes, interface_writes,
}
use graphvent.Serialize.Encoding.Loops.{nothing, element_writes, entry_writes, field_writes}

module _ (ctx : Context) where
  struct_writes :
      (addr : Bool) (info : TypeInfo) (o : Option TypeInfo) (fs : Fields) (bytes : List ℕ)
      → o ≡ some info
      → length info.fields ≡ count_fields fs
      → ((out : List ℕ)
          → 8 + length (encode_fields ctx fs) ≤ length out
          → serialize_fields ctx addr fs 0 out
            ≡ ok (overwrite 8 (encode_fields ctx fs) out, 0 + length (encode_fields ctx fs)))
      → length (big_endian 8 (count_fields fs) ++ encode_fields ctx fs) ≤ length bytes
      → Path
          (Outcome (List ℕ × ℕ))
          (registered o >>= λ info. put_uint64 0 (length info.fields) bytes >>= λ out.
            serialize_fields ctx addr fs 0 out >>= λ r. ok (r.0, 8 + r.1))
          (ok (
            overwrite 0 (big_endian 8 (count_fields fs) ++ encode_fields ctx fs) bytes,
            length (big_endian 8 (count_fields fs) ++ encode_fields ctx fs),
          ))
  struct_writes addr info o fs bytes is_some many runs room =
      let size : List ℕ = big_endian 8 (count_fields fs) in
      let ys : List ℕ = encode_fields ctx fs in
      let eight : length size ≡ 8 = length-big_endian 8 (count_fields fs) in
      let total : length (size ++ ys) ≡ length size + length ys = length-append size ys in
      let same : length (overwrite 0 size bytes) ≡ length bytes =
        length-overwrite 0 size bytes (omega arith) in
      bind_ok _ (ap registered is_some) (
        bind_ok _ (ap (λ n. put_uint64 0 n bytes) many ∙ put_fits 0 size bytes (omega arith)) (
          bind_ok _ (runs (overwrite 0 size bytes) (omega arith)) (
            joined 0 8 size ys bytes (8 + (0 + length ys)) (length (size ++ ys)) (omega arith)
              (omega arith) (omega arith))))

  written :
      (bs bytes : List ℕ) (n : ℕ)
      → length bs ≡ n
      → length bs ≤ length bytes
      → Path
          (Outcome (List ℕ × ℕ))
          (put 0 bs bytes >>= λ out. ok (out, n))
          (ok (overwrite 0 bs bytes, length bs))
  written bs bytes n e room =
      bind_ok _ (put_fits 0 bs bytes (omega arith)) (ap (λ m. ok (overwrite 0 bs bytes, m)) (sym e))

  mutual
    unfolding serialize_flagged encode IsPlainAt

    pub serialize_flagged-encode : (addr : Bool) (v : Value) → Writes ctx addr v
    serialize_flagged-encode addr (Value.bool b) bytes h room =
        written (bool_byte b ∷ []) bytes 1 refl room
    serialize_flagged-encode addr (Value.num k n) bytes h room =
        written (big_endian (width k) n) bytes (width k) (length-big_endian (width k) n) room
    serialize_flagged-encode addr (Value.string s) bytes h room = string_writes ctx s bytes room
    serialize_flagged-encode true (Value.id s) bytes h room =
        bind_ok _ (copy_fits 0 s bytes (omega (arith, room)))
          (ap (λ m. ok (overwrite 0 s bytes, m)) (sym h.1))
    serialize_flagged-encode false (Value.id s) bytes h room = absurd (false≢true h.0)
    serialize_flagged-encode addr (Value.nil_pointer t) bytes h room =
        written (0 ∷ []) bytes 1 refl room
    serialize_flagged-encode addr (Value.pointer v) bytes h room =
        pointer_writes ctx v bytes (serialize_flagged-encode true v) h room
    serialize_flagged-encode addr (Value.nil_slice t) bytes h room = absurd h
    serialize_flagged-encode addr (Value.slice t vs) bytes h room =
        counted (count vs) (encode_values ctx vs) bytes (serialize_values ctx true 9 vs 0)
          (λ out r. serialize_values-encode true vs 9 0 9 out refl h r) room
    serialize_flagged-encode addr (Value.array t vs) bytes h room =
        serialize_values-encode addr vs 0 0 0 bytes refl h (omega (arith, room))
        ∙ ap (λ m. ok (overwrite 0 (encode_values ctx vs) bytes, m)) (omega arith)
    serialize_flagged-encode addr (Value.nil_map k t) bytes h room =
        written (0 ∷ []) bytes 1 refl room
    serialize_flagged-encode addr (Value.map k t es) bytes h room =
        counted (count_entries es) (encode_entries ctx es) bytes (serialize_entries ctx es 0)
          (λ out r. serialize_entries-encode es 9 0 out refl h r) room
    serialize_flagged-encode addr (Value.struct name fs) bytes h room =
        struct_writes addr h.0.0 (ctx.types (GoType.struct name)) fs bytes h.0.1 h.0.2
          (λ out r. serialize_fields-encode addr fs 8 0 out refl h.1 r) room
    serialize_flagged-encode addr (Value.nil_interface name) bytes h room = absurd h
    serialize_flagged-encode addr (Value.interface name v) bytes h room =
        interface_writes ctx v bytes (serialize_flagged-encode false v) h.0 h.1 room
    serialize_flagged-encode addr (Value.other name) bytes h room = absurd h

    serialize_values-encode :
        (addr : Bool) (vs : Values) (base total off : ℕ) (bytes : List ℕ)
        → off ≡ base + total
        → ArePlain ctx addr vs
        → off + length (encode_values ctx vs) ≤ length bytes
        → serialize_values ctx addr base vs total bytes
          ≡ ok (overwrite off (encode_values ctx vs) bytes, total + length (encode_values ctx vs))
    serialize_values-encode addr no_values base total off bytes at h room =
        nothing ctx off total bytes room
    serialize_values-encode addr (value v vs) base total off bytes at h room =
        element_writes ctx addr off base total v vs bytes at (serialize_flagged-encode addr v) h.0
          (λ out off' total' at' r. serialize_values-encode addr vs base total' off' out at' h.1 r)
          room

    serialize_entries-encode :
        (es : Entries) (off total : ℕ) (bytes : List ℕ)
        → off ≡ 9 + total
        → EntriesArePlain ctx es
        → off + length (encode_entries ctx es) ≤ length bytes
        → serialize_entries ctx es total bytes
          ≡ ok (overwrite off (encode_entries ctx es) bytes, total + length (encode_entries ctx es))
    serialize_entries-encode no_entries off total bytes at h room = nothing ctx off total bytes room
    serialize_entries-encode (entry k v es) off total bytes at h room =
        entry_writes ctx off total k v es bytes at (serialize_flagged-encode true k)
          (serialize_flagged-encode true v) h.0 h.1
          (λ out off' total' at' r. serialize_entries-encode es off' total' out at' h.2 r) room

    serialize_fields-encode :
        (addr : Bool) (fs : Fields) (off total : ℕ) (bytes : List ℕ)
        → off ≡ 8 + total
        → FieldsArePlain ctx addr fs
        → off + length (encode_fields ctx fs) ≤ length bytes
        → serialize_fields ctx addr fs total bytes
          ≡ ok (overwrite off (encode_fields ctx fs) bytes, total + length (encode_fields ctx fs))
    serialize_fields-encode addr no_fields off total bytes at h room =
        nothing ctx off total bytes room
    serialize_fields-encode addr (field tag v fs) off total bytes at h room =
        field_writes ctx addr off total tag v fs bytes at (serialize_flagged-encode addr v) h.0
          (λ out off' total' at' r. serialize_fields-encode addr fs off' total' out at' h.1 r) room

  pub serialize_value-encode : (v : Value) → Writes ctx true v
  serialize_value-encode v = serialize_flagged-encode true v
