-- ===== src/Serialize/Reading/RoundTrip.antt =====
-- DeserializeValue on the bytes that values stand for.
use graphvent.Prelude.{ℕ, suc, zero, ◌≤◌, ◌≡◌, ap, sym, refl, ◌∙◌, true, false, List, ◌++◌, arith}
use graphvent.Serialize.{
  width, GoType, Value, Values, Entries, Fields, no_values, value, no_entries, entry, no_fields,
  field, count, count_entries, count_fields, type_of, Context, ok,
}
use graphvent.Serialize.Bytes.{bind_ok}
use graphvent.Serialize.Decode.{
  read_values, read_entries, read_fields, read_type, deserialize_value, append_fields, set_field,
  append_entry,
}
use graphvent.Serialize.Encoding.{encode, encode_values, encode_entries, encode_fields}
use graphvent.Serialize.Reading.{
  IsRegistry, size, size_values, size_entries, size_fields, remove_fields, AreFresh, IsReadable,
  AreReadable, EntriesAreReadable, FieldsAreReadable, read_append, read_byte,
}
use graphvent.Serialize.Reading.Stacks.{unwrap_stack-stack}
use graphvent.Serialize.Reading.Stored.{append_entries}
use graphvent.Serialize.Reading.Parts.{Reads, read_one_value, read_one_entry, read_one_field}
use graphvent.Serialize.Reading.Cases.{
  read_string, read_id, read_pointer, read_slice, read_array, read_map, read_struct_fields,
  read_interface,
}

no_fuel : (v : Value) → size v ≤ 0 → ⊥
unfolding size
no_fuel (Value.bool b) h = omega arith
no_fuel (Value.num k n) h = omega arith
no_fuel (Value.string s) h = omega arith
no_fuel (Value.id s) h = omega arith
no_fuel (Value.nil_pointer t) h = omega arith
no_fuel (Value.pointer v) h = omega arith
no_fuel (Value.nil_slice t) h = omega arith
no_fuel (Value.slice t vs) h = omega arith
no_fuel (Value.array t vs) h = omega arith
no_fuel (Value.nil_map k t) h = omega arith
no_fuel (Value.map k t es) h = omega arith
no_fuel (Value.struct n fs) h = omega arith
no_fuel (Value.nil_interface n) h = omega arith
no_fuel (Value.interface n v) h = omega arith
no_fuel (Value.other n) h = omega arith

append_entries-nothing : (acc : Entries) → append_entries acc no_entries ≡ acc
append_entries-nothing no_entries = refl
append_entries-nothing (entry k v acc) = ap (entry k v) (append_entries-nothing acc)

append_fields-nothing : (acc : Fields) → append_fields acc no_fields ≡ acc
append_fields-nothing no_fields = refl
append_fields-nothing (field t v acc) = ap (field t v) (append_fields-nothing acc)

module _ (ctx : Context) (registry : IsRegistry ctx) where
  mutual
    unfolding encode IsReadable size deserialize_value read_type read_values read_entries
        read_fields

    pub deserialize_value-encode :
        (v : Value) (fuel : ℕ) → size v ≤ fuel → IsReadable ctx v → Reads ctx fuel v
    deserialize_value-encode (Value.bool true) (suc fuel) enough h rest =
        bind_ok _ (read_byte 255 rest) refl
    deserialize_value-encode (Value.bool false) (suc fuel) enough h rest =
        bind_ok _ (read_byte 0 rest) refl
    deserialize_value-encode (Value.num k n) (suc fuel) enough h rest =
        bind_ok _ (read_append (width k) n rest h) refl
    deserialize_value-encode (Value.string s) (suc fuel) enough h rest =
        read_string ctx fuel s rest h
    deserialize_value-encode (Value.id s) (suc fuel) enough h rest = read_id ctx fuel s rest h
    deserialize_value-encode (Value.nil_pointer t) (suc fuel) enough h rest =
        bind_ok _ (read_byte 0 rest) refl
    deserialize_value-encode (Value.pointer v) (suc fuel) enough h rest =
        read_pointer ctx fuel v rest h.0 (deserialize_value-encode v fuel (omega arith) h.1)
    deserialize_value-encode (Value.nil_slice t) (suc fuel) enough h rest =
        bind_ok _ (read_byte 0 rest) refl
    deserialize_value-encode (Value.slice t vs) (suc fuel) enough h rest =
        read_slice ctx fuel t vs rest h.0 (read_values-encode vs fuel t (omega arith) h.1 rest)
    deserialize_value-encode (Value.array t vs) (suc fuel) enough h rest =
        read_array ctx fuel t vs rest (read_values-encode vs fuel t (omega arith) h rest)
    deserialize_value-encode (Value.nil_map k t) (suc fuel) enough h rest =
        bind_ok _ (read_byte 0 rest) refl
    deserialize_value-encode (Value.map k t es) (suc fuel) enough h rest =
        read_map ctx fuel k t es rest h.0
          (read_entries-encode es fuel k t no_entries (omega arith) h.1 h.2 rest)
    deserialize_value-encode (Value.struct name fs) (suc fuel) enough h rest =
        read_struct_fields ctx fuel name h.0 (ctx.types (GoType.struct name)) fs rest h.1 h.2 h.3 (
          read_fields-encode fs fuel h.0.fields (ctx.zero_fields name) (omega arith) h.5 rest
          ∙ ap (λ gs. ok (append_fields gs fs, rest)) h.4)
    deserialize_value-encode (Value.interface name v) (suc fuel) enough h rest =
        read_interface ctx fuel name v rest h.0 h.3
          (unwrap_stack-stack ctx registry (type_of v) fuel (omega arith) h.1 h.2
            (encode ctx v ++ rest))
          (deserialize_value-encode v fuel (omega arith) h.4)
    deserialize_value-encode (Value.nil_interface name) (suc fuel) enough h rest = absurd h
    deserialize_value-encode (Value.other name) (suc fuel) enough h rest = absurd h
    deserialize_value-encode v zero enough h rest = absurd (no_fuel v enough)

    read_values-encode :
        (vs : Values) (fuel : ℕ) (t : GoType)
        → size_values vs ≤ fuel
        → AreReadable ctx t vs
        → (rest : List ℕ)
        → read_values (deserialize_value ctx fuel t) (count vs) (encode_values ctx vs ++ rest)
          ≡ ok (vs, rest)
    read_values-encode no_values fuel t enough h rest = refl
    read_values-encode (value v vs) fuel t enough h rest =
        read_one_value ctx fuel t v vs rest h.0 (deserialize_value-encode v fuel (omega arith) h.1)
          (read_values-encode vs fuel t (omega arith) h.2 rest)

    read_entries-encode :
        (es : Entries) (fuel : ℕ) (k t : GoType) (acc : Entries)
        → size_entries es ≤ fuel
        → AreFresh ctx.same_key acc es
        → EntriesAreReadable ctx k t es
        → (rest : List ℕ)
        → read_entries ctx
            (deserialize_value ctx fuel k)
            (deserialize_value ctx fuel t)
            (count_entries es)
            acc
            (encode_entries ctx es ++ rest)
          ≡ ok (append_entries acc es, rest)
    read_entries-encode no_entries fuel k t acc enough fresh h rest =
        ap (λ es. ok (es, rest)) (sym (append_entries-nothing acc))
    read_entries-encode (entry key v es) fuel k t acc enough fresh h rest =
        read_one_entry ctx fuel k t key v es acc rest h.0 h.1
          (deserialize_value-encode key fuel (omega arith) h.2)
          (deserialize_value-encode v fuel (omega arith) h.3) fresh.0 h.4
          (read_entries-encode es fuel k t (append_entry key v acc) (omega arith) fresh.1 h.5 rest)

    read_fields-encode :
        (fs : Fields) (fuel : ℕ) (infos : List (ℕ × GoType)) (acc : Fields)
        → size_fields fs ≤ fuel
        → FieldsAreReadable ctx infos fs
        → (rest : List ℕ)
        → read_fields ctx
            (deserialize_value ctx fuel)
            infos
            (count_fields fs)
            acc
            (encode_fields ctx fs ++ rest)
          ≡ ok (append_fields (remove_fields fs acc) fs, rest)
    read_fields-encode no_fields fuel infos acc enough h rest =
        ap (λ gs. ok (gs, rest)) (sym (append_fields-nothing acc))
    read_fields-encode (field tag v fs) fuel infos acc enough h rest =
        read_one_field ctx fuel infos tag v fs acc rest h.0 h.1
          (deserialize_value-encode v fuel (omega arith) h.2) h.3
          (read_fields-encode fs fuel infos (set_field tag v acc) (omega arith) h.4 rest)
