-- ===== src/Serialize/Reading/Parts.antt =====
-- What the loops and the cases of DeserializeValue read.
use graphvent.Prelude.{
  true, ℕ, suc, ◌^◌, ◌<◌, ◌≡◌, ap, sym, refl, ◌∙◌, List, ◌++◌, some, append_assoc,
}
use graphvent.Serialize.{
  GoType, Value, Values, Entries, Fields, value, entry, field, count, count_entries, count_fields,
  type_of, Context, ok,
}
use graphvent.Serialize.Bytes.{bind_ok, big_endian}
use graphvent.Serialize.Decode.{
  read_values, read_entries, read_fields, read_field, deserialize_value, field_type, append_fields,
  set_field, append_entry,
}
use graphvent.Serialize.Encoding.{encode, encode_values, encode_entries, encode_fields}
use graphvent.Serialize.Reading.{if_true, remove_fields, LacksKey, LacksTag, read_append}
use graphvent.Serialize.Reading.Stored.{
  append_entries, append_entries-append_entry, remove_key_fresh, set_field-fields,
}

module _ (ctx : Context) where
  abbrev pub Reads : ℕ → Value → Type 0
  Reads fuel v =
      (rest : List ℕ) → deserialize_value ctx fuel (type_of v) (encode ctx v ++ rest) ≡ ok (v, rest)

  -- A value of a type that is named otherwise.
  pub at_type :
      (fuel : ℕ) (t : GoType) (v : Value) (rest : List ℕ)
      → type_of v ≡ t
      → Reads fuel v
      → deserialize_value ctx fuel t (encode ctx v ++ rest) ≡ ok (v, rest)
  at_type fuel t v rest same reads =
      ap (λ u. deserialize_value ctx fuel u (encode ctx v ++ rest)) (sym same) ∙ reads rest

  pub read_one_value :
      (fuel : ℕ) (t : GoType) (v : Value) (vs : Values) (rest : List ℕ)
      → type_of v ≡ t
      → Reads fuel v
      → read_values (deserialize_value ctx fuel t) (count vs) (encode_values ctx vs ++ rest)
        ≡ ok (vs, rest)
      → read_values
          (deserialize_value ctx fuel t)
          (suc (count vs))
          ((encode ctx v ++ encode_values ctx vs) ++ rest)
        ≡ ok (value v vs, rest)
  unfolding read_values
  read_one_value fuel t v vs rest same reads others =
      ap (read_values (deserialize_value ctx fuel t) (suc (count vs)))
        (append_assoc (encode ctx v) (encode_values ctx vs) rest)
      ∙ bind_ok _ (at_type fuel t v (encode_values ctx vs ++ rest) same reads)
          (bind_ok _ others refl)

  pub read_one_entry :
      (fuel : ℕ) (k t : GoType) (key v : Value) (es acc : Entries) (rest : List ℕ)
      → type_of key ≡ k
      → type_of v ≡ t
      → Reads fuel key
      → Reads fuel v
      → LacksKey ctx.same_key key acc
      → ctx.hashable key ≡ true
      → read_entries ctx
          (deserialize_value ctx fuel k)
          (deserialize_value ctx fuel t)
          (count_entries es)
          (append_entry key v acc)
          (encode_entries ctx es ++ rest)
        ≡ ok (append_entries (append_entry key v acc) es, rest)
      → read_entries ctx
          (deserialize_value ctx fuel k)
          (deserialize_value ctx fuel t)
          (suc (count_entries es))
          acc
          ((encode ctx key ++ (encode ctx v ++ encode_entries ctx es)) ++ rest)
        ≡ ok (append_entries acc (entry key v es), rest)
  unfolding read_entries
  read_one_entry fuel k t key v es acc rest is_key is_elem key_reads elem_reads fresh hashed
        others =
      ap
        (read_entries ctx (deserialize_value ctx fuel k) (deserialize_value ctx fuel t)
          (suc (count_entries es)) acc)
        (append_assoc (encode ctx key) (encode ctx v ++ encode_entries ctx es) rest
          ∙ ap (◌++◌ (encode ctx key)) (append_assoc (encode ctx v) (encode_entries ctx es) rest))
      ∙ bind_ok _
          (at_type fuel k key (encode ctx v ++ (encode_entries ctx es ++ rest)) is_key key_reads)
          (bind_ok _ (at_type fuel t v (encode_entries ctx es ++ rest) is_elem elem_reads) (
            if_true _ _ _ hashed
            ∙ ap
                (λ stored.
                  read_entries ctx (deserialize_value ctx fuel k) (deserialize_value ctx fuel t)
                    (count_entries es) (append_entry key v stored) (encode_entries ctx es ++ rest))
                (remove_key_fresh ctx key acc fresh)
            ∙ others
            ∙ ap (λ es'. ok (es', rest)) (append_entries-append_entry acc key v es)))

  pub read_one_field :
      (fuel : ℕ) (infos : List (ℕ × GoType)) (tag : ℕ) (v : Value) (fs acc : Fields) (rest : List ℕ)
      → tag < 256 ^ 8
      → field_type tag infos ≡ some (type_of v)
      → Reads fuel v
      → LacksTag tag fs
      → read_fields ctx
          (deserialize_value ctx fuel)
          infos
          (count_fields fs)
          (set_field tag v acc)
          (encode_fields ctx fs ++ rest)
        ≡ ok (append_fields (remove_fields fs (set_field tag v acc)) fs, rest)
      → read_fields ctx
          (deserialize_value ctx fuel)
          infos
          (suc (count_fields fs))
          acc
          ((big_endian 8 tag ++ (encode ctx v ++ encode_fields ctx fs)) ++ rest)
        ≡ ok (append_fields (remove_fields (field tag v fs) acc) (field tag v fs), rest)
  unfolding read_fields
  read_one_field fuel infos tag v fs acc rest small known reads lacks others =
      ap (read_fields ctx (deserialize_value ctx fuel) infos (suc (count_fields fs)) acc) (
        append_assoc (big_endian 8 tag) (encode ctx v ++ encode_fields ctx fs) rest
        ∙ ap (◌++◌ (big_endian 8 tag)) (append_assoc (encode ctx v) (encode_fields ctx fs) rest))
      ∙ bind_ok _ (read_append 8 tag (encode ctx v ++ (encode_fields ctx fs ++ rest)) small) (
          bind_ok _
            (ap
                (λ o.
                  read_field ctx (deserialize_value ctx fuel) tag o acc
                    (encode ctx v ++ (encode_fields ctx fs ++ rest)))
                known
              ∙ bind_ok _ (reads (encode_fields ctx fs ++ rest)) refl)
            (others ∙ ap (λ gs. ok (gs, rest)) (set_field-fields tag v fs acc lacks)))
