-- ===== src/Serialize/Reading/Cases.antt =====
-- The cases of DeserializeValue, one for a kind of type.
use graphvent.Prelude.{
  ℕ, suc, ◌^◌, ◌<◌, ◌≤◌, ◌≡◌, ap, ap₂, sym, refl, ◌∙◌, true, false, List, ◌∷◌, ◌++◌, Option, some,
  append_assoc, length, length-append, take, drop, take-length-append, drop-length-append, ltb,
  arith,
}
use graphvent.Serialize.{
  GoType, Value, Values, Entries, Fields, no_entries, count, count_entries, count_fields, type_of,
  TypeInfo, Context, ok,
}
use graphvent.Serialize.Bytes.{bind_ok, big_endian}
use graphvent.Serialize.Decode.{
  post_deserialize, read_values, read_entries, read_fields, read_struct, read_type,
  deserialize_value, unwrap_stack, addressable, into_interface,
}
use graphvent.Serialize.Encoding.{stack, encode, encode_values, encode_entries, encode_fields}
use graphvent.Serialize.Reading.{
  IsNotInterface, split_append, read_append, read_byte, int_fits, uint64_fits, if_true, if_false,
}
use graphvent.Serialize.Reading.Parts.{Reads}

module _ (ctx : Context) where
  pub read_string :
      (fuel : ℕ) (s rest : List ℕ)
      → length s < 2 ^ 63
      → deserialize_value ctx (suc fuel) GoType.string ((big_endian 8 (length s) ++ s) ++ rest)
        ≡ ok (Value.string s, rest)
  unfolding deserialize_value read_type
  read_string fuel s rest small =
      ap (deserialize_value ctx (suc fuel) GoType.string)
        (append_assoc (big_endian 8 (length s)) s rest)
      ∙ bind_ok _ (read_append 8 (length s) (s ++ rest) (uint64_fits (length s) small)) (
          bind_ok _
            (if_false _ _ _ (int_fits (length s) small) ∙ split_append s rest (length s) refl) refl)

  pub read_id :
      (fuel : ℕ) (s rest : List ℕ)
      → length s ≡ 16
      → deserialize_value ctx (suc fuel) GoType.id (s ++ rest) ≡ ok (Value.id s, rest)
  unfolding deserialize_value read_type
  read_id fuel s rest long =
      if_false _ _ _ (enough (length (s ++ rest)) (omega (arith, long, length-append s rest)))
      ∙ ap₂ (λ l r. ok (Value.id l, r))
          (ap (λ n. take n (s ++ rest)) (sym long) ∙ take-length-append s rest)
          (ap (λ n. drop n (s ++ rest)) (sym long) ∙ drop-length-append s rest)
    where
      enough : (n : ℕ) → 16 ≤ n → ltb n 16 ≡ false
      enough n h = ground arith

  pub read_pointer :
      (fuel : ℕ) (v : Value) (rest : List ℕ)
      → addressable v ≡ true
      → Reads ctx fuel v
      → deserialize_value ctx (suc fuel) (GoType.pointer (type_of v)) (1 ∷ (encode ctx v ++ rest))
        ≡ ok (Value.pointer v, rest)
  unfolding deserialize_value read_type
  read_pointer fuel v rest has_address reads =
      bind_ok _ (read_byte 1 (encode ctx v ++ rest))
        (bind_ok _ (reads rest) (bind_ok _ (if_true _ _ _ has_address) refl))

  pub read_slice :
      (fuel : ℕ) (t : GoType) (vs : Values) (rest : List ℕ)
      → count vs < 2 ^ 63
      → read_values (deserialize_value ctx fuel t) (count vs) (encode_values ctx vs ++ rest)
        ≡ ok (vs, rest)
      → deserialize_value ctx
          (suc fuel)
          (GoType.slice t)
          (1 ∷ ((big_endian 8 (count vs) ++ encode_values ctx vs) ++ rest))
        ≡ ok (Value.slice t vs, rest)
  unfolding deserialize_value read_type
  read_slice fuel t vs rest small reads =
      ap (λ bs. deserialize_value ctx (suc fuel) (GoType.slice t) (1 ∷ bs))
        (append_assoc (big_endian 8 (count vs)) (encode_values ctx vs) rest)
      ∙ bind_ok _ (read_byte 1 (big_endian 8 (count vs) ++ (encode_values ctx vs ++ rest))) (
          bind_ok _
            (read_append 8 (count vs) (encode_values ctx vs ++ rest) (uint64_fits (count vs) small))
            (bind_ok _ (if_false _ _ _ (int_fits (count vs) small) ∙ reads) refl))

  pub read_array :
      (fuel : ℕ) (t : GoType) (vs : Values) (rest : List ℕ)
      → read_values (deserialize_value ctx fuel t) (count vs) (encode_values ctx vs ++ rest)
        ≡ ok (vs, rest)
      → deserialize_value ctx (suc fuel) (GoType.array (count vs) t) (encode_values ctx vs ++ rest)
        ≡ ok (Value.array t vs, rest)
  unfolding deserialize_value read_type
  read_array fuel t vs rest reads = bind_ok _ reads refl

  pub read_map :
      (fuel : ℕ) (k t : GoType) (es : Entries) (rest : List ℕ)
      → count_entries es < 2 ^ 63
      → read_entries ctx
          (deserialize_value ctx fuel k)
          (deserialize_value ctx fuel t)
          (count_entries es)
          no_entries
          (encode_entries ctx es ++ rest)
        ≡ ok (es, rest)
      → deserialize_value ctx
          (suc fuel)
          (GoType.map k t)
          (1 ∷ ((big_endian 8 (count_entries es) ++ encode_entries ctx es) ++ rest))
        ≡ ok (Value.map k t es, rest)
  unfolding deserialize_value read_type
  read_map fuel k t es rest small reads =
      ap (λ bs. deserialize_value ctx (suc fuel) (GoType.map k t) (1 ∷ bs))
        (append_assoc (big_endian 8 (count_entries es)) (encode_entries ctx es) rest)
      ∙ bind_ok _ (read_byte 1 (big_endian 8 (count_entries es) ++ (encode_entries ctx es ++ rest)))
          (bind_ok _
            (read_append 8 (count_entries es) (encode_entries ctx es ++ rest)
              (uint64_fits (count_entries es) small))
            (bind_ok _
              (ap
                  (λ n.
                    read_entries ctx (deserialize_value ctx fuel k) (deserialize_value ctx fuel t) n
                      no_entries (encode_entries ctx es ++ rest))
                  (if_false _ _ _ (int_fits (count_entries es) small))
                ∙ reads)
              refl))

  pub read_struct_fields :
      (fuel name : ℕ) (info : TypeInfo) (o : Option TypeInfo) (fs : Fields) (rest : List ℕ)
      → o ≡ some info
      → post_deserialize ctx name info.post_deserialize fs ≡ ok fs
      → count_fields fs < 2 ^ 63
      → read_fields ctx
          (deserialize_value ctx fuel)
          info.fields
          (count_fields fs)
          (ctx.zero_fields name)
          (encode_fields ctx fs ++ rest)
        ≡ ok (fs, rest)
      → read_struct ctx
          (deserialize_value ctx fuel)
          name
          o
          ((big_endian 8 (count_fields fs) ++ encode_fields ctx fs) ++ rest)
        ≡ ok (Value.struct name fs, rest)
  read_struct_fields fuel name info o fs rest known method small reads =
      ap₂ (λ o' bs. read_struct ctx (deserialize_value ctx fuel) name o' bs) known
        (append_assoc (big_endian 8 (count_fields fs)) (encode_fields ctx fs) rest)
      ∙ bind_ok _
          (read_append 8 (count_fields fs) (encode_fields ctx fs ++ rest)
            (uint64_fits (count_fields fs) small))
          (bind_ok _
            (ap
                (λ n.
                  read_fields ctx (deserialize_value ctx fuel) info.fields n (ctx.zero_fields name)
                    (encode_fields ctx fs ++ rest))
                (if_false _ _ _ (int_fits (count_fields fs) small))
              ∙ reads)
            (bind_ok _ method refl))

  into_interface_other :
      (name : ℕ) (v : Value) → IsNotInterface v → into_interface name v ≡ Value.interface name v
  into_interface_other name (Value.bool b) h = refl
  into_interface_other name (Value.num k n) h = refl
  into_interface_other name (Value.string s) h = refl
  into_interface_other name (Value.id s) h = refl
  into_interface_other name (Value.nil_pointer t) h = refl
  into_interface_other name (Value.pointer v) h = refl
  into_interface_other name (Value.nil_slice t) h = refl
  into_interface_other name (Value.slice t vs) h = refl
  into_interface_other name (Value.array t vs) h = refl
  into_interface_other name (Value.nil_map k t) h = refl
  into_interface_other name (Value.map k t es) h = refl
  into_interface_other name (Value.struct n fs) h = refl
  into_interface_other name (Value.other n) h = refl
  into_interface_other name (Value.nil_interface n) h = absurd h
  into_interface_other name (Value.interface n v) h = absurd h

  pub read_interface :
      (fuel name : ℕ) (v : Value) (rest : List ℕ)
      → IsNotInterface v
      → ctx.implements name (type_of v) ≡ true
      → unwrap_stack ctx fuel (stack ctx (type_of v) ++ (encode ctx v ++ rest))
        ≡ ok (type_of v, encode ctx v ++ rest)
      → Reads ctx fuel v
      → deserialize_value ctx
          (suc fuel)
          (GoType.interface name)
          ((stack ctx (type_of v) ++ encode ctx v) ++ rest)
        ≡ ok (Value.interface name v, rest)
  unfolding deserialize_value read_type
  read_interface fuel name v rest concrete implements unwraps reads =
      ap (deserialize_value ctx (suc fuel) (GoType.interface name))
        (append_assoc (stack ctx (type_of v)) (encode ctx v) rest)
      ∙ bind_ok _ unwraps (
          bind_ok _ (reads rest) (
            if_true _ _ _ implements
            ∙ ap (λ w. ok (w, rest)) (into_interface_other name v concrete)))
