-- ===== src/Serialize/Sizes.antt =====
-- SerializedSize, by which a buffer is allocated for SerializeValue.
use graphvent.Prelude.{
  ℕ, Bool, true, false, ◌+◌, ◌≤◌, ◌≡◌, ap, refl, List, [], ◌∷◌, ◌++◌, length, length-append, arith,
}
use graphvent.Serialize.{
  width, Value, Values, Entries, Fields, no_values, value, no_entries, entry, no_fields, field,
  count, count_entries, count_fields, type_of, Context, Outcome, ok, ◌>>=◌,
}
use graphvent.Serialize.Bytes.{bind_ok, big_endian, length-big_endian, overwrite}
use graphvent.Serialize.Encode.{
  bool_byte, serialize_value, serialized_size, size_values, size_entries, size_fields, registered,
}
use graphvent.Serialize.Encoding.{
  stack, encode, encode_values, encode_entries, encode_fields, IsPlain, IsPlainAt, ArePlain,
  EntriesArePlain, FieldsArePlain,
}
use graphvent.Serialize.Encoding.Stacks.{length-three}
use graphvent.Serialize.Encoding.Whole.{serialize_value-encode}

module _ (ctx : Context) where
  -- The 128 bytes that SerializedSize reckons for the type in an interface are enough.
  unfoldable mutual
    pub HasShortStacks : Value → Type 0
    HasShortStacks (Value.pointer v) = HasShortStacks v
    HasShortStacks (Value.slice t vs) = HaveShortStacks vs
    HasShortStacks (Value.array t vs) = HaveShortStacks vs
    HasShortStacks (Value.map k t es) = EntriesHaveShortStacks es
    HasShortStacks (Value.struct name fs) = FieldsHaveShortStacks fs
    HasShortStacks (Value.interface name v) =
        (length (stack ctx (type_of v)) ≤ 128) × HasShortStacks v
    HasShortStacks v = Unit

    HaveShortStacks : Values → Type 0
    HaveShortStacks no_values = Unit
    HaveShortStacks (value v vs) = HasShortStacks v × HaveShortStacks vs

    EntriesHaveShortStacks : Entries → Type 0
    EntriesHaveShortStacks no_entries = Unit
    EntriesHaveShortStacks (entry k v es) =
        HasShortStacks k × HasShortStacks v × EntriesHaveShortStacks es

    FieldsHaveShortStacks : Fields → Type 0
    FieldsHaveShortStacks no_fields = Unit
    FieldsHaveShortStacks (field tag v fs) = HasShortStacks v × FieldsHaveShortStacks fs

  -- A size was returned, and it is at least the bytes reckoned before and those of the encoding.
  abbrev Covers : Outcome ℕ → ℕ → List ℕ → Type 0
  Covers o before bs = (n : ℕ) × (o ≡ ok n) × (before + length bs ≤ n)

  Covers-exact : (n before : ℕ) (bs : List ℕ) → before + length bs ≡ n → Covers (ok n) before bs
  Covers-exact n before bs e = (n, refl, omega (arith, e))

  -- A size that another is made of.
  Covers-more :
      (o : Outcome ℕ) (before before' : ℕ) (xs bs : List ℕ) (f : ℕ → ℕ)
      → ((n : ℕ) → before + length xs ≤ n → before' + length bs ≤ f n)
      → Covers o before xs
      → Covers (o >>= λ n. ok (f n)) before' bs
  Covers-more o before before' xs bs f le c = (f c.0, bind_ok _ c.1 refl, le c.0 c.2)

  -- A size, and the loop that goes on with it.
  Covers-then :
      (o : Outcome ℕ) (f : ℕ → Outcome ℕ) (before : ℕ) (xs bs : List ℕ)
      → Covers o 0 xs
      → ((n : ℕ) → length xs ≤ n → Covers (f n) before bs)
      → Covers (o >>= f) before bs
  Covers-then o f before xs bs c next =
      let r : Covers (f c.0) before bs = next c.0 (omega (arith, c.2)) in
      (r.0, bind_ok f c.1 r.1, r.2)

  counted_le :
      (m : ℕ) (ys : List ℕ) (n : ℕ)
      → 0 + length ys ≤ n
      → 0 + length (1 ∷ (big_endian 8 m ++ ys)) ≤ 9 + n
  counted_le m ys n le = omega (arith, length-append (big_endian 8 m) ys, length-big_endian 8 m)

  mutual
    unfolding serialized_size encode IsPlainAt HasShortStacks

    size-Covers :
        (addr : Bool) (v : Value)
        → IsPlainAt ctx addr v
        → HasShortStacks v
        → Covers (serialized_size ctx v) 0 (encode ctx v)
    size-Covers addr (Value.bool b) h s = Covers-exact 1 0 (bool_byte b ∷ []) refl
    size-Covers addr (Value.num k n) h s =
        Covers-exact (width k) 0 (big_endian (width k) n)
          (omega (arith, length-big_endian (width k) n))
    size-Covers addr (Value.string t) h s =
        Covers-exact (8 + length t) 0 (big_endian 8 (length t) ++ t)
          (omega (arith, length-append (big_endian 8 (length t)) t, length-big_endian 8 (length t)))
    size-Covers addr (Value.id t) h s = Covers-exact 16 0 t (omega (arith, h.1))
    size-Covers addr (Value.nil_pointer t) h s = Covers-exact 1 0 (0 ∷ []) refl
    size-Covers addr (Value.pointer v) h s =
        Covers-more _ 0 0 (encode ctx v) (1 ∷ encode ctx v) (λ n. 1 + n) (λ n le. omega arith)
          (size-Covers true v h s)
    size-Covers addr (Value.nil_slice t) h s = absurd h
    size-Covers addr (Value.slice t vs) h s =
        Covers-more _ 0 0 (encode_values ctx vs)
          (1 ∷ (big_endian 8 (count vs) ++ encode_values ctx vs)) (λ n. 9 + n)
          (λ n le. counted_le (count vs) (encode_values ctx vs) n le) (values_cover true vs 0 h s)
    size-Covers addr (Value.array t vs) h s = values_cover addr vs 0 h s
    size-Covers addr (Value.nil_map k t) h s = Covers-exact 1 0 (0 ∷ []) refl
    size-Covers addr (Value.map k t es) h s =
        Covers-more _ 0 0 (encode_entries ctx es)
          (1 ∷ (big_endian 8 (count_entries es) ++ encode_entries ctx es)) (λ n. 9 + n)
          (λ n le. counted_le (count_entries es) (encode_entries ctx es) n le)
          (entries_cover es 0 h s)
    size-Covers addr (Value.struct name fs) h s =
        let c : Covers (size_fields ctx fs 0) 0 (encode_fields ctx fs) =
          fields_cover addr fs 0 h.1 s in
        (
          8 + c.0,
          bind_ok _ (ap registered h.0.1) (bind_ok _ c.1 refl),
          omega (
            arith,
            c.2,
            length-append (big_endian 8 (count_fields fs)) (encode_fields ctx fs),
            length-big_endian 8 (count_fields fs),
          ),
        )
    size-Covers addr (Value.nil_interface name) h s = absurd h
    size-Covers addr (Value.interface name v) h s =
        Covers-more _ 0 0 (encode ctx v) (stack ctx (type_of v) ++ encode ctx v) (λ n. 128 + n)
          (λ n le. omega (arith, s.0, length-append (stack ctx (type_of v)) (encode ctx v)))
          (size-Covers false v h.1 s.1)
    size-Covers addr (Value.other name) h s = absurd h

    values_cover :
        (addr : Bool) (vs : Values) (total : ℕ)
        → ArePlain ctx addr vs
        → HaveShortStacks vs
        → Covers (size_values ctx vs total) total (encode_values ctx vs)
    values_cover addr no_values total h s = Covers-exact total total [] (omega arith)
    values_cover addr (value v vs) total h s =
        Covers-then _ _ total (encode ctx v) _ (size-Covers addr v h.0 s.0) (λ n le.
          (let c : Covers (size_values ctx vs (total + n)) (total + n) (encode_values ctx vs) =
              values_cover addr vs (total + n) h.1 s.1 in
            (c.0, c.1, omega (arith, c.2, length-append (encode ctx v) (encode_values ctx vs)))))

    entries_cover :
        (es : Entries) (total : ℕ)
        → EntriesArePlain ctx es
        → EntriesHaveShortStacks es
        → Covers (size_entries ctx es total) total (encode_entries ctx es)
    entries_cover no_entries total h s = Covers-exact total total [] (omega arith)
    entries_cover (entry k v es) total h s =
        Covers-then _ _ total (encode ctx k) _ (size-Covers true k h.0 s.0) (λ m le.
          Covers-then _ _ total (encode ctx v) _ (size-Covers true v h.1 s.1) (λ n le'.
            (let c : Covers (size_entries ctx es (total + m + n)) (total + m + n)
                  (encode_entries ctx es) =
                entries_cover es (total + m + n) h.2 s.2 in
              (
                c.0,
                c.1,
                omega (
                  arith,
                  c.2,
                  le,
                  le',
                  length-three (encode ctx k) (encode ctx v) (encode_entries ctx es),
                ),
              ))))

    fields_cover :
        (addr : Bool) (fs : Fields) (total : ℕ)
        → FieldsArePlain ctx addr fs
        → FieldsHaveShortStacks fs
        → Covers (size_fields ctx fs total) total (encode_fields ctx fs)
    fields_cover addr no_fields total h s = Covers-exact total total [] (omega arith)
    fields_cover addr (field tag v fs) total h s =
        Covers-then _ _ total (encode ctx v) _ (size-Covers addr v h.0 s.0) (λ n le.
          (let c : Covers (size_fields ctx fs (total + 8 + n)) (total + 8 + n)
                (encode_fields ctx fs) =
              fields_cover addr fs (total + 8 + n) h.1 s.1 in
            (
              c.0,
              c.1,
              omega (
                arith,
                c.2,
                le,
                length-big_endian 8 tag,
                length-three (big_endian 8 tag) (encode ctx v) (encode_fields ctx fs),
              ),
            )))

  -- SerializedSize of a plain value whose interfaces hold types of at most 128 bytes returns a
  -- number, and SerializeValue into any buffer of that many bytes or more returns too, having put
  -- the value's encoding at the start.
  pub serialized_size-serialize_value :
      (v : Value)
      → IsPlain ctx v
      → HasShortStacks v
      → (n : ℕ) × (serialized_size ctx v ≡ ok n)
        × ((bytes : List ℕ)
            → n ≤ length bytes
            → serialize_value ctx v bytes
              ≡ ok (overwrite 0 (encode ctx v) bytes, length (encode ctx v)))
  serialized_size-serialize_value v plain short =
      let c : Covers (serialized_size ctx v) 0 (encode ctx v) = size-Covers true v plain short in
      (c.0, c.1, λ bytes room. serialize_value-encode ctx v bytes plain (omega (arith, c.2)))
