-- ===== src/Serialize/Encoding/Loops.antt =====
-- What the loops of SerializeValue write.
use graphvent.Prelude.{
  ℕ, Bool, true, ◌+◌, ◌≤◌, ◌≡◌, refl, ap, ap₂, ◌∙◌, sym, List, [], ◌++◌, length, length-append,
  arith,
}
use graphvent.Serialize.{Value, Values, Entries, Fields, Context, Outcome, ok, ◌>>=◌}
use graphvent.Serialize.Bytes.{
  bind_ok, big_endian, length-big_endian, overwrite, within, put, put_fits, length-overwrite,
  overwrite_nothing,
}
use graphvent.Serialize.Encode.{
  serialize_flagged, serialize_values, serialize_entries, serialize_fields, put_uint64,
}
use graphvent.Serialize.Encoding.{encode, encode_values, encode_entries, encode_fields, IsPlainAt}
use graphvent.Serialize.Encoding.Stacks.{joined, joined_three, length-three}
use graphvent.Serialize.Encoding.Writes.{Writes, behind}

module _ (ctx : Context) where
  pub nothing :
      (off total : ℕ) (bytes : List ℕ)
      → off + 0 ≤ length bytes
      → Path (Outcome (List ℕ × ℕ)) (ok (bytes, total)) (ok (overwrite off [] bytes, total + 0))
  nothing off total bytes room =
      ap₂ (λ l n. ok (l, n)) (sym (overwrite_nothing off bytes (omega arith))) (omega arith)

  pub element_writes :
      (addr : Bool) (off base total : ℕ) (v : Value) (vs : Values) (bytes : List ℕ)
      → off ≡ base + total
      → Writes ctx addr v
      → IsPlainAt ctx addr v
      → ((out : List ℕ) (off' total' : ℕ)
          → off' ≡ base + total'
          → off' + length (encode_values ctx vs) ≤ length out
          → serialize_values ctx addr base vs total' out
            ≡ ok
                (overwrite off' (encode_values ctx vs) out, total' + length (encode_values ctx vs)))
      → off + length (encode ctx v ++ encode_values ctx vs) ≤ length bytes
      → Path
          (Outcome (List ℕ × ℕ))
          (within (base + total) (serialize_flagged ctx addr v) bytes >>= λ r.
            serialize_values ctx addr base vs (total + r.1) r.0)
          (ok (
            overwrite off (encode ctx v ++ encode_values ctx vs) bytes,
            total + length (encode ctx v ++ encode_values ctx vs),
          ))
  element_writes addr off base total v vs bytes at w h loop room =
      let xs : List ℕ = encode ctx v in
      let ys : List ℕ = encode_values ctx vs in
      let sum : length (xs ++ ys) ≡ length xs + length ys = length-append xs ys in
      let same : length (overwrite off xs bytes) ≡ length bytes =
        length-overwrite off xs bytes (omega arith) in
      bind_ok _
        (ap (λ o. within o (serialize_flagged ctx addr v) bytes) (sym at)
          ∙ behind ctx addr off v bytes w h (omega arith))
        (loop (overwrite off xs bytes) (off + length xs) (total + length xs) (omega arith)
            (omega arith)
          ∙ joined off (off + length xs) xs ys bytes (total + length xs + length ys)
              (total + length (xs ++ ys)) refl (omega arith) (omega arith))

  pub entry_writes :
      (off total : ℕ) (k v : Value) (es : Entries) (bytes : List ℕ)
      → off ≡ 9 + total
      → Writes ctx true k
      → Writes ctx true v
      → IsPlainAt ctx true k
      → IsPlainAt ctx true v
      → ((out : List ℕ) (off' total' : ℕ)
          → off' ≡ 9 + total'
          → off' + length (encode_entries ctx es) ≤ length out
          → serialize_entries ctx es total' out
            ≡ ok (
              overwrite off' (encode_entries ctx es) out,
              total' + length (encode_entries ctx es),
            ))
      → off + length (encode ctx k ++ (encode ctx v ++ encode_entries ctx es)) ≤ length bytes
      → Path
          (Outcome (List ℕ × ℕ))
          (within (9 + total) (serialize_flagged ctx true k) bytes >>= λ r.
            within (9 + (total + r.1)) (serialize_flagged ctx true v) r.0 >>= λ r'.
            serialize_entries ctx es (total + r.1 + r'.1) r'.0)
          (ok (
            overwrite off (encode ctx k ++ (encode ctx v ++ encode_entries ctx es)) bytes,
            total + length (encode ctx k ++ (encode ctx v ++ encode_entries ctx es)),
          ))
  entry_writes off total k v es bytes at wk wv hk hv loop room =
      let xs : List ℕ = encode ctx k in
      let ys : List ℕ = encode ctx v in
      let zs : List ℕ = encode_entries ctx es in
      let sum : length (xs ++ (ys ++ zs)) ≡ length xs + length ys + length zs =
        length-three xs ys zs in
      let same : length (overwrite off xs bytes) ≡ length bytes =
        length-overwrite off xs bytes (omega arith) in
      let same' : length (overwrite (off + length xs) ys (overwrite off xs bytes)) ≡ length bytes =
        length-overwrite (off + length xs) ys (overwrite off xs bytes) (omega arith) ∙ same in
      let next : off + length xs ≡ 9 + (total + length xs) = omega arith in
      bind_ok _
        (ap (λ o. within o (serialize_flagged ctx true k) bytes) (sym at)
          ∙ behind ctx true off k bytes wk hk (omega arith))
        (bind_ok _
          (ap (λ o. within o (serialize_flagged ctx true v) (overwrite off xs bytes)) (sym next)
            ∙ behind ctx true (off + length xs) v (overwrite off xs bytes) wv hv (omega arith))
          (loop (overwrite (off + length xs) ys (overwrite off xs bytes))
              (off + length xs + length ys) (total + length xs + length ys) (omega arith)
              (omega arith)
            ∙ joined_three off (off + length xs) (off + length xs + length ys) xs ys zs bytes
                (total + length xs + length ys + length zs) (total + length (xs ++ (ys ++ zs))) refl
                refl (omega arith) (omega arith)))

  pub field_writes :
      (addr : Bool) (off total tag : ℕ) (v : Value) (fs : Fields) (bytes : List ℕ)
      → off ≡ 8 + total
      → Writes ctx addr v
      → IsPlainAt ctx addr v
      → ((out : List ℕ) (off' total' : ℕ)
          → off' ≡ 8 + total'
          → off' + length (encode_fields ctx fs) ≤ length out
          → serialize_fields ctx addr fs total' out
            ≡ ok
                (overwrite off' (encode_fields ctx fs) out, total' + length (encode_fields ctx fs)))
      → off + length (big_endian 8 tag ++ (encode ctx v ++ encode_fields ctx fs)) ≤ length bytes
      → Path
          (Outcome (List ℕ × ℕ))
          (put_uint64 (8 + total) tag bytes >>= λ out.
            within (8 + (total + 8)) (serialize_flagged ctx addr v) out >>= λ r.
            serialize_fields ctx addr fs (total + 8 + r.1) r.0)
          (ok (
            overwrite off (big_endian 8 tag ++ (encode ctx v ++ encode_fields ctx fs)) bytes,
            total + length (big_endian 8 tag ++ (encode ctx v ++ encode_fields ctx fs)),
          ))
  field_writes addr off total tag v fs bytes at w h loop room =
      let xs : List ℕ = big_endian 8 tag in
      let ys : List ℕ = encode ctx v in
      let zs : List ℕ = encode_fields ctx fs in
      let eight : length xs ≡ 8 = length-big_endian 8 tag in
      let sum : length (xs ++ (ys ++ zs)) ≡ length xs + length ys + length zs =
        length-three xs ys zs in
      let same : length (overwrite off xs bytes) ≡ length bytes =
        length-overwrite off xs bytes (omega arith) in
      let same' : length (overwrite (off + 8) ys (overwrite off xs bytes)) ≡ length bytes =
        length-overwrite (off + 8) ys (overwrite off xs bytes) (omega arith) ∙ same in
      let next : off + 8 ≡ 8 + (total + 8) = omega arith in
      bind_ok _ (ap (λ o. put o xs bytes) (sym at) ∙ put_fits off xs bytes (omega arith)) (
        bind_ok _
          (ap (λ o. within o (serialize_flagged ctx addr v) (overwrite off xs bytes)) (sym next)
            ∙ behind ctx addr (off + 8) v (overwrite off xs bytes) w h (omega arith))
          (loop (overwrite (off + 8) ys (overwrite off xs bytes)) (off + 8 + length ys)
              (total + 8 + length ys) (omega arith) (omega arith)
            ∙ joined_three off (off + 8) (off + 8 + length ys) xs ys zs bytes
                (total + 8 + length ys + length zs) (total + length (xs ++ (ys ++ zs)))
                (omega arith) refl (omega arith) (omega arith)))
