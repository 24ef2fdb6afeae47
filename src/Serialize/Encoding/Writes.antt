-- ===== src/Serialize/Encoding/Writes.antt =====
-- What SerializeValue writes.
use graphvent.Prelude.{
  ℕ, Bool, true, false, ◌+◌, ◌≤◌, ◌≡◌, ◌∙◌, List, [], ◌∷◌, ◌++◌, length, drop, length-append,
  length-drop, arith,
}
use graphvent.Serialize.{Value, type_of, Context, Outcome, ok, ◌>>=◌}
use graphvent.Serialize.Bytes.{
  bind_ok, big_endian, length-big_endian, overwrite, within, put, copy_to, put_fits, copy_fits,
  within-overwrite, length-overwrite,
}
use graphvent.Serialize.Encode.{serialize_flagged, put_uint64, type_stack, or_zero}
use graphvent.Serialize.Encoding.{stack, HasStack, encode, IsPlainAt}
use graphvent.Serialize.Encoding.Stacks.{joined, joined_three, length-three, type_stack-stack}

-- A flag, a count and a loop over the elements, which a slice and a map are.
pub counted :
    (n : ℕ) (ys bytes : List ℕ) (loop : List ℕ → Outcome (List ℕ × ℕ))
    → ((out : List ℕ)
        → 9 + length ys ≤ length out
        → loop out ≡ ok (overwrite 9 ys out, 0 + length ys))
    → length (1 ∷ (big_endian 8 n ++ ys)) ≤ length bytes
    → Path
        (Outcome (List ℕ × ℕ))
        (put 0 (1 ∷ []) bytes >>= λ out.
          put_uint64 1 n out >>= λ out'. loop out' >>= λ r. ok (r.0, 9 + r.1))
        (ok (overwrite 0 (1 ∷ (big_endian 8 n ++ ys)) bytes, length (1 ∷ (big_endian 8 n ++ ys))))
counted n ys bytes loop runs room =
    let flag : List ℕ = 1 ∷ [] in
    let size : List ℕ = big_endian 8 n in
    let eight : length size ≡ 8 = length-big_endian 8 n in
    let total : length (flag ++ (size ++ ys)) ≡ length flag + length size + length ys =
      length-three flag size ys in
    let same : length (overwrite 0 flag bytes) ≡ length bytes =
      length-overwrite 0 flag bytes (omega arith) in
    let same' : length (overwrite 1 size (overwrite 0 flag bytes)) ≡ length bytes =
      length-overwrite 1 size (overwrite 0 flag bytes) (omega arith) ∙ same in
    bind_ok _ (put_fits 0 flag bytes (omega arith)) (
      bind_ok _ (put_fits 1 size (overwrite 0 flag bytes) (omega arith)) (
        bind_ok _ (runs (overwrite 1 size (overwrite 0 flag bytes)) (omega arith)) (
          joined_three 0 1 9 flag size ys bytes (9 + (0 + length ys))
            (length (flag ++ (size ++ ys))) (omega arith) (omega arith) (omega arith)
            (omega arith))))

module _ (ctx : Context) where
  abbrev pub Writes : Bool → Value → Type 0
  Writes addr v =
      (bytes : List ℕ)
      → IsPlainAt ctx addr v
      → length (encode ctx v) ≤ length bytes
      → serialize_flagged ctx addr v bytes
        ≡ ok (overwrite 0 (encode ctx v) bytes, length (encode ctx v))

  pub behind :
      (addr : Bool) (off : ℕ) (v : Value) (bytes : List ℕ)
      → Writes addr v
      → IsPlainAt ctx addr v
      → off + length (encode ctx v) ≤ length bytes
      → within off (serialize_flagged ctx addr v) bytes
        ≡ ok (overwrite off (encode ctx v) bytes, length (encode ctx v))
  behind addr off v bytes w h room =
      within-overwrite off (serialize_flagged ctx addr v) (encode ctx v) bytes
        (length (encode ctx v)) (omega arith)
        (w (drop off bytes) h (omega (arith, length-drop off bytes)))

  pub string_writes :
      (s bytes : List ℕ)
      → length (big_endian 8 (length s) ++ s) ≤ length bytes
      → Path
          (Outcome (List ℕ × ℕ))
          (put_uint64 0 (length s) bytes >>= λ out.
            copy_to 8 s out >>= λ out'. ok (out', 8 + length s))
          (ok (
            overwrite 0 (big_endian 8 (length s) ++ s) bytes,
            length (big_endian 8 (length s) ++ s),
          ))
  string_writes s bytes room =
      let size : List ℕ = big_endian 8 (length s) in
      let eight : length size ≡ 8 = length-big_endian 8 (length s) in
      let total : length (size ++ s) ≡ length size + length s = length-append size s in
      let same : length (overwrite 0 size bytes) ≡ length bytes =
        length-overwrite 0 size bytes (omega arith) in
      bind_ok _ (put_fits 0 size bytes (omega arith)) (
        bind_ok _ (copy_fits 8 s (overwrite 0 size bytes) (omega arith)) (
          joined 0 8 size s bytes (8 + length s) (length (size ++ s)) (omega arith) (omega arith)
            (omega arith)))

  pub pointer_writes :
      (v : Value) (bytes : List ℕ)
      → Writes true v
      → IsPlainAt ctx true v
      → length (1 ∷ encode ctx v) ≤ length bytes
      → Path
          (Outcome (List ℕ × ℕ))
          (put 0 (1 ∷ []) bytes >>= λ out.
            within 1 (serialize_flagged ctx true v) out >>= λ r. ok (r.0, 1 + r.1))
          (ok (overwrite 0 (1 ∷ encode ctx v) bytes, length (1 ∷ encode ctx v)))
  pointer_writes v bytes w h room =
      let flag : List ℕ = 1 ∷ [] in
      let same : length (overwrite 0 flag bytes) ≡ length bytes =
        length-overwrite 0 flag bytes (omega arith) in
      bind_ok _ (put_fits 0 flag bytes (omega arith)) (
        bind_ok _ (behind true 1 v (overwrite 0 flag bytes) w h (omega arith)) (
          joined 0 1 flag (encode ctx v) bytes (1 + length (encode ctx v))
            (length (1 ∷ encode ctx v)) (omega arith) (omega arith) (omega arith)))

  pub interface_writes :
      (v : Value) (bytes : List ℕ)
      → Writes false v
      → HasStack ctx (type_of v)
      → IsPlainAt ctx false v
      → length (stack ctx (type_of v) ++ encode ctx v) ≤ length bytes
      → Path
          (Outcome (List ℕ × ℕ))
          (type_stack ctx (type_of v) bytes >>= λ s.
            within (or_zero s.1) (serialize_flagged ctx false v) s.0 >>= λ r.
            ok (r.0, or_zero s.1 + r.1))
          (ok (
            overwrite 0 (stack ctx (type_of v) ++ encode ctx v) bytes,
            length (stack ctx (type_of v) ++ encode ctx v),
          ))
  interface_writes v bytes w hs h room =
      let ts : List ℕ = stack ctx (type_of v) in
      let total : length (ts ++ encode ctx v) ≡ length ts + length (encode ctx v) =
        length-append ts (encode ctx v) in
      let same : length (overwrite 0 ts bytes) ≡ length bytes =
        length-overwrite 0 ts bytes (omega arith) in
      bind_ok _ (type_stack-stack ctx (type_of v) bytes hs (omega arith)) (
        bind_ok _ (behind false (length ts) v (overwrite 0 ts bytes) w h (omega arith)) (
          joined 0 (length ts) ts (encode ctx v) bytes (length ts + length (encode ctx v))
            (length (ts ++ encode ctx v)) (omega arith) (omega arith) (omega arith)))
