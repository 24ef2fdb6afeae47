-- ===== src/Serialize/Encoding/Stacks.antt =====
-- What TypeStack writes.
use graphvent.Prelude.{
  ℕ, ◌+◌, ◌≤◌, ◌≡◌, refl, ap, ap₂, ◌∙◌, List, [], ◌++◌, Option, none, some, length, length-append,
  length-drop, drop, sym, arith,
}
use graphvent.Serialize.{GoType, TypeInfo, Context, Outcome, ok, ◌>>=◌}
use graphvent.Serialize.Bytes.{
  bind_ok, big_endian, length-big_endian, overwrite, within, put_fits, within-overwrite,
  overwrite-overwrite, length-overwrite,
}
use graphvent.Serialize.Encode.{type_stack, or_registered, Written, after, put_uint64}
use graphvent.Serialize.Encoding.{code_or, IsRegisteredOr, stack, HasStack}

pub after_ok :
    {o : Written} {bytes : List ℕ} {n : ℕ} (f : List ℕ → ℕ → Written) {r : Written}
    → o ≡ ok (bytes, some n)
    → f bytes n ≡ r
    → after o f ≡ r
after_ok f e h = ap (λ o. after o f) e ∙ h

pub joined :
    {A : Type 0} (off off' : ℕ) (xs ys bytes : List ℕ) (n n' : A)
    → off' ≡ off + length xs
    → n ≡ n'
    → off + length xs ≤ length bytes
    → Path
        (Outcome (List ℕ × A))
        (ok (overwrite off' ys (overwrite off xs bytes), n))
        (ok (overwrite off (xs ++ ys) bytes, n'))
joined off off' xs ys bytes n n' e e' h =
    ap₂ (λ l m. ok (l, m))
      (ap (λ o. overwrite o ys (overwrite off xs bytes)) e ∙ overwrite-overwrite off xs ys bytes h)
      e'

or_registered_lem :
    (o : Option TypeInfo) (bytes by_kind : List ℕ) (P : Type 0) (w : Written)
    → (P
        → length by_kind ≤ length bytes
        → w ≡ ok (overwrite 0 by_kind bytes, some (length by_kind)))
    → IsRegisteredOr o P
    → length (code_or o by_kind) ≤ length bytes
    → or_registered o bytes w
      ≡ ok (overwrite 0 (code_or o by_kind) bytes, some (length (code_or o by_kind)))
or_registered_lem none bytes by_kind P w f h room = f h room
or_registered_lem (some info) bytes by_kind P w f h room =
    bind_ok _ (put_fits 0 (big_endian 8 info.serialized) bytes (omega (arith, room))) (
      ap (λ n. ok (overwrite 0 (big_endian 8 info.serialized) bytes, some n))
        (sym (length-big_endian 8 info.serialized)))

unregistered :
    (o : Option TypeInfo) (bytes : List ℕ)
    → IsRegisteredOr o ⊥
    → length (code_or o []) ≤ length bytes
    → or_registered o bytes (ok (bytes, none))
      ≡ ok (overwrite 0 (code_or o []) bytes, some (length (code_or o [])))
unregistered o bytes h room =
    or_registered_lem o bytes [] ⊥ (ok (bytes, none)) (λ h room. absurd h) h room

pub length-three :
    (xs ys zs : List ℕ) → length (xs ++ (ys ++ zs)) ≡ length xs + length ys + length zs
length-three xs ys zs = omega (arith, length-append xs (ys ++ zs), length-append ys zs)

-- Three things that are written one behind the other.
pub joined_three :
    {A : Type 0} (off o₁ o₂ : ℕ) (xs ys zs bytes : List ℕ) (n n' : A)
    → o₁ ≡ off + length xs
    → o₂ ≡ o₁ + length ys
    → n ≡ n'
    → o₂ ≤ length bytes
    → Path
        (Outcome (List ℕ × A))
        (ok (overwrite o₂ zs (overwrite o₁ ys (overwrite off xs bytes)), n))
        (ok (overwrite off (xs ++ (ys ++ zs)) bytes, n'))
joined_three off o₁ o₂ xs ys zs bytes n n' e₁ e₂ e h =
    joined o₁ o₂ ys zs (overwrite off xs bytes) n n' e₂ e
      (omega (arith, length-overwrite off xs bytes (omega arith)))
    ∙ joined off o₁ xs (ys ++ zs) bytes n' n' e₁ refl (omega arith)

module _ (ctx : Context) where
  abbrev Writes : GoType → Type 0
  Writes t =
      (bytes : List ℕ)
      → HasStack ctx t
      → length (stack ctx t) ≤ length bytes
      → type_stack ctx t bytes ≡ ok (overwrite 0 (stack ctx t) bytes, some (length (stack ctx t)))

  behind :
      (off : ℕ) (t : GoType) (bytes : List ℕ)
      → Writes t
      → HasStack ctx t
      → off + length (stack ctx t) ≤ length bytes
      → within off (type_stack ctx t) bytes
        ≡ ok (overwrite off (stack ctx t) bytes, some (length (stack ctx t)))
  behind off t bytes w h room =
      within-overwrite off (type_stack ctx t) (stack ctx t) bytes (some (length (stack ctx t)))
        (omega arith) (w (drop off bytes) h (omega (arith, length-drop off bytes)))

  kind_writes :
      (code : ℕ) (t : GoType) (bytes : List ℕ)
      → Writes t
      → HasStack ctx t
      → length (big_endian 8 code ++ stack ctx t) ≤ length bytes
      → (put_uint64 0 code bytes >>= λ out.
          after
            (within 8 (type_stack ctx t) out)
            λ out' elem_written. ok (out', some (8 + elem_written)))
        ≡ ok (
          overwrite 0 (big_endian 8 code ++ stack ctx t) bytes,
          some (length (big_endian 8 code ++ stack ctx t)),
        )
  kind_writes code t bytes w h room = bind_ok _ (put_fits 0 (big_endian 8 code) bytes fits) (
      after_ok _
        (behind 8 t (overwrite 0 (big_endian 8 code) bytes) w h
          (omega (arith, length-overwrite 0 (big_endian 8 code) bytes fits, facts)))
        (joined 0 8 (big_endian 8 code) (stack ctx t) bytes (some (8 + length (stack ctx t)))
          (some (length (big_endian 8 code ++ stack ctx t)))
          (omega (arith, length-big_endian 8 code)) (ap some (sym facts)) fits))
    where
      facts : length (big_endian 8 code ++ stack ctx t) ≡ 8 + length (stack ctx t)
      facts =
          omega (arith, length-append (big_endian 8 code) (stack ctx t), length-big_endian 8 code)

      fits : 0 + length (big_endian 8 code) ≤ length bytes
      fits = omega (arith, room, facts, length-big_endian 8 code)

  array_writes :
      (n : ℕ) (t : GoType) (bytes : List ℕ)
      → Writes t
      → HasStack ctx t
      → length (big_endian 8 ctx.array_code ++ (big_endian 8 n ++ stack ctx t)) ≤ length bytes
      → (put_uint64 0 ctx.array_code bytes >>= λ out. put_uint64 8 n out >>= λ out'.
          after
            (within 16 (type_stack ctx t) out')
            λ out'' elem_written. ok (out'', some (16 + elem_written)))
        ≡ ok (
          overwrite 0 (big_endian 8 ctx.array_code ++ (big_endian 8 n ++ stack ctx t)) bytes,
          some (length (big_endian 8 ctx.array_code ++ (big_endian 8 n ++ stack ctx t))),
        )
  array_writes n t bytes w h room =
      let code : List ℕ = big_endian 8 ctx.array_code in
      let size : List ℕ = big_endian 8 n in
      let ts : List ℕ = stack ctx t in
      let eight : length code ≡ 8 = length-big_endian 8 ctx.array_code in
      let eight' : length size ≡ 8 = length-big_endian 8 n in
      let total : length (code ++ (size ++ ts)) ≡ length code + length size + length ts =
        length-three code size ts in
      let same : length (overwrite 0 code bytes) ≡ length bytes =
        length-overwrite 0 code bytes (omega arith) in
      let same' : length (overwrite 8 size (overwrite 0 code bytes)) ≡ length bytes =
        length-overwrite 8 size (overwrite 0 code bytes) (omega arith) ∙ same in
      bind_ok _ (put_fits 0 code bytes (omega arith)) (
        bind_ok _ (put_fits 8 size (overwrite 0 code bytes) (omega arith)) (
          after_ok _ (behind 16 t (overwrite 8 size (overwrite 0 code bytes)) w h (omega arith)) (
            joined_three 0 8 16 code size ts bytes (some (16 + length ts))
              (some (length (code ++ (size ++ ts)))) (omega arith) (omega arith)
              (ap some (omega arith)) (omega arith))))

  map_writes :
      (k t : GoType) (bytes : List ℕ)
      → Writes k
      → Writes t
      → HasStack ctx k
      → HasStack ctx t
      → length (big_endian 8 ctx.map_code ++ (stack ctx k ++ stack ctx t)) ≤ length bytes
      → (put_uint64 0 ctx.map_code bytes >>= λ out.
          after (within 8 (type_stack ctx k) out) λ out' key_written.
            after
              (within (8 + key_written) (type_stack ctx t) out')
              λ out'' elem_written. ok (out'', some (8 + key_written + elem_written)))
        ≡ ok (
          overwrite 0 (big_endian 8 ctx.map_code ++ (stack ctx k ++ stack ctx t)) bytes,
          some (length (big_endian 8 ctx.map_code ++ (stack ctx k ++ stack ctx t))),
        )
  map_writes k t bytes wk wt hk ht room =
      let code : List ℕ = big_endian 8 ctx.map_code in
      let ks : List ℕ = stack ctx k in
      let ts : List ℕ = stack ctx t in
      let eight : length code ≡ 8 = length-big_endian 8 ctx.map_code in
      let total : length (code ++ (ks ++ ts)) ≡ length code + length ks + length ts =
        length-three code ks ts in
      let same : length (overwrite 0 code bytes) ≡ length bytes =
        length-overwrite 0 code bytes (omega arith) in
      let same' : length (overwrite 8 ks (overwrite 0 code bytes)) ≡ length bytes =
        length-overwrite 8 ks (overwrite 0 code bytes) (omega arith) ∙ same in
      bind_ok _ (put_fits 0 code bytes (omega arith)) (
        after_ok _ (behind 8 k (overwrite 0 code bytes) wk hk (omega arith)) (
          after_ok _
            (behind (8 + length ks) t (overwrite 8 ks (overwrite 0 code bytes)) wt ht (omega arith))
            (joined_three 0 8 (8 + length ks) code ks ts bytes (some (8 + length ks + length ts))
              (some (length (code ++ (ks ++ ts)))) (omega arith) (omega arith)
              (ap some (omega arith)) (omega arith))))

  pub type_stack-stack : (t : GoType) → Writes t
  unfolding type_stack stack HasStack
  type_stack-stack (GoType.pointer t) bytes h room =
      or_registered_lem (ctx.types (GoType.pointer t)) bytes
        (big_endian 8 ctx.pointer_code ++ stack ctx t) (HasStack ctx t) _
        (λ h room. kind_writes ctx.pointer_code t bytes (type_stack-stack t) h room) h room
  type_stack-stack (GoType.slice t) bytes h room =
      or_registered_lem (ctx.types (GoType.slice t)) bytes
        (big_endian 8 ctx.slice_code ++ stack ctx t) (HasStack ctx t) _
        (λ h room. kind_writes ctx.slice_code t bytes (type_stack-stack t) h room) h room
  type_stack-stack (GoType.array n t) bytes h room =
      or_registered_lem (ctx.types (GoType.array n t)) bytes
        (big_endian 8 ctx.array_code ++ (big_endian 8 n ++ stack ctx t)) (HasStack ctx t) _
        (λ h room. array_writes n t bytes (type_stack-stack t) h room) h room
  type_stack-stack (GoType.map k t) bytes h room =
      or_registered_lem (ctx.types (GoType.map k t)) bytes
        (big_endian 8 ctx.map_code ++ (stack ctx k ++ stack ctx t))
        (HasStack ctx k × HasStack ctx t) _
        (λ h room. map_writes k t bytes (type_stack-stack k) (type_stack-stack t) h.0 h.1 room) h
        room
  type_stack-stack GoType.bool bytes h room = unregistered (ctx.types GoType.bool) bytes h room
  type_stack-stack (GoType.num k) bytes h room =
      unregistered (ctx.types (GoType.num k)) bytes h room
  type_stack-stack GoType.string bytes h room = unregistered (ctx.types GoType.string) bytes h room
  type_stack-stack GoType.id bytes h room = unregistered (ctx.types GoType.id) bytes h room
  type_stack-stack (GoType.struct n) bytes h room =
      unregistered (ctx.types (GoType.struct n)) bytes h room
  type_stack-stack (GoType.interface n) bytes h room =
      unregistered (ctx.types (GoType.interface n)) bytes h room
  type_stack-stack (GoType.other n) bytes h room =
      unregistered (ctx.types (GoType.other n)) bytes h room
