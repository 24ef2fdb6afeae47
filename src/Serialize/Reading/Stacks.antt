-- ===== src/Serialize/Reading/Stacks.antt =====
-- What UnwrapStack reads of what TypeStack has written.
use graphvent.Prelude.{
  ℕ, suc, zero, ◌^◌, ◌<◌, ◌≤◌, ◌≡◌, ap, refl, ◌∙◌, List, [], ◌++◌, Option, none, some, append_assoc,
  ==_ne, ==_refl, true, arith,
}
use graphvent.Serialize.{GoType, TypeInfo, Context, ok}
use graphvent.Serialize.Bytes.{bind_ok, big_endian}
use graphvent.Serialize.Decode.{unwrap_stack, unwrap_kind, unwrap_code}
use graphvent.Serialize.Encoding.{stack, HasStack, code_or, IsRegisteredOr}
use graphvent.Serialize.Reading.{
  IsRegistry, IsBuildable, type_size, read_append, int_fits, uint64_fits, if_true, if_false,
}

no_fuel : (t : GoType) → type_size t ≤ 0 → ⊥
no_fuel (GoType.map k t) h = omega arith
no_fuel (GoType.pointer t) h = omega arith
no_fuel (GoType.slice t) h = omega arith
no_fuel (GoType.array n t) h = omega arith
no_fuel GoType.bool h = omega arith
no_fuel (GoType.num k) h = omega arith
no_fuel GoType.string h = omega arith
no_fuel GoType.id h = omega arith
no_fuel (GoType.struct n) h = omega arith
no_fuel (GoType.interface n) h = omega arith
no_fuel (GoType.other n) h = omega arith

module _ (ctx : Context) (registry : IsRegistry ctx) where
  abbrev Unwraps : ℕ → GoType → Type 0
  Unwraps fuel t = (rest : List ℕ) → unwrap_stack ctx fuel (stack ctx t ++ rest) ≡ ok (t, rest)

  -- A code that is no type's is taken for a kind.
  unwrap_by_kind :
      (fuel code : ℕ) (bytes : List ℕ)
      → code < 256 ^ 8
      → ctx.types_reverse code ≡ none
      → unwrap_stack ctx (suc fuel) (big_endian 8 code ++ bytes)
        ≡ unwrap_kind ctx (unwrap_stack ctx fuel) code bytes
  unfolding unwrap_stack
  unwrap_by_kind fuel code bytes small free =
      bind_ok _ (read_append 8 code bytes small)
        (ap (λ o. unwrap_code ctx o (unwrap_stack ctx fuel) code bytes) free)

  unwrap_registered :
      (fuel : ℕ) (t : GoType) (o : Option TypeInfo) (by_kind rest : List ℕ) (P : Type 0)
      → ctx.types t ≡ o
      → (P → unwrap_stack ctx (suc fuel) (by_kind ++ rest) ≡ ok (t, rest))
      → IsRegisteredOr o P
      → unwrap_stack ctx (suc fuel) (code_or o by_kind ++ rest) ≡ ok (t, rest)
  unfolding unwrap_stack
  unwrap_registered fuel t none by_kind rest P e f h = f h
  unwrap_registered fuel t (some info) by_kind rest P e f h =
      bind_ok _ (read_append 8 info.serialized rest (registry.small t info e)) (
        ap (λ o. unwrap_code ctx o (unwrap_stack ctx fuel) info.serialized rest)
          (registry.reverse t info e))

  unwrap_pointer :
      (fuel : ℕ) (t : GoType) (rest : List ℕ)
      → Unwraps fuel t
      → unwrap_stack ctx (suc fuel) ((big_endian 8 ctx.pointer_code ++ stack ctx t) ++ rest)
        ≡ ok (GoType.pointer t, rest)
  unfolding unwrap_kind
  unwrap_pointer fuel t rest unwraps =
      ap (unwrap_stack ctx (suc fuel))
        (append_assoc (big_endian 8 ctx.pointer_code) (stack ctx t) rest)
      ∙ unwrap_by_kind fuel ctx.pointer_code (stack ctx t ++ rest) registry.pointer_small
          registry.pointer_free
      ∙ if_false _ _ _ (==_ne ctx.pointer_code ctx.map_code registry.pointer_map)
      ∙ if_true _ _ _ (==_refl ctx.pointer_code)
      ∙ bind_ok _ (unwraps rest) refl

  unwrap_slice :
      (fuel : ℕ) (t : GoType) (rest : List ℕ)
      → Unwraps fuel t
      → unwrap_stack ctx (suc fuel) ((big_endian 8 ctx.slice_code ++ stack ctx t) ++ rest)
        ≡ ok (GoType.slice t, rest)
  unfolding unwrap_kind
  unwrap_slice fuel t rest unwraps =
      ap (unwrap_stack ctx (suc fuel))
        (append_assoc (big_endian 8 ctx.slice_code) (stack ctx t) rest)
      ∙ unwrap_by_kind fuel ctx.slice_code (stack ctx t ++ rest) registry.slice_small
          registry.slice_free
      ∙ if_false _ _ _ (==_ne ctx.slice_code ctx.map_code registry.slice_map)
      ∙ if_false _ _ _ (==_ne ctx.slice_code ctx.pointer_code registry.slice_pointer)
      ∙ if_true _ _ _ (==_refl ctx.slice_code)
      ∙ bind_ok _ (unwraps rest) refl

  unwrap_array :
      (fuel n : ℕ) (t : GoType) (rest : List ℕ)
      → Unwraps fuel t
      → n < 2 ^ 63
      → unwrap_stack ctx
          (suc fuel)
          ((big_endian 8 ctx.array_code ++ (big_endian 8 n ++ stack ctx t)) ++ rest)
        ≡ ok (GoType.array n t, rest)
  unfolding unwrap_kind
  unwrap_array fuel n t rest unwraps small =
      ap (unwrap_stack ctx (suc fuel)) (
        append_assoc (big_endian 8 ctx.array_code) (big_endian 8 n ++ stack ctx t) rest
        ∙ ap (◌++◌ (big_endian 8 ctx.array_code))
            (append_assoc (big_endian 8 n) (stack ctx t) rest))
      ∙ unwrap_by_kind fuel ctx.array_code (big_endian 8 n ++ (stack ctx t ++ rest))
          registry.array_small registry.array_free
      ∙ if_false _ _ _ (==_ne ctx.array_code ctx.map_code registry.array_map)
      ∙ if_false _ _ _ (==_ne ctx.array_code ctx.pointer_code registry.array_pointer)
      ∙ if_false _ _ _ (==_ne ctx.array_code ctx.slice_code registry.array_slice)
      ∙ if_true _ _ _ (==_refl ctx.array_code)
      ∙ bind_ok _ (read_append 8 n (stack ctx t ++ rest) (uint64_fits n small))
          (bind_ok _ (unwraps rest) (if_false _ _ _ (int_fits n small)))

  unwrap_map :
      (fuel : ℕ) (k t : GoType) (rest : List ℕ)
      → Unwraps fuel k
      → Unwraps fuel t
      → ctx.comparable k ≡ true
      → unwrap_stack ctx
          (suc fuel)
          ((big_endian 8 ctx.map_code ++ (stack ctx k ++ stack ctx t)) ++ rest)
        ≡ ok (GoType.map k t, rest)
  unfolding unwrap_kind
  unwrap_map fuel k t rest key elem keyed =
      ap (unwrap_stack ctx (suc fuel)) (
        append_assoc (big_endian 8 ctx.map_code) (stack ctx k ++ stack ctx t) rest
        ∙ ap (◌++◌ (big_endian 8 ctx.map_code)) (append_assoc (stack ctx k) (stack ctx t) rest))
      ∙ unwrap_by_kind fuel ctx.map_code (stack ctx k ++ (stack ctx t ++ rest)) registry.map_small
          registry.map_free
      ∙ if_true _ _ _ (==_refl ctx.map_code)
      ∙ bind_ok _ (key (stack ctx t ++ rest)) (bind_ok _ (elem rest) (if_true _ _ _ keyed))

  -- A type whose kind gives no stack is registered.
  unwrap_leaf :
      (fuel : ℕ) (t : GoType) (rest : List ℕ)
      → IsRegisteredOr (ctx.types t) ⊥
      → unwrap_stack ctx (suc fuel) (code_or (ctx.types t) [] ++ rest) ≡ ok (t, rest)
  unwrap_leaf fuel t rest h =
      unwrap_registered fuel t (ctx.types t) [] rest ⊥ refl (λ none_such. absurd none_such) h

  pub unwrap_stack-stack :
      (t : GoType) (fuel : ℕ)
      → type_size t ≤ fuel
      → HasStack ctx t
      → IsBuildable ctx t
      → Unwraps fuel t
  unfolding stack HasStack
  unwrap_stack-stack (GoType.map k t) (suc fuel) enough h b rest =
      unwrap_registered fuel (GoType.map k t) (ctx.types (GoType.map k t))
        (big_endian 8 ctx.map_code ++ (stack ctx k ++ stack ctx t)) rest
        (HasStack ctx k × HasStack ctx t) refl
        (λ parts.
          unwrap_map fuel k t rest (unwrap_stack-stack k fuel (omega arith) parts.0 b.1)
            (unwrap_stack-stack t fuel (omega arith) parts.1 b.2) b.0)
        h
  unwrap_stack-stack (GoType.pointer t) (suc fuel) enough h b rest =
      unwrap_registered fuel (GoType.pointer t) (ctx.types (GoType.pointer t))
        (big_endian 8 ctx.pointer_code ++ stack ctx t) rest (HasStack ctx t) refl
        (λ part. unwrap_pointer fuel t rest (unwrap_stack-stack t fuel (omega arith) part b)) h
  unwrap_stack-stack (GoType.slice t) (suc fuel) enough h b rest =
      unwrap_registered fuel (GoType.slice t) (ctx.types (GoType.slice t))
        (big_endian 8 ctx.slice_code ++ stack ctx t) rest (HasStack ctx t) refl
        (λ part. unwrap_slice fuel t rest (unwrap_stack-stack t fuel (omega arith) part b)) h
  unwrap_stack-stack (GoType.array n t) (suc fuel) enough h b rest =
      unwrap_registered fuel (GoType.array n t) (ctx.types (GoType.array n t))
        (big_endian 8 ctx.array_code ++ (big_endian 8 n ++ stack ctx t)) rest (HasStack ctx t) refl
        (λ part. unwrap_array fuel n t rest (unwrap_stack-stack t fuel (omega arith) part b.1) b.0)
        h
  unwrap_stack-stack GoType.bool (suc fuel) enough h b rest = unwrap_leaf fuel GoType.bool rest h
  unwrap_stack-stack (GoType.num k) (suc fuel) enough h b rest =
      unwrap_leaf fuel (GoType.num k) rest h
  unwrap_stack-stack GoType.string (suc fuel) enough h b rest =
      unwrap_leaf fuel GoType.string rest h
  unwrap_stack-stack GoType.id (suc fuel) enough h b rest = unwrap_leaf fuel GoType.id rest h
  unwrap_stack-stack (GoType.struct n) (suc fuel) enough h b rest =
      unwrap_leaf fuel (GoType.struct n) rest h
  unwrap_stack-stack (GoType.interface n) (suc fuel) enough h b rest =
      unwrap_leaf fuel (GoType.interface n) rest h
  unwrap_stack-stack (GoType.other n) (suc fuel) enough h b rest =
      unwrap_leaf fuel (GoType.other n) rest h
  unwrap_stack-stack t zero enough h b rest = absurd (no_fuel t enough)
