-- ===== src/Serialize/Contract.antt =====
-- SerializeValue with Deserialize, and TypeStack with UnwrapStack.
use graphvent.Prelude.{
  ℕ, ◌≤◌, ◌≡◌, ap, refl, ◌∙◌, sym, List, [], length, take, drop, take-length-append, append-nil,
}
use graphvent.Serialize.{
  GoType, Value, type_of, Context, Outcome, ok, error, wrong_type, GoType-discrete, ◌>>=◌,
}
use graphvent.Serialize.Bytes.{bind_ok, overwrite}
use graphvent.Serialize.Encode.{serialize_value, type_stack, or_zero}
use graphvent.Serialize.Decode.{deserialize, unwrap_stack, whole}
use graphvent.Serialize.Encoding.{encode, stack, HasStack, IsPlain}
use graphvent.Serialize.Encoding.Stacks.{type_stack-stack}
use graphvent.Serialize.Encoding.Whole.{serialize_value-encode}
use graphvent.Serialize.Reading.{IsRegistry, IsReadable, IsBuildable, type_size, size}
use graphvent.Serialize.Reading.Stacks.{unwrap_stack-stack}
use graphvent.Serialize.Reading.RoundTrip.{deserialize_value-encode}

whole_same : (ctx : Context) (v : Value) → whole ctx (type_of v) v [] ≡ ok v
whole_same ctx v =
    elim (GoType-discrete (type_of v) (type_of v))
      as (λ d.
        Path (Outcome Value) (elim d [ yes same ↦ ok v | no differ ↦ error wrong_type ]) (ok v)) [
          | yes same ↦ refl
          | no differ ↦ absurd (differ refl)
        ]

module _ (ctx : Context) where
  -- Into a buffer with room, SerializeValue of a plain value puts the bytes of its encoding, changes
  -- no byte behind them, and returns their number.
  pub serialize_value-overwrites :
      (v : Value) (bytes : List ℕ)
      → IsPlain ctx v
      → length (encode ctx v) ≤ length bytes
      → serialize_value ctx v bytes ≡ ok (overwrite 0 (encode ctx v) bytes, length (encode ctx v))
  serialize_value-overwrites v bytes plain room = serialize_value-encode ctx v bytes plain room

  pub deserialize-encode :
      IsRegistry ctx
      → (v : Value) (fuel : ℕ) → IsReadable ctx v
      → size v ≤ fuel
      → deserialize ctx fuel (type_of v) (encode ctx v) ≡ ok v
  unfolding deserialize
  deserialize-encode registry v fuel readable enough =
      ap (deserialize ctx fuel (type_of v)) (sym (append-nil (encode ctx v)))
      ∙ bind_ok _ (deserialize_value-encode ctx registry v fuel enough readable [])
          (whole_same ctx v)

  -- What SerializeValue writes of a plain and readable value into a buffer with room, Deserialize
  -- reads as that value, in a context whose registry is sound and with fuel for its size.
  pub deserialize-serialize_value :
      IsRegistry ctx
      → (v : Value) (bytes : List ℕ) (fuel : ℕ) → IsPlain ctx v
      → IsReadable ctx v
      → length (encode ctx v) ≤ length bytes
      → size v ≤ fuel
      → (serialize_value ctx v bytes >>= λ r. deserialize ctx fuel (type_of v) (take r.1 r.0))
        ≡ ok v
  deserialize-serialize_value registry v bytes fuel plain readable room enough =
      bind_ok _ (serialize_value-encode ctx v bytes plain room) (
        ap (deserialize ctx fuel (type_of v))
          (take-length-append (encode ctx v) (drop (length (encode ctx v)) bytes))
        ∙ deserialize-encode registry v fuel readable enough)

  -- What TypeStack writes of a type into a buffer with room, UnwrapStack reads as that type, with
  -- nothing left, in a context whose registry is sound and with fuel for the type's size.
  unwrap_stack-type_stack :
      IsRegistry ctx
      → (t : GoType) (bytes : List ℕ) (fuel : ℕ) → HasStack ctx t
      → IsBuildable ctx t
      → length (stack ctx t) ≤ length bytes
      → type_size t ≤ fuel
      → (type_stack ctx t bytes >>= λ r. unwrap_stack ctx fuel (take (or_zero r.1) r.0))
        ≡ ok (t, [])
  unwrap_stack-type_stack registry t bytes fuel h b room enough =
      bind_ok _ (type_stack-stack ctx t bytes h room) (
        ap (unwrap_stack ctx fuel) (
          take-length-append (stack ctx t) (drop (length (stack ctx t)) bytes)
          ∙ sym (append-nil (stack ctx t)))
        ∙ unwrap_stack-stack ctx registry t fuel enough h b [])
