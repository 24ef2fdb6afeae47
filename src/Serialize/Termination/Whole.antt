-- ===== src/Serialize/Termination/Whole.antt =====
-- DeserializeValue ends on all bytes.
use graphvent.Prelude.{ℕ, zero, suc, ◌+◌, ◌*◌, ◌≤◌, ◌≢◌, List, [], ◌∷◌, length, arith}
use graphvent.Serialize.{
  GoType, Value, Context, Outcome, ok, error, panic, out_of_fuel, GoType-discrete, type_of,
  wrong_type,
}
use graphvent.Serialize.Decode.{unwrap_stack, deserialize_value, deserialize, whole}
use graphvent.Serialize.Reading.{type_size}
use graphvent.Serialize.Termination.{Ends, bind-Ends, Leaves, HasBoundedTypes, unwrap_stack-Ends}
use graphvent.Serialize.Termination.Cases.{cost, Reader, read_type-Ends}

le_mul : (n k : ℕ) → 1 ≤ k → n ≤ n * k
le_mul zero k h = omega arith
le_mul (suc n) k h = omega (arith, le_mul n k h)

module _ (ctx : Context) (m : ℕ) (bounded : HasBoundedTypes ctx m) (most : ℕ) where
  deserialize_value-Ends : (fuel : ℕ) → Reader ctx m bounded most fuel (deserialize_value ctx fuel)
  unfolding deserialize_value
  deserialize_value-Ends zero t bytes h enough = absurd (omega arith)
  deserialize_value-Ends (suc fuel) t bytes h enough =
      read_type-Ends ctx m bounded most fuel (deserialize_value ctx fuel)
        (deserialize_value-Ends fuel) (unwrap_stack ctx fuel) t bytes
        (unwrap_stack-Ends ctx m bounded fuel bytes (
          omega (
            arith,
            size_positive t,
            bounded.positive,
            le_mul (length bytes) (cost ctx m bounded most) (omega (arith, bounded.positive)),
          )))
        h enough
    where
      size_positive : (t : GoType) → 1 ≤ type_size t
      size_positive GoType.bool = omega arith
      size_positive (GoType.num k) = omega arith
      size_positive GoType.string = omega arith
      size_positive GoType.id = omega arith
      size_positive (GoType.pointer t) = omega arith
      size_positive (GoType.slice t) = omega arith
      size_positive (GoType.array n t) = omega arith
      size_positive (GoType.map k t) = omega arith
      size_positive (GoType.struct n) = omega arith
      size_positive (GoType.interface n) = omega arith
      size_positive (GoType.other n) = omega arith

Ends-ne : {A : Type 0} (P : A → Type 0) (o : Outcome A) → Ends P o → o ≢ out_of_fuel
Ends-ne P (ok a) h e = cc
Ends-ne P (error x) h e = cc
Ends-ne P panic h e = cc
Ends-ne P out_of_fuel h e = h

whole-Ends :
    (ctx : Context) (t : GoType) (v : Value) (left : List ℕ)
    → Ends (λ w. Unit {0}) (whole ctx t v left)
whole-Ends ctx t v [] =
    elim (GoType-discrete (type_of v) t)
      as (λ d. Ends (λ w. Unit {0}) (elim d [ yes same ↦ ok v | no differ ↦ error wrong_type ])) [
        | yes same ↦ tt
        | no differ ↦ tt
      ]
whole-Ends ctx t v (b ∷ left) = tt

-- Whatever the bytes are, DeserializeValue and Deserialize end: if the types that the registry and
-- its structs' fields hold are of size at most `m`, this fuel is never used up, which bounds how
-- deep the calls go. They return, fail or panic.
pub deserialize-Ends :
    (ctx : Context) (m : ℕ)
    → HasBoundedTypes ctx m
    → (t : GoType) (bytes : List ℕ) (fuel : ℕ)
    → 2 + type_size t + length bytes * (length bytes * m + m) ≤ fuel
    → (deserialize_value ctx fuel t bytes ≢ out_of_fuel)
      × (deserialize ctx fuel t bytes ≢ out_of_fuel)
unfolding deserialize
deserialize-Ends ctx m bounded t bytes fuel enough =
    let ends : Ends (Leaves 0 bytes) (deserialize_value ctx fuel t bytes) =
      deserialize_value-Ends ctx m bounded (length bytes) fuel t bytes (omega arith) enough in
    (
      Ends-ne (Leaves 0 bytes) (deserialize_value ctx fuel t bytes) ends,
      Ends-ne (λ w. Unit {0}) _
          (bind-Ends (Leaves 0 bytes) (λ w. Unit {0}) (deserialize_value ctx fuel t bytes) _ ends
            (λ r l. whole-Ends ctx t r.0 r.1)),
    )
