-- ===== src/Registry/Scalars/Tests.antt =====
-- The conversions of scalars on some values.
use graphvent.Prelude.{◌%◌, ◌^◌, ◌≡◌, refl, true, [], ◌∷◌, some, arith}
use graphvent.Serialize.{uint8, uint32, float64, width, GoType, GoType-discrete, Value}
use graphvent.Registry.Scalars.{
  int_value, string_value, nil, gives, panics, ast_bool, digits_value, atoi, ast_int, coerce,
}
use graphvent.Registry.Scalars.Literals.{decimal, ast_int-decimal}

-- The literal 300 is 44 as a byte, and -1 is the largest uint32.
wrapped : ast_int uint8 (int_value (51 ∷ 48 ∷ 48 ∷ [])) ≡ gives (Value.num uint8 44)
unfolding atoi digits_value
wrapped = refl

minus_one : ast_int uint32 (int_value (45 ∷ 49 ∷ [])) ≡ gives (Value.num uint32 4294967295)
unfolding atoi digits_value
minus_one = refl

-- A number of a JSON variable is a float64.
float_for_byte : coerce (λ t u. true) (GoType.num uint8) (some (Value.num float64 7)) ≡ panics
unfolding coerce GoType-discrete
float_for_byte = refl

-- The literals -1 and "True" are true, and "yes" is none.
booleans :
    (ast_bool (int_value (45 ∷ 49 ∷ [])) ≡ gives (Value.bool true))
    × (ast_bool (string_value (84 ∷ 114 ∷ 117 ∷ 101 ∷ [])) ≡ gives (Value.bool true))
    × (ast_bool (string_value (121 ∷ 101 ∷ 115 ∷ [])) ≡ nil)
unfolding atoi digits_value
booleans = (refl, refl, refl)

ast_int-decimal_example :
    (ast_int uint8 (int_value (decimal 300)) ≡ gives (Value.num uint8 (300 % 256 ^ width uint8)))
    × (ast_int uint8 (string_value (decimal 300))
        ≡ gives (Value.num uint8 (300 % 256 ^ width uint8)))
ast_int-decimal_example = ast_int-decimal uint8 300 (omega arith)
