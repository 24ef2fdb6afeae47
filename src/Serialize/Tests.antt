-- ===== src/Serialize/Tests.antt =====
-- A context with two registered types, and the theorems applied in it.
use graphvent.Prelude.{
  ◌++◌, ℕ, ◌≤◌, ◌≡◌, refl, true, false, ◌⊎◌, List, [], ◌∷◌, Option, none, some, length, replicate,
  take, arith, ◌≢◌,
}
use graphvent.Serialize.{
  scalar_info, GoType, Value, value, no_values, no_fields, type_of, TypeInfo, Context, ok, panic,
  ◌>>=◌, out_of_fuel,
}
use graphvent.Serialize.Bytes.{overwrite, big_endian}
use graphvent.Serialize.Encode.{serialize_value, serialized_size}
use graphvent.Serialize.Decode.{deserialize, deserialize_value}
use graphvent.Serialize.Encoding.{encode, stack, HasStack, IsPlain, IsPlainAt}
use graphvent.Serialize.Reading.{size}
use graphvent.Serialize.Contract.{serialize_value-overwrites, deserialize-serialize_value}
use graphvent.Serialize.Sizes.{HasShortStacks, serialized_size-serialize_value}
use graphvent.Serialize.Unaddressed.Plain.{holds_id}
use graphvent.Serialize.Unaddressed.{serialize_interface-cases}
use graphvent.Serialize.Defects.{scalar_without_functions, pointer_without_address}
use graphvent.Serialize.Termination.Whole.{deserialize-Ends}
use graphvent.Serialize.Samples.{
  struct_info, test_context, test_context-IsRegistry, test_context-HasBoundedTypes, some_value,
  some_value-IsReadable,
}

abbrev buffer : List ℕ
buffer = replicate 200 9

some_value-IsPlain : IsPlain test_context some_value
unfolding IsPlainAt HasStack
some_value-IsPlain =
    ((tt, ((struct_info, refl, refl), (tt, ((tt, tt, (tt, tt, tt)), (tt, tt))))), ((tt, tt), tt))

some_value-size : size some_value ≤ 20
unfolding size
some_value-size = omega arith

length-encode : length (encode test_context some_value) ≡ 109
unfolding encode stack big_endian
length-encode = refl

serialize_value-overwrites_example :
    serialize_value test_context some_value buffer
    ≡ ok (
      overwrite 0 (encode test_context some_value) buffer,
      length (encode test_context some_value),
    )
serialize_value-overwrites_example =
    serialize_value-overwrites test_context some_value buffer some_value-IsPlain
      (omega (arith, length-encode))

deserialize-serialize_value_example :
    (serialize_value test_context some_value buffer >>= λ r.
    deserialize test_context 20 (type_of some_value) (take r.1 r.0))
    ≡ ok some_value
deserialize-serialize_value_example =
    deserialize-serialize_value test_context test_context-IsRegistry some_value buffer 20
      some_value-IsPlain some_value-IsReadable (omega (arith, length-encode))
      (omega (arith, some_value-size))

some_value-HasShortStacks : HasShortStacks test_context some_value
unfolding HasShortStacks stack big_endian
some_value-HasShortStacks =
    ((omega arith, (tt, ((tt, tt, (tt, tt, tt)), (tt, tt)))), ((omega arith, tt), tt))

serialized_size-serialize_value_example :
    (n : ℕ) × (serialized_size test_context some_value ≡ ok n)
    × ((bytes : List ℕ)
        → n ≤ length bytes
        → serialize_value test_context some_value bytes
          ≡ ok (
            overwrite 0 (encode test_context some_value) bytes,
            length (encode test_context some_value),
          ))
serialized_size-serialize_value_example =
    serialized_size-serialize_value test_context some_value some_value-IsPlain
      some_value-HasShortStacks

pointer_length : length (encode test_context (Value.pointer some_value)) ≡ 110
unfolding encode stack big_endian
pointer_length = refl

true-IsPlain : IsPlain test_context (Value.bool true)
unfolding IsPlainAt
true-IsPlain = tt

true_fits : length (encode test_context (Value.bool true)) ≤ length buffer
unfolding encode
true_fits = omega arith

pointer_without_address_example :
    (serialize_value test_context (Value.pointer some_value) buffer
      ≡ ok (
        overwrite 0 (1 ∷ encode test_context some_value) buffer,
        length (1 ∷ encode test_context some_value),
      ))
    × ((serialize_value test_context (Value.pointer some_value) buffer >>= λ r.
          deserialize test_context 21 (GoType.pointer (type_of some_value)) (take r.1 r.0))
        ≡ panic)
pointer_without_address_example =
    pointer_without_address test_context test_context-IsRegistry some_value buffer 20 refl
      some_value-IsPlain some_value-IsReadable (omega (arith, pointer_length)) some_value-size

-- Every struct type is registered as a scalar, and no method can be called.
abbrev scalar_types : GoType → Option TypeInfo
scalar_types (GoType.struct n) = some (scalar_info 9)
scalar_types t = none

abbrev scalar_context : Context
scalar_context = record test_context { types = scalar_types; call_method = λ name index fs. none }

scalar_without_functions_example :
    (serialize_value scalar_context (Value.struct 4 no_fields) buffer
      ≡ ok (overwrite 0 (big_endian 8 0 ++ []) buffer, 8))
    × ((serialize_value scalar_context (Value.struct 4 no_fields) buffer >>= λ r.
          deserialize scalar_context 1 (GoType.struct 4) (take r.1 r.0))
        ≡ panic)
scalar_without_functions_example =
    scalar_without_functions scalar_context 4 9 buffer 0 refl refl (omega arith)

-- Some bytes that are no encoding.
deserialize-Ends_example :
    (deserialize_value test_context 39 (GoType.interface 3) (1 ∷ 2 ∷ 3 ∷ []) ≢ out_of_fuel)
    × (deserialize test_context 39 (GoType.interface 3) (1 ∷ 2 ∷ 3 ∷ []) ≢ out_of_fuel)
deserialize-Ends_example =
    deserialize-Ends test_context 3 test_context-HasBoundedTypes (GoType.interface 3)
      (1 ∷ 2 ∷ 3 ∷ []) 39 (omega arith)

-- Only the ids are registered.
abbrev id_types : GoType → Option TypeInfo
id_types GoType.id = some (record { serialized = 8; fields = []; post_deserialize = none })
id_types t = none

abbrev id_context : Context
id_context = record test_context { types = id_types }

-- An array with an id, as an interface may hold it by value.
abbrev id_array : Value
id_array = Value.array GoType.id (value (Value.id (replicate 16 7)) no_values)

id_array-IsPlain : IsPlain id_context id_array
unfolding IsPlainAt
id_array-IsPlain = ((refl, refl), tt)

id_array-HasStack : HasStack id_context (type_of id_array)
unfolding HasStack
id_array-HasStack = tt

id_array_fits : length (encode id_context (Value.interface 3 id_array)) ≤ length buffer
unfolding encode stack big_endian
id_array_fits = omega arith

serialize_interface-cases_example :
    ((holds_id id_array ≡ true)
      × (serialize_value id_context (Value.interface 3 id_array) buffer ≡ panic))
    ⊎ ((holds_id id_array ≡ false)
        × (serialize_value id_context (Value.interface 3 id_array) buffer
            ≡ ok (
              overwrite 0 (encode id_context (Value.interface 3 id_array)) buffer,
              length (encode id_context (Value.interface 3 id_array)),
            )))
serialize_interface-cases_example =
    serialize_interface-cases id_context 3 id_array buffer id_array-IsPlain id_array-HasStack
      id_array_fits

id_array_held : holds_id id_array ≡ true
unfolding holds_id
id_array_held = refl
