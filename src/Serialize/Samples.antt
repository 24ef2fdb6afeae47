-- ===== src/Serialize/Samples.antt =====
-- A context with two registered types, and a value and a type in it.
use graphvent.Prelude.{
  ◌≤◌, ◌∙◌, ℕ, zero, suc, ◌<◌, ◌^◌, ◌≡◌, refl, ap, sym, Bool, true, false, ◌&&◌, List, [], ◌∷◌,
  Option, none, some, ◌==◌, if◌then◌else◌, arith,
}
use mathlib.Core.Option.{none-ne-some}
use graphvent.Serialize.{
  uint8, uint16, GoType, Value, Entries, Fields, no_values, value, no_entries, entry, no_fields,
  field, TypeInfo, Context,
}
use graphvent.Serialize.Encoding.{HasStack}
use graphvent.Serialize.Decode.{field_type}
use graphvent.Serialize.Reading.{IsRegistry, IsReadable, type_size}
use graphvent.Serialize.Termination.{HasBoundedTypes}

abbrev string_info : TypeInfo
string_info = record { serialized = 5; fields = []; post_deserialize = none }

-- A struct with a string, a pointer to a byte and a map, and with PostDeserialize.
abbrev pub struct_info : TypeInfo
struct_info = record {
  serialized = 77;
  fields =
      (11, GoType.string)
      ∷ (22, GoType.pointer (GoType.num uint8))
      ∷ (33, GoType.map GoType.string (GoType.num uint16))
      ∷ [];
  post_deserialize = some 4;
}

abbrev some_types : GoType → Option TypeInfo
some_types GoType.string = some string_info
some_types (GoType.struct zero) = some struct_info
some_types t = none

abbrev some_types_reverse : ℕ → Option GoType
some_types_reverse code =
    if code == 5 then some GoType.string else if code == 77 then some (GoType.struct 0) else none

abbrev same_bytes : List ℕ → List ℕ → Bool
same_bytes [] [] = true
same_bytes (x ∷ xs) (y ∷ ys) = (x == y) && same_bytes xs ys
same_bytes xs ys = false

abbrev same_string : Value → Value → Bool
same_string (Value.string s) (Value.string t) = same_bytes s t
same_string v w = false

abbrev pub test_context : Context
test_context = record {
  types = some_types;
  types_reverse = some_types_reverse;
  map_code = 101;
  pointer_code = 102;
  slice_code = 103;
  array_code = 104;
  implements = λ name t. true;
  comparable = λ t. true;
  same_key = same_string;
  hashable = λ key. true;
  zero_fields = λ name. field 11 (Value.string []) (
      field 22 (Value.nil_pointer (GoType.num uint8))
        (field 33 (Value.nil_map GoType.string (GoType.num uint16)) no_fields));
  call_method = λ name index fs. some fs;
}

abbrev code_of : Option TypeInfo → ℕ
code_of none = 0
code_of (some info) = info.serialized

test_reverse :
    (t : GoType) (info : TypeInfo)
    → some_types t ≡ some info
    → some_types_reverse info.serialized ≡ some t
test_reverse GoType.string info e = ap (λ o. some_types_reverse (code_of o)) (sym e)
test_reverse (GoType.struct zero) info e = ap (λ o. some_types_reverse (code_of o)) (sym e)
test_reverse (GoType.struct (suc n)) info e = absurd (none-ne-some info e)
test_reverse (GoType.map k t) info e = absurd (none-ne-some info e)
test_reverse (GoType.pointer t) info e = absurd (none-ne-some info e)
test_reverse (GoType.slice t) info e = absurd (none-ne-some info e)
test_reverse (GoType.array n t) info e = absurd (none-ne-some info e)
test_reverse GoType.bool info e = absurd (none-ne-some info e)
test_reverse (GoType.num k) info e = absurd (none-ne-some info e)
test_reverse GoType.id info e = absurd (none-ne-some info e)
test_reverse (GoType.interface n) info e = absurd (none-ne-some info e)
test_reverse (GoType.other n) info e = absurd (none-ne-some info e)

code_small :
    (o : Option TypeInfo) (info : TypeInfo)
    → o ≡ some info
    → code_of o < 256 ^ 8
    → info.serialized < 256 ^ 8
code_small o info e h = omega (arith, h, ap code_of e)

test_small : (t : GoType) → code_of (some_types t) < 256 ^ 8
test_small GoType.string = omega arith
test_small (GoType.struct zero) = omega arith
test_small (GoType.struct (suc n)) = omega arith
test_small (GoType.map k t) = omega arith
test_small (GoType.pointer t) = omega arith
test_small (GoType.slice t) = omega arith
test_small (GoType.array n t) = omega arith
test_small GoType.bool = omega arith
test_small (GoType.num k) = omega arith
test_small GoType.id = omega arith
test_small (GoType.interface n) = omega arith
test_small (GoType.other n) = omega arith

pub test_context-IsRegistry : IsRegistry test_context
test_context-IsRegistry = record {
  reverse = test_reverse;
  small = λ t info e. code_small (some_types t) info e (test_small t);
  map_free = refl;
  pointer_free = refl;
  slice_free = refl;
  array_free = refl;
  map_small = omega arith;
  pointer_small = omega arith;
  slice_small = omega arith;
  array_small = omega arith;
  pointer_map = omega arith;
  slice_map = omega arith;
  slice_pointer = omega arith;
  array_map = omega arith;
  array_pointer = omega arith;
  array_slice = omega arith;
}

abbrev some_map : Entries
some_map =
    entry (Value.string (97 ∷ [])) (Value.num uint16 500)
      (entry (Value.string (98 ∷ [])) (Value.num uint16 501) no_entries)

-- The fields in another order than that of the zero value.
abbrev pub some_fields : Fields
some_fields = field 22 (Value.pointer (Value.num uint8 200)) (
    field 33 (Value.map GoType.string (GoType.num uint16) some_map)
      (field 11 (Value.string (104 ∷ 105 ∷ [])) no_fields))

abbrev some_struct : Value
some_struct = Value.struct 0 some_fields

-- A slice of an interface, which holds the struct and a string.
abbrev pub some_value : Value
some_value = Value.slice (GoType.interface 3) (
    value (Value.interface 3 some_struct)
      (value (Value.interface 3 (Value.string (120 ∷ []))) no_values))

pub some_value-IsReadable : IsReadable test_context some_value
unfolding IsReadable HasStack
some_value-IsReadable = (
  omega arith,
  (
    refl,
    (
      tt,
      tt,
      tt,
      refl,
      (
        struct_info,
        refl,
        refl,
        omega arith,
        refl,
        (
          omega arith,
          refl,
          (refl, omega arith),
          (omega arith, (omega arith, tt)),
          (
            omega arith,
            refl,
            (
              omega arith,
              (tt, ((refl, tt), tt)),
              (
                refl,
                refl,
                omega arith,
                omega arith,
                refl,
                (refl, refl, omega arith, omega arith, refl, tt),
              ),
            ),
            (omega arith, tt),
            (omega arith, refl, omega arith, tt, tt),
          ),
        ),
      ),
    ),
    (refl, (tt, tt, tt, refl, omega arith), tt),
  ),
)

abbrev size_or_zero : Option GoType → ℕ
size_or_zero none = 0
size_or_zero (some t) = type_size t

reverse_small : (code : ℕ) → size_or_zero (some_types_reverse code) ≤ 3
reverse_small code = ground arith

abbrev fields_of : Option TypeInfo → List (ℕ × GoType)
fields_of none = []
fields_of (some info) = info.fields

fields_small : (t : GoType) (tag : ℕ) → size_or_zero (field_type tag (fields_of (some_types t))) ≤ 3
fields_small GoType.string tag = omega arith
fields_small (GoType.struct zero) tag = ground arith
fields_small (GoType.struct (suc n)) tag = omega arith
fields_small (GoType.map k t) tag = omega arith
fields_small (GoType.pointer t) tag = omega arith
fields_small (GoType.slice t) tag = omega arith
fields_small (GoType.array n t) tag = omega arith
fields_small GoType.bool tag = omega arith
fields_small (GoType.num k) tag = omega arith
fields_small GoType.id tag = omega arith
fields_small (GoType.interface n) tag = omega arith
fields_small (GoType.other n) tag = omega arith

size_known : (o : Option GoType) (t : GoType) → o ≡ some t → size_or_zero o ≤ 3 → type_size t ≤ 3
size_known o t e h = omega (arith, h, ap size_or_zero e)

pub test_context-HasBoundedTypes : HasBoundedTypes test_context 3
test_context-HasBoundedTypes = record {
  reverse = λ code t e. size_known (some_types_reverse code) t e (reverse_small code);
  fields = λ t info tag u known e.
      size_known (field_type tag (fields_of (some_types t))) u
        (ap (λ o. field_type tag (fields_of o)) known ∙ e) (fields_small t tag);
  positive = omega arith;
}
