-- ===== src/Serialize/Encoding.antt =====
-- The bytes that values stand for, and the values that serialize.go writes that way.
pub mod Stacks
pub mod Writes
mod Loops
pub mod Whole
use graphvent.Prelude.{
  ℕ, Bool, true, false, ◌+◌, ◌≡◌, ◌<◌, ◌^◌, List, [], ◌∷◌, ◌++◌, Option, none, some, length,
}
use graphvent.Serialize.{
  NumKind, width, GoType, Value, Values, Entries, Fields, no_values, value, no_entries, entry,
  no_fields, field, count, count_entries, count_fields, type_of, TypeInfo, Context,
}
use graphvent.Serialize.Bytes.{big_endian}
use graphvent.Serialize.Encode.{bool_byte}

-- The code of a registered type, and of another what its kind gives.
abbrev pub code_or : Option TypeInfo → List ℕ → List ℕ
code_or none by_kind = by_kind
code_or (some info) by_kind = big_endian 8 info.serialized

abbrev pub IsRegisteredOr : Option TypeInfo → Type 0 → Type 0
IsRegisteredOr none P = P
IsRegisteredOr (some info) P = Unit

module _ (ctx : Context) where
  unfoldable pub stack : GoType → List ℕ
  stack (GoType.map k t) =
      code_or (ctx.types (GoType.map k t)) (big_endian 8 ctx.map_code ++ (stack k ++ stack t))
  stack (GoType.pointer t) =
      code_or (ctx.types (GoType.pointer t)) (big_endian 8 ctx.pointer_code ++ stack t)
  stack (GoType.slice t) =
      code_or (ctx.types (GoType.slice t)) (big_endian 8 ctx.slice_code ++ stack t)
  stack (GoType.array n t) =
      code_or (ctx.types (GoType.array n t))
        (big_endian 8 ctx.array_code ++ (big_endian 8 n ++ stack t))
  stack t = code_or (ctx.types t) []

  -- Every part of the type that is not a map, pointer, slice or array is registered.
  unfoldable pub HasStack : GoType → Type 0
  HasStack (GoType.map k t) = IsRegisteredOr (ctx.types (GoType.map k t)) (HasStack k × HasStack t)
  HasStack (GoType.pointer t) = IsRegisteredOr (ctx.types (GoType.pointer t)) (HasStack t)
  HasStack (GoType.slice t) = IsRegisteredOr (ctx.types (GoType.slice t)) (HasStack t)
  HasStack (GoType.array n t) = IsRegisteredOr (ctx.types (GoType.array n t)) (HasStack t)
  HasStack t = IsRegisteredOr (ctx.types t) ⊥

  unfoldable mutual
    pub encode : Value → List ℕ
    encode (Value.bool b) = bool_byte b ∷ []
    encode (Value.num k n) = big_endian (width k) n
    encode (Value.string s) = big_endian 8 (length s) ++ s
    encode (Value.id s) = s
    encode (Value.nil_pointer t) = 0 ∷ []
    encode (Value.pointer v) = 1 ∷ encode v
    encode (Value.nil_slice t) = 0 ∷ []
    encode (Value.slice t vs) = 1 ∷ (big_endian 8 (count vs) ++ encode_values vs)
    encode (Value.array t vs) = encode_values vs
    encode (Value.nil_map k t) = 0 ∷ []
    encode (Value.map k t es) = 1 ∷ (big_endian 8 (count_entries es) ++ encode_entries es)
    encode (Value.struct name fs) = big_endian 8 (count_fields fs) ++ encode_fields fs
    encode (Value.nil_interface name) = []
    encode (Value.interface name v) = stack (type_of v) ++ encode v
    encode (Value.other name) = []

    pub encode_values : Values → List ℕ
    encode_values no_values = []
    encode_values (value v vs) = encode v ++ encode_values vs

    pub encode_entries : Entries → List ℕ
    encode_entries no_entries = []
    encode_entries (entry k v es) = encode k ++ (encode v ++ encode_entries es)

    pub encode_fields : Fields → List ℕ
    encode_fields no_fields = []
    encode_fields (field tag v fs) = big_endian 8 tag ++ (encode v ++ encode_fields fs)

  -- No nil slice, nil interface or value of another kind is in it, no id is without an address, every
  -- struct is registered with as many fields as it has, and every interface holds a value of a type
  -- that has a stack.
  unfoldable mutual
    pub IsPlainAt : Bool → Value → Type 0
    IsPlainAt addr (Value.bool b) = Unit
    IsPlainAt addr (Value.num k n) = Unit
    IsPlainAt addr (Value.string s) = Unit
    IsPlainAt addr (Value.id s) = (addr ≡ true) × (length s ≡ 16)
    IsPlainAt addr (Value.nil_pointer t) = Unit
    IsPlainAt addr (Value.pointer v) = IsPlainAt true v
    IsPlainAt addr (Value.nil_slice t) = ⊥
    IsPlainAt addr (Value.slice t vs) = ArePlain true vs
    IsPlainAt addr (Value.array t vs) = ArePlain addr vs
    IsPlainAt addr (Value.nil_map k t) = Unit
    IsPlainAt addr (Value.map k t es) = EntriesArePlain es
    IsPlainAt addr (Value.struct name fs) =
        ((info : TypeInfo) × (ctx.types (GoType.struct name) ≡ some info)
          × (length info.fields ≡ count_fields fs))
        × FieldsArePlain addr fs
    IsPlainAt addr (Value.nil_interface name) = ⊥
    IsPlainAt addr (Value.interface name v) = HasStack (type_of v) × IsPlainAt false v
    IsPlainAt addr (Value.other name) = ⊥

    pub ArePlain : Bool → Values → Type 0
    ArePlain addr no_values = Unit
    ArePlain addr (value v vs) = IsPlainAt addr v × ArePlain addr vs

    pub EntriesArePlain : Entries → Type 0
    EntriesArePlain no_entries = Unit
    EntriesArePlain (entry k v es) = IsPlainAt true k × IsPlainAt true v × EntriesArePlain es

    pub FieldsArePlain : Bool → Fields → Type 0
    FieldsArePlain addr no_fields = Unit
    FieldsArePlain addr (field tag v fs) = IsPlainAt addr v × FieldsArePlain addr fs

  -- For a value with an address: no interface in it holds an id by value, by itself or in a struct or
  -- an array.
  abbrev pub IsPlain : Value → Type 0
  IsPlain v = IsPlainAt true v
