-- ===== src/Serialize.antt =====
-- serialize.go: the types and values that are serialized, and the context's type registry.
pub mod Bytes
pub mod Encode
pub mod Decode
pub mod Encoding
pub mod Reading
pub mod Contract
mod Sizes
mod Defects
mod Unaddressed
pub mod Samples
pub mod Termination
mod Tests
use graphvent.Prelude.{ℕ, suc, ◌≡◌, Bool, true, false, List, [], ◌∷◌, Option, none, some}
use native.Mathlib.Decide.{ℕ_discrete}

-- The kinds of number, each in two's complement or IEEE 754 bits.
pub data NumKind : Type 0 where
  int8 int16 int32 int64 int uint8 uint16 uint32 uint64 uint float32 float64 : NumKind

-- The bytes that a number takes.
abbrev pub width : NumKind → ℕ
width int8 = 1
width int16 = 2
width int32 = 4
width int64 = 8
width int = 8
width uint8 = 1
width uint16 = 2
width uint32 = 4
width uint64 = 8
width uint = 8
width float32 = 4
width float64 = 8

-- A reflect.Type. `id` is NodeID or uuid.UUID, the scalars with functions of their own; structs and
-- interfaces go by a number; `other` is a kind that is not serialized, such as a channel.
pub data GoType : Type 0 where
  bool : GoType
  num : NumKind → GoType
  string : GoType
  id : GoType
  pointer : GoType → GoType
  slice : GoType → GoType
  array : ℕ → GoType → GoType
  map : GoType → GoType → GoType
  struct : ℕ → GoType
  interface : ℕ → GoType
  other : ℕ → GoType

unfoldable pub GoType-discrete : Discrete GoType
GoType-discrete = hlevel ℕ_discrete

-- A reflect.Value. A number is its bit pattern, a string its bytes; a struct is its registered
-- fields, by tag, in the order in which a range over them visits them.
mutual
  pub data Value : Type 0 where
    bool : Bool → Value
    num : NumKind → ℕ → Value
    string : List ℕ → Value
    id : List ℕ → Value
    nil_pointer : GoType → Value
    pointer : Value → Value
    nil_slice : GoType → Value
    slice : GoType → Values → Value
    array : GoType → Values → Value
    nil_map : GoType → GoType → Value
    map : GoType → GoType → Entries → Value
    struct : ℕ → Fields → Value
    nil_interface : ℕ → Value
    interface : ℕ → Value → Value
    other : ℕ → Value

  pub data Values : Type 0 where
    no_values : Values
    value : Value → Values → Values

  pub data Entries : Type 0 where
    no_entries : Entries
    entry : Value → Value → Entries → Entries

  pub data Fields : Type 0 where
    no_fields : Fields
    field : ℕ → Value → Fields → Fields

abbrev pub count : Values → ℕ
count no_values = 0
count (value v vs) = suc (count vs)

abbrev pub count_entries : Entries → ℕ
count_entries no_entries = 0
count_entries (entry k v es) = suc (count_entries es)

abbrev pub count_fields : Fields → ℕ
count_fields no_fields = 0
count_fields (field t v fs) = suc (count_fields fs)

-- `value.Type()`
abbrev pub type_of : Value → GoType
type_of (Value.bool b) = GoType.bool
type_of (Value.num k n) = GoType.num k
type_of (Value.string bs) = GoType.string
type_of (Value.id bs) = GoType.id
type_of (Value.nil_pointer t) = GoType.pointer t
type_of (Value.pointer v) = GoType.pointer (type_of v)
type_of (Value.nil_slice t) = GoType.slice t
type_of (Value.slice t vs) = GoType.slice t
type_of (Value.array t vs) = GoType.array (count vs) t
type_of (Value.nil_map k t) = GoType.map k t
type_of (Value.map k t es) = GoType.map k t
type_of (Value.struct name fs) = GoType.struct name
type_of (Value.nil_interface name) = GoType.interface name
type_of (Value.interface name v) = GoType.interface name
type_of (Value.other name) = GoType.other name

-- `TypeInfo`, as far as serialization reads it. `post_deserialize` is PostDeserializeIndex, -1
-- being `none`.
pub record TypeInfo : Type 0 where
  pub serialized : ℕ
  pub fields : List (ℕ × GoType)
  pub post_deserialize : Option ℕ

-- What `RegisterScalar` enters for a type without functions of its own; PostDeserializeIndex is left
-- at 0.
abbrev pub scalar_info : ℕ → TypeInfo
scalar_info serialized = record { serialized = serialized; fields = []; post_deserialize = some 0 }

-- The error values that are returned.
pub data Error : Type 0 where
  unregistered_struct unknown_kind unknown_field stack_not_recognized not_enough_bytes : Error
  bytes_left wrong_type : Error

-- A call returns a value, returns an error, panics, or (in the model only) runs out of fuel.
pub data Outcome (A : Type 0) : Type 0 where
  ok : A → Outcome A
  error : Error → Outcome A
  panic : Outcome A
  out_of_fuel : Outcome A

infixl 5 ◌>>=◌
abbrev pub ◌>>=◌ : {A B : Type 0} → Outcome A → (A → Outcome B) → Outcome B
ok a >>= f = f a
error e >>= f = error e
panic >>= f = panic
out_of_fuel >>= f = out_of_fuel

-- The context, and what it takes from Go: `types` and `types_reverse` are its two maps; the codes
-- are SerializeType of the four reflect kinds (a SHA-512 hash); `implements` is assignability to an
-- interface, `comparable` and `same_key` are comparability and == of map keys, `hashable` says whether
-- a key can be hashed, which one with an interface that holds a slice can not, `zero_fields` are
-- the registered fields of a struct's zero value, and `call_method` calls a struct's method by its
-- index, which may panic.
pub record Context : Type 0 where
  pub types : GoType → Option TypeInfo
  pub types_reverse : ℕ → Option GoType
  pub map_code : ℕ
  pub pointer_code : ℕ
  pub slice_code : ℕ
  pub array_code : ℕ
  pub implements : ℕ → GoType → Bool
  pub comparable : GoType → Bool
  pub same_key : Value → Value → Bool
  pub hashable : Value → Bool
  pub zero_fields : ℕ → Fields
  pub call_method : ℕ → ℕ → Fields → Option Fields
