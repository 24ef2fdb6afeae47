-- ===== src/Serialize/Encode.antt =====
-- serialize.go: SerializedSize, TypeStack and SerializeValue, which write into a buffer in place.
use graphvent.Prelude.{ℕ, ◌+◌, Bool, true, false, List, [], ◌∷◌, Option, none, some, length}
use graphvent.Serialize.{
  width, GoType, Value, Values, Entries, Fields, no_values, value, no_entries, entry, no_fields,
  field, count, count_entries, type_of, TypeInfo, unregistered_struct, unknown_kind, Outcome, ok,
  error, panic, out_of_fuel, ◌>>=◌, Context,
}
use graphvent.Serialize.Bytes.{big_endian, put, copy_to, within}

-- A number of eight bytes at an offset.
abbrev pub put_uint64 : ℕ → ℕ → List ℕ → Outcome (List ℕ)
put_uint64 off n bytes = put off (big_endian 8 n) bytes

-- How many bytes were written, or the error that stopped it; the buffer is changed all the same.
abbrev pub Written : Type 0
Written = Outcome (List ℕ × Option ℕ)

-- The rest of `TypeStack` behind a call for a part of the type, which returns on its error.
abbrev pub after : Written → (List ℕ → ℕ → Written) → Written
after (ok (bytes, none)) f = ok (bytes, none)
after (ok (bytes, some n)) f = f bytes n
after (error e) f = error e
after panic f = panic
after out_of_fuel f = out_of_fuel

-- A registered type is its code; another is what its kind gives.
abbrev pub or_registered : Option TypeInfo → List ℕ → Written → Written
or_registered none bytes by_kind = by_kind
or_registered (some info) bytes by_kind =
    put_uint64 0 info.serialized bytes >>= λ out. ok (out, some 8)

abbrev pub bool_byte : Bool → ℕ
bool_byte true = 255
bool_byte false = 0

-- `type_written`, which is 0 if `TypeStack` has failed: its error is not looked at.
abbrev pub or_zero : Option ℕ → ℕ
or_zero none = 0
or_zero (some n) = n

-- The entry of a struct's type, without which it is an error.
abbrev pub registered : Option TypeInfo → Outcome TypeInfo
registered none = error unregistered_struct
registered (some info) = ok info

module _ (ctx : Context) where
  unfoldable pub type_stack : GoType → List ℕ → Written
  type_stack (GoType.map k t) bytes = or_registered (ctx.types (GoType.map k t)) bytes (
      put_uint64 0 ctx.map_code bytes >>= λ out.
      after (within 8 (type_stack k) out) λ out' key_written.
        after (within (8 + key_written) (type_stack t) out')
          λ out'' elem_written. ok (out'', some (8 + key_written + elem_written)))
  type_stack (GoType.pointer t) bytes = or_registered (ctx.types (GoType.pointer t)) bytes (
      put_uint64 0 ctx.pointer_code bytes >>= λ out.
      after (within 8 (type_stack t) out) λ out' elem_written. ok (out', some (8 + elem_written)))
  type_stack (GoType.slice t) bytes = or_registered (ctx.types (GoType.slice t)) bytes (
      put_uint64 0 ctx.slice_code bytes >>= λ out.
      after (within 8 (type_stack t) out) λ out' elem_written. ok (out', some (8 + elem_written)))
  type_stack (GoType.array n t) bytes = or_registered (ctx.types (GoType.array n t)) bytes (
      put_uint64 0 ctx.array_code bytes >>= λ out. put_uint64 8 n out >>= λ out'.
      after (within 16 (type_stack t) out')
        λ out'' elem_written. ok (out'', some (16 + elem_written)))
  type_stack t bytes = or_registered (ctx.types t) bytes (ok (bytes, none))

  -- `SerializeValue`, with the flag of the reflect.Value that says whether it has an address: the
  -- functions for ids in NewContext call Bytes, which panics for an array without one. What a pointer
  -- points to, an item of a slice, and the keys and values of a map have one, what an interface holds
  -- has none, and a field of a struct and an item of an array have one if the whole has.
  unfoldable mutual
    pub serialize_flagged : Bool → Value → List ℕ → Outcome (List ℕ × ℕ)
    serialize_flagged addr (Value.bool b) bytes =
        put 0 (bool_byte b ∷ []) bytes >>= λ out. ok (out, 1)
    serialize_flagged addr (Value.num k n) bytes =
        put 0 (big_endian (width k) n) bytes >>= λ out. ok (out, width k)
    serialize_flagged addr (Value.string s) bytes =
        put_uint64 0 (length s) bytes >>= λ out. copy_to 8 s out >>= λ out'. ok (out', 8 + length s)
    serialize_flagged true (Value.id s) bytes = copy_to 0 s bytes >>= λ out. ok (out, 16)
    serialize_flagged false (Value.id s) bytes = panic
    serialize_flagged addr (Value.nil_pointer t) bytes = put 0 (0 ∷ []) bytes >>= λ out. ok (out, 1)
    serialize_flagged addr (Value.pointer v) bytes = put 0 (1 ∷ []) bytes >>= λ out.
        within 1 (serialize_flagged true v) out >>= λ r. ok (r.0, 1 + r.1)
    serialize_flagged addr (Value.nil_slice t) bytes = put 0 (0 ∷ []) bytes >>= λ out. ok (out, 8)
    serialize_flagged addr (Value.slice t vs) bytes = put 0 (1 ∷ []) bytes >>= λ out.
        put_uint64 1 (count vs) out >>= λ out'.
        serialize_values true 9 vs 0 out' >>= λ r. ok (r.0, 9 + r.1)
    serialize_flagged addr (Value.array t vs) bytes = serialize_values addr 0 vs 0 bytes
    serialize_flagged addr (Value.nil_map k t) bytes = put 0 (0 ∷ []) bytes >>= λ out. ok (out, 1)
    serialize_flagged addr (Value.map k t es) bytes = put 0 (1 ∷ []) bytes >>= λ out.
        put_uint64 1 (count_entries es) out >>= λ out'.
        serialize_entries es 0 out' >>= λ r. ok (r.0, 9 + r.1)
    serialize_flagged addr (Value.struct name fs) bytes =
        registered (ctx.types (GoType.struct name)) >>= λ info.
        put_uint64 0 (length info.fields) bytes >>= λ out.
        serialize_fields addr fs 0 out >>= λ r. ok (r.0, 8 + r.1)
    serialize_flagged addr (Value.nil_interface name) bytes = panic
    serialize_flagged addr (Value.interface name v) bytes = type_stack (type_of v) bytes >>= λ s.
        within (or_zero s.1) (serialize_flagged false v) s.0 >>= λ r. ok (r.0, or_zero s.1 + r.1)
    serialize_flagged addr (Value.other name) bytes = error unknown_kind

    -- The loop over a slice or an array, whose elements stand from `base` on.
    pub serialize_values : Bool → ℕ → Values → ℕ → List ℕ → Outcome (List ℕ × ℕ)
    serialize_values addr base no_values total bytes = ok (bytes, total)
    serialize_values addr base (value v vs) total bytes =
        within (base + total) (serialize_flagged addr v) bytes >>= λ r.
        serialize_values addr base vs (total + r.1) r.0

    -- The loop over a map.
    pub serialize_entries : Entries → ℕ → List ℕ → Outcome (List ℕ × ℕ)
    serialize_entries no_entries total bytes = ok (bytes, total)
    serialize_entries (entry k v es) total bytes =
        within (9 + total) (serialize_flagged true k) bytes >>= λ r.
        within (9 + (total + r.1)) (serialize_flagged true v) r.0 >>= λ r'.
        serialize_entries es (total + r.1 + r'.1) r'.0

    -- The loop over a struct's fields.
    pub serialize_fields : Bool → Fields → ℕ → List ℕ → Outcome (List ℕ × ℕ)
    serialize_fields addr no_fields total bytes = ok (bytes, total)
    serialize_fields addr (field tag v fs) total bytes = put_uint64 (8 + total) tag bytes >>= λ out.
        within (8 + (total + 8)) (serialize_flagged addr v) out >>= λ r.
        serialize_fields addr fs (total + 8 + r.1) r.0

  -- `SerializeValue` of a value with an address, which Serialize and the database give it.
  abbrev pub serialize_value : Value → List ℕ → Outcome (List ℕ × ℕ)
  serialize_value v bytes = serialize_flagged true v bytes

  unfoldable mutual
    pub serialized_size : Value → Outcome ℕ
    serialized_size (Value.bool b) = ok 1
    serialized_size (Value.num k n) = ok (width k)
    serialized_size (Value.string s) = ok (8 + length s)
    serialized_size (Value.id s) = ok 16
    serialized_size (Value.nil_pointer t) = ok 1
    serialized_size (Value.pointer v) = serialized_size v >>= λ n. ok (1 + n)
    serialized_size (Value.nil_slice t) = ok 1
    serialized_size (Value.slice t vs) = size_values vs 0 >>= λ n. ok (9 + n)
    serialized_size (Value.array t vs) = size_values vs 0
    serialized_size (Value.nil_map k t) = ok 1
    serialized_size (Value.map k t es) = size_entries es 0 >>= λ n. ok (9 + n)
    serialized_size (Value.struct name fs) =
        registered (ctx.types (GoType.struct name)) >>= λ info. size_fields fs 0 >>= λ n. ok (8 + n)
    serialized_size (Value.nil_interface name) = panic
    serialized_size (Value.interface name v) = serialized_size v >>= λ n. ok (128 + n)
    serialized_size (Value.other name) = error unknown_kind

    pub size_values : Values → ℕ → Outcome ℕ
    size_values no_values total = ok total
    size_values (value v vs) total = serialized_size v >>= λ n. size_values vs (total + n)

    pub size_entries : Entries → ℕ → Outcome ℕ
    size_entries no_entries total = ok total
    size_entries (entry k v es) total =
        serialized_size k >>= λ m. serialized_size v >>= λ n. size_entries es (total + m + n)

    pub size_fields : Fields → ℕ → Outcome ℕ
    size_fields no_fields total = ok total
    size_fields (field tag v fs) total = serialized_size v >>= λ n. size_fields fs (total + 8 + n)
