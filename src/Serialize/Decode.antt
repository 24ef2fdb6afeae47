-- ===== src/Serialize/Decode.antt =====
-- serialize.go: UnwrapStack, DeserializeValue and Deserialize, which read from a byte slice.
use graphvent.Prelude.{
  ℕ, zero, suc, ◌^◌, Bool, true, false, not, List, [], ◌∷◌, Option, none, some, length, take, drop,
  leb, ltb, ◌==◌, if◌then◌else◌,
}
use graphvent.Serialize.{
  width, GoType, Value, Values, Entries, Fields, no_values, value, no_entries, entry, no_fields,
  field, TypeInfo, unregistered_struct, unknown_kind, unknown_field, stack_not_recognized,
  not_enough_bytes, bytes_left, wrong_type, type_of, GoType-discrete, Outcome, ok, error, panic,
  out_of_fuel, ◌>>=◌, Context,
}
use graphvent.Serialize.Bytes.{from_big_endian}

-- `split(data, n)`: past the end it is a panic.
abbrev pub split : List ℕ → ℕ → Outcome (List ℕ × List ℕ)
split bytes n = if leb n (length bytes) then ok (take n bytes, drop n bytes) else panic

-- A number of `w` bytes.
abbrev pub read : ℕ → List ℕ → Outcome (ℕ × List ℕ)
read w bytes = split bytes w >>= λ s. ok (from_big_endian 0 s.0, s.1)

-- `int` of a number of 64 bits is negative from here on.
abbrev pub is_negative : ℕ → Bool
is_negative n = leb (2 ^ 63) n

-- How often a loop `for i := 0; i < int(n); i++` runs.
abbrev pub iterations : ℕ → ℕ
iterations n = if is_negative n then 0 else n

-- `reflect.ArrayOf`, `reflect.MakeSlice` and a slice to `int(n)` panic if the length is negative.
abbrev pub unless_negative : {A : Type 0} → ℕ → Outcome A → Outcome A
unless_negative n o = if is_negative n then panic else o

-- `reflect.MakeSlice` and `reflect.MakeMapWithSize` return values that have no address.
abbrev pub addressable : Value → Bool
addressable (Value.slice t vs) = false
addressable (Value.map k t es) = false
addressable v = true

abbrev pub address : Value → Outcome Value
address v = if addressable v then ok (Value.pointer v) else panic

-- A value of an interface, of the value that another interface holds if it is one.
abbrev pub into_interface : ℕ → Value → Value
into_interface name (Value.interface other_name v) = Value.interface name v
into_interface name (Value.nil_interface other_name) = Value.nil_interface name
into_interface name v = Value.interface name v

abbrev pub remove_field : ℕ → Fields → Fields
remove_field tag no_fields = no_fields
remove_field tag (field t v fs) =
    let rest = remove_field tag fs in if tag == t then rest else field t v rest

abbrev pub append_fields : Fields → Fields → Fields
append_fields no_fields gs = gs
append_fields (field t v fs) gs = field t v (append_fields fs gs)

-- `value.FieldByIndex(...).Set(v)`; fields are told apart by tag, so their order says when each was
-- set last.
abbrev pub set_field : ℕ → Value → Fields → Fields
set_field tag v fs = append_fields (remove_field tag fs) (field tag v no_fields)

abbrev pub field_type : ℕ → List (ℕ × GoType) → Option GoType
field_type tag [] = none
field_type tag (f ∷ fs) = if tag == f.0 then some f.1 else field_type tag fs

-- `read_one` reads an element, a loop as many as it is to.
unfoldable pub read_values :
    (List ℕ → Outcome (Value × List ℕ)) → ℕ → List ℕ → Outcome (Values × List ℕ)
read_values read_one zero bytes = ok (no_values, bytes)
read_values read_one (suc n) bytes =
    read_one bytes >>= λ r. read_values read_one n r.1 >>= λ rs. ok (value r.0 rs.0, rs.1)

abbrev pub append_entry : Value → Value → Entries → Entries
append_entry k v no_entries = entry k v no_entries
append_entry k v (entry k' v' es) = entry k' v' (append_entry k v es)

-- A method that was called by reflection has returned, or has panicked.
abbrev pub called : Option Fields → Outcome Fields
called none = panic
called (some fs) = ok fs

module _ (ctx : Context) where
  abbrev pub remove_key : Value → Entries → Entries
  remove_key k no_entries = no_entries
  remove_key k (entry k' v es) =
      let rest = remove_key k es in if ctx.same_key k k' then rest else entry k' v rest

  -- `value.SetMapIndex(key, val)` with a key that can be hashed, which panics for another.
  abbrev pub set_map_index : Value → Value → Entries → Entries
  set_map_index k v es = append_entry k v (remove_key k es)

  unfoldable pub read_entries :
      (List ℕ → Outcome (Value × List ℕ))
      → (List ℕ → Outcome (Value × List ℕ))
      → ℕ
      → Entries
      → List ℕ
      → Outcome (Entries × List ℕ)
  read_entries read_key read_elem zero es bytes = ok (es, bytes)
  read_entries read_key read_elem (suc n) es bytes = read_key bytes >>= λ k. read_elem k.1 >>= λ v.
      (let rest = read_entries read_key read_elem n (set_map_index k.0 v.0 es) v.1 in
        if ctx.hashable k.0 then rest else panic)

  -- The switch of `UnwrapStack` on the code of a kind; `unwrap` reads a part of the type.
  unfoldable pub unwrap_kind :
      (List ℕ → Outcome (GoType × List ℕ)) → ℕ → List ℕ → Outcome (GoType × List ℕ)
  unwrap_kind unwrap code left =
      if code == ctx.map_code
      then (unwrap left >>= λ k.
          unwrap k.1 >>= λ t. if ctx.comparable k.0 then ok (GoType.map k.0 t.0, t.1) else panic)
      else if code == ctx.pointer_code
      then (unwrap left >>= λ t. ok (GoType.pointer t.0, t.1))
      else if code == ctx.slice_code
      then (unwrap left >>= λ t. ok (GoType.slice t.0, t.1))
      else if code == ctx.array_code
      then (read 8 left >>= λ n.
          unwrap n.1 >>= λ t. unless_negative n.0 (ok (GoType.array n.0 t.0, t.1)))
      else error stack_not_recognized

  abbrev pub unwrap_code :
      Option GoType → (List ℕ → Outcome (GoType × List ℕ)) → ℕ → List ℕ → Outcome (GoType × List ℕ)
  unwrap_code (some t) unwrap code left = ok (t, left)
  unwrap_code none unwrap code left = unwrap_kind unwrap code left

  -- `UnwrapStack`, to a depth of the fuel.
  unfoldable pub unwrap_stack : ℕ → List ℕ → Outcome (GoType × List ℕ)
  unwrap_stack zero bytes = out_of_fuel
  unwrap_stack (suc fuel) bytes = read 8 bytes >>= λ first.
      unwrap_code (ctx.types_reverse first.0) (unwrap_stack fuel) first.0 first.1

  -- `PostDeserialize`, if the struct has it.
  abbrev pub post_deserialize : ℕ → Option ℕ → Fields → Outcome Fields
  post_deserialize name none fs = ok fs
  post_deserialize name (some index) fs = called (ctx.call_method name index fs)

  module _ (read_value : GoType → List ℕ → Outcome (Value × List ℕ)) where
    -- The field of a tag, and the value that is read for it.
    abbrev pub read_field : ℕ → Option GoType → Fields → List ℕ → Outcome (Fields × List ℕ)
    read_field tag none fs bytes = error unknown_field
    read_field tag (some t) fs bytes = read_value t bytes >>= λ v. ok (set_field tag v.0 fs, v.1)

    unfoldable pub read_fields : List (ℕ × GoType) → ℕ → Fields → List ℕ → Outcome (Fields × List ℕ)
    read_fields infos zero fs bytes = ok (fs, bytes)
    read_fields infos (suc n) fs bytes = read 8 bytes >>= λ tag.
        read_field tag.0 (field_type tag.0 infos) fs tag.1 >>= λ r. read_fields infos n r.0 r.1

    abbrev pub read_struct : ℕ → Option TypeInfo → List ℕ → Outcome (Value × List ℕ)
    read_struct name none bytes = error unregistered_struct
    read_struct name (some info) bytes = read 8 bytes >>= λ n.
        read_fields info.fields (iterations n.0) (ctx.zero_fields name) n.1 >>= λ r.
        post_deserialize name info.post_deserialize r.0 >>= λ fs. ok (Value.struct name fs, r.1)

    -- The switch of `DeserializeValue`; `read_value` and `unwrap` are its calls for the parts.
    unfoldable pub read_type :
        (List ℕ → Outcome (GoType × List ℕ)) → GoType → List ℕ → Outcome (Value × List ℕ)
    read_type unwrap GoType.bool bytes = read 1 bytes >>= λ n. ok (Value.bool (not (n.0 == 0)), n.1)
    read_type unwrap (GoType.num k) bytes = read (width k) bytes >>= λ n. ok (Value.num k n.0, n.1)
    read_type unwrap GoType.string bytes = read 8 bytes >>= λ n.
        unless_negative n.0 (split n.1 n.0) >>= λ s. ok (Value.string s.0, s.1)
    read_type unwrap GoType.id bytes =
        if ltb (length bytes) 16
        then error not_enough_bytes
        else ok (Value.id (take 16 bytes), drop 16 bytes)
    read_type unwrap (GoType.pointer t) bytes = read 1 bytes >>= λ flag.
        if flag.0 == 0
        then ok (Value.nil_pointer t, flag.1)
        else (read_value t flag.1 >>= λ v. address v.0 >>= λ p. ok (p, v.1))
    read_type unwrap (GoType.slice t) bytes = read 1 bytes >>= λ flag.
        if flag.0 == 0
        then ok (Value.nil_slice t, flag.1)
        else (read 8 flag.1 >>= λ n.
            unless_negative n.0 (read_values (read_value t) n.0 n.1) >>= λ vs.
            ok (Value.slice t vs.0, vs.1))
    read_type unwrap (GoType.array n t) bytes =
        read_values (read_value t) n bytes >>= λ vs. ok (Value.array t vs.0, vs.1)
    read_type unwrap (GoType.map k t) bytes = read 1 bytes >>= λ flag.
        if flag.0 == 0
        then ok (Value.nil_map k t, flag.1)
        else (read 8 flag.1 >>= λ n.
            read_entries (read_value k) (read_value t) (iterations n.0) no_entries n.1 >>= λ es.
            ok (Value.map k t es.0, es.1))
    read_type unwrap (GoType.struct name) bytes =
        read_struct name (ctx.types (GoType.struct name)) bytes
    read_type unwrap (GoType.interface name) bytes = unwrap bytes >>= λ t.
        read_value t.0 t.1 >>= λ v.
        if ctx.implements name t.0 then ok (into_interface name v.0, v.1) else panic
    read_type unwrap (GoType.other name) bytes = error unknown_kind

  -- `DeserializeValue`, to a depth of the fuel.
  unfoldable pub deserialize_value : ℕ → GoType → List ℕ → Outcome (Value × List ℕ)
  deserialize_value zero t bytes = out_of_fuel
  deserialize_value (suc fuel) t bytes =
      read_type (deserialize_value fuel) (unwrap_stack fuel) t bytes

  -- What `Deserialize` makes of the value that was read.
  abbrev pub whole : GoType → Value → List ℕ → Outcome Value
  whole t v [] = elim (GoType-discrete (type_of v) t) [
    | yes same ↦ ok v
    | no differ ↦ error wrong_type
  ]
  whole t v (b ∷ left) = error bytes_left

  unfoldable pub deserialize : ℕ → GoType → List ℕ → Outcome Value
  unfolding deserialize_value
  deserialize fuel t bytes = deserialize_value fuel t bytes >>= λ r. whole t r.0 r.1
