-- ===== src/Serialize/Reading.antt =====
-- The types and values that DeserializeValue reads back, and how deep it goes for them.
pub mod Stacks
mod Stored
mod Parts
mod Cases
pub mod RoundTrip
use graphvent.Prelude.{
  ℕ, suc, ◌+◌, ◌^◌, ◌<◌, ◌≡◌, ◌≢◌, ap, ◌∙◌, Bool, true, false, List, [], ◌∷◌, ◌++◌, Option, none,
  some, length, take, drop, leb, if◌then◌else◌, take-length-append, drop-length-append,
  length-append, arith, sym, refl, ap₂,
}
use graphvent.Serialize.{
  width, GoType, Value, Values, Entries, Fields, no_values, value, no_entries, entry, no_fields,
  field, count, count_entries, count_fields, type_of, TypeInfo, Context, Outcome, ok, panic, ◌>>=◌,
}
use graphvent.Serialize.Bytes.{
  bind_ok, big_endian, length-big_endian, from_big_endian, read-big_endian, le→leb,
}
use graphvent.Serialize.Decode.{
  split, read, addressable, field_type, remove_field, append_entry, is_negative, post_deserialize,
}
use graphvent.Serialize.Encoding.{stack, HasStack}

-- The registry's two maps agree, and the codes of the kinds are four and none of a type.
pub record IsRegistry (ctx : Context) : Type 0 where
  pub reverse :
      (t : GoType) (info : TypeInfo)
      → ctx.types t ≡ some info
      → ctx.types_reverse info.serialized ≡ some t
  pub small : (t : GoType) (info : TypeInfo) → ctx.types t ≡ some info → info.serialized < 256 ^ 8
  pub map_free : ctx.types_reverse ctx.map_code ≡ none
  pub pointer_free : ctx.types_reverse ctx.pointer_code ≡ none
  pub slice_free : ctx.types_reverse ctx.slice_code ≡ none
  pub array_free : ctx.types_reverse ctx.array_code ≡ none
  pub map_small : ctx.map_code < 256 ^ 8
  pub pointer_small : ctx.pointer_code < 256 ^ 8
  pub slice_small : ctx.slice_code < 256 ^ 8
  pub array_small : ctx.array_code < 256 ^ 8
  pub pointer_map : ctx.pointer_code ≢ ctx.map_code
  pub slice_map : ctx.slice_code ≢ ctx.map_code
  pub slice_pointer : ctx.slice_code ≢ ctx.pointer_code
  pub array_map : ctx.array_code ≢ ctx.map_code
  pub array_pointer : ctx.array_code ≢ ctx.pointer_code
  pub array_slice : ctx.array_code ≢ ctx.slice_code

abbrev pub type_size : GoType → ℕ
type_size (GoType.map k t) = suc (type_size k + type_size t)
type_size (GoType.pointer t) = suc (type_size t)
type_size (GoType.slice t) = suc (type_size t)
type_size (GoType.array n t) = suc (type_size t)
type_size t = 1

unfoldable mutual
  pub size : Value → ℕ
  size (Value.pointer v) = suc (size v)
  size (Value.slice t vs) = suc (size_values vs)
  size (Value.array t vs) = suc (size_values vs)
  size (Value.map k t es) = suc (size_entries es)
  size (Value.struct name fs) = suc (size_fields fs)
  size (Value.interface name v) = suc (type_size (type_of v) + size v)
  size v = 1

  pub size_values : Values → ℕ
  size_values no_values = 0
  size_values (value v vs) = size v + size_values vs

  pub size_entries : Entries → ℕ
  size_entries no_entries = 0
  size_entries (entry k v es) = size k + size v + size_entries es

  pub size_fields : Fields → ℕ
  size_fields no_fields = 0
  size_fields (field tag v fs) = size v + size_fields fs

-- The fields that stay when those of `gs` have been set.
abbrev pub remove_fields : Fields → Fields → Fields
remove_fields no_fields fs = fs
remove_fields (field tag v gs) fs = remove_fields gs (remove_field tag fs)

-- The key is none of those that are stored, and no key is one of those before it.
abbrev pub LacksKey : (Value → Value → Bool) → Value → Entries → Type 0
LacksKey same k no_entries = Unit
LacksKey same k (entry k' v es) = (same k k' ≡ false) × LacksKey same k es

abbrev pub AreFresh : (Value → Value → Bool) → Entries → Entries → Type 0
AreFresh same stored no_entries = Unit
AreFresh same stored (entry k v es) =
    LacksKey same k stored × AreFresh same (append_entry k v stored) es

abbrev pub LacksTag : ℕ → Fields → Type 0
LacksTag tag no_fields = Unit
LacksTag tag (field t v fs) = (t ≢ tag) × LacksTag tag fs

abbrev pub IsNotInterface : Value → Type 0
IsNotInterface (Value.interface name v) = ⊥
IsNotInterface (Value.nil_interface name) = ⊥
IsNotInterface v = Unit

module _ (ctx : Context) where
  -- Its maps have comparable keys, and its arrays fit into `int`.
  abbrev pub IsBuildable : GoType → Type 0
  IsBuildable (GoType.map k t) = (ctx.comparable k ≡ true) × IsBuildable k × IsBuildable t
  IsBuildable (GoType.pointer t) = IsBuildable t
  IsBuildable (GoType.slice t) = IsBuildable t
  IsBuildable (GoType.array n t) = (n < 2 ^ 63) × IsBuildable t
  IsBuildable t = Unit

  unfoldable mutual
    pub IsReadable : Value → Type 0
    IsReadable (Value.bool b) = Unit
    IsReadable (Value.num k n) = n < 256 ^ width k
    IsReadable (Value.string s) = length s < 2 ^ 63
    IsReadable (Value.id s) = length s ≡ 16
    IsReadable (Value.nil_pointer t) = Unit
    IsReadable (Value.pointer v) = (addressable v ≡ true) × IsReadable v
    IsReadable (Value.nil_slice t) = Unit
    IsReadable (Value.slice t vs) = (count vs < 2 ^ 63) × AreReadable t vs
    IsReadable (Value.array t vs) = AreReadable t vs
    IsReadable (Value.nil_map k t) = Unit
    IsReadable (Value.map k t es) =
        (count_entries es < 2 ^ 63)
        × AreFresh ctx.same_key no_entries es
        × EntriesAreReadable k t es
    IsReadable (Value.struct name fs) =
        ((info : TypeInfo) × (ctx.types (GoType.struct name) ≡ some info)
          × (post_deserialize ctx name info.post_deserialize fs ≡ ok fs)
          × (count_fields fs < 2 ^ 63)
          × (remove_fields fs (ctx.zero_fields name) ≡ no_fields)
          × FieldsAreReadable info.fields fs)
    IsReadable (Value.nil_interface name) = ⊥
    IsReadable (Value.interface name v) =
        IsNotInterface v
        × HasStack ctx (type_of v)
        × IsBuildable (type_of v)
        × (ctx.implements name (type_of v) ≡ true)
        × IsReadable v
    IsReadable (Value.other name) = ⊥

    pub AreReadable : GoType → Values → Type 0
    AreReadable t no_values = Unit
    AreReadable t (value v vs) = (type_of v ≡ t) × IsReadable v × AreReadable t vs

    pub EntriesAreReadable : GoType → GoType → Entries → Type 0
    EntriesAreReadable k t no_entries = Unit
    EntriesAreReadable k t (entry key v es) =
        (type_of key ≡ k)
        × (type_of v ≡ t)
        × IsReadable key
        × IsReadable v
        × (ctx.hashable key ≡ true)
        × EntriesAreReadable k t es

    pub FieldsAreReadable : List (ℕ × GoType) → Fields → Type 0
    FieldsAreReadable infos no_fields = Unit
    FieldsAreReadable infos (field tag v fs) =
        (tag < 256 ^ 8)
        × (field_type tag infos ≡ some (type_of v))
        × IsReadable v
        × LacksTag tag fs
        × FieldsAreReadable infos fs

pub split_append : (xs ys : List ℕ) (n : ℕ) → length xs ≡ n → split (xs ++ ys) n ≡ ok (xs, ys)
split_append xs ys n e =
    ap (split (xs ++ ys)) (sym e)
    ∙ ap (λ t. if t then ok (take (length xs) (xs ++ ys), drop (length xs) (xs ++ ys)) else panic)
        (le→leb (length xs) (length (xs ++ ys)) (omega (arith, length-append xs ys)))
    ∙ ap₂ (λ l r. ok (l, r)) (take-length-append xs ys) (drop-length-append xs ys)

pub read_append : (w n : ℕ) (ys : List ℕ) → n < 256 ^ w → read w (big_endian w n ++ ys) ≡ ok (n, ys)
read_append w n ys h =
    bind_ok _ (split_append (big_endian w n) ys w (length-big_endian w n))
      (ap (λ m. ok (m, ys)) (read-big_endian w n h))

pub read_byte : (b : ℕ) (ys : List ℕ) → read 1 (b ∷ ys) ≡ ok (b, ys)
unfolding from_big_endian
read_byte b ys = bind_ok _ (split_append (b ∷ []) ys 1 refl) (ap (λ m. ok (m, ys)) (omega arith))

pub int_fits : (n : ℕ) → n < 2 ^ 63 → is_negative n ≡ false
int_fits n h = ground arith

pub uint64_fits : (n : ℕ) → n < 2 ^ 63 → n < 256 ^ 8
uint64_fits n h = omega arith

pub if_true : {A : Type 0} (b : Bool) (x y : A) → b ≡ true → (if b then x else y) ≡ x
if_true b x y e = ap (λ t. if t then x else y) e

pub if_false : {A : Type 0} (b : Bool) (x y : A) → b ≡ false → (if b then x else y) ≡ y
if_false b x y e = ap (λ t. if t then x else y) e
