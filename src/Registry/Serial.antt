-- ===== src/Registry/Serial.antt =====
-- What registrations give to serialization.
use mathlib.Core.Option.{some-injective, none-ne-some}
use mathlib.Core.Path.{subst}
use graphvent.Prelude.{
  ℕ, ◌^◌, ◌<◌, ◌≡◌, ◌≢◌, refl, sym, ap, ◌∙◌, Option, none, some, Option-cases, inl, inr,
}
use graphvent.Prelude.Maps.{lookup}
use graphvent.Serialize.{GoType, TypeInfo, Context}
use graphvent.Serialize.Reading.{IsRegistry}
use graphvent.Registry.{TypeEntry, NodeInfo, Registry, Naming}
use graphvent.Registry.Sound.{CoversFields, IsRegistered, IsSound}
use graphvent.Registry.Reach.{Reached, Reached-IsSound}

abbrev pub info_of : Option TypeEntry → Option TypeInfo
info_of none = none
info_of (some e) = some e.info

-- The context that serialization has for registries: their types, and the rest of another context.
abbrev pub context_of : Registry → Context → Context
context_of reg base = record {
  types = λ t. info_of (reg.types t);
  types_reverse = reg.types_reverse;
  map_code = base.map_code;
  pointer_code = base.pointer_code;
  slice_code = base.slice_code;
  array_code = base.array_code;
  implements = base.implements;
  comparable = base.comparable;
  same_key = base.same_key;
  hashable = base.hashable;
  zero_fields = base.zero_fields;
  call_method = base.call_method;
}

-- No two registered types have one hash, and none has that of a kind.
pub record HasDistinctCodes (names : Naming) (reg : Registry) (base : Context) : Type 0 where
  pub injective :
      (t u : GoType)
      → IsRegistered names t reg
      → IsRegistered names u reg
      → names.serialize_type t ≡ names.serialize_type u
      → t ≡ u
  pub small : (t : GoType) → IsRegistered names t reg → names.serialize_type t < 256 ^ 8
  pub no_map : (t : GoType) → IsRegistered names t reg → names.serialize_type t ≢ base.map_code
  pub no_pointer :
      (t : GoType) → IsRegistered names t reg → names.serialize_type t ≢ base.pointer_code
  pub no_slice : (t : GoType) → IsRegistered names t reg → names.serialize_type t ≢ base.slice_code
  pub no_array : (t : GoType) → IsRegistered names t reg → names.serialize_type t ≢ base.array_code
  pub map_small : base.map_code < 256 ^ 8
  pub pointer_small : base.pointer_code < 256 ^ 8
  pub slice_small : base.slice_code < 256 ^ 8
  pub array_small : base.array_code < 256 ^ 8
  pub pointer_map : base.pointer_code ≢ base.map_code
  pub slice_map : base.slice_code ≢ base.map_code
  pub slice_pointer : base.slice_code ≢ base.pointer_code
  pub array_map : base.array_code ≢ base.map_code
  pub array_pointer : base.array_code ≢ base.pointer_code
  pub array_slice : base.array_code ≢ base.slice_code

entry_of :
    (o : Option TypeEntry) (info : TypeInfo)
    → info_of o ≡ some info
    → (e : TypeEntry) × (o ≡ some e) × (e.info ≡ info)
entry_of none info h = absurd (none-ne-some info h)
entry_of (some e) info h = (e, refl, some-injective e.info info h)

module _ (names : Naming) (reg : Registry) (base : Context) (h : IsSound names reg)
    (d : HasDistinctCodes names reg base) where
  code_free :
      (code : ℕ)
      → ((t : GoType) → IsRegistered names t reg → names.serialize_type t ≢ code)
      → reg.types_reverse code ≡ none
  code_free code differ = elim (Option-cases (reg.types_reverse code)) [
    | inl e ↦ e
    | inr t ↦ let from = h.origin code t.0 t.1 in absurd (differ t.0 from.1 from.0)
  ]

  reverse_known :
      (t : GoType) (info : TypeInfo)
      → info_of (reg.types t) ≡ some info
      → reg.types_reverse info.serialized ≡ some t
  reverse_known t info known =
      let entry = entry_of (reg.types t) info known in
      let u = h.reversed t entry.0 entry.1 in
      let from = h.origin entry.0.info.serialized u.0 u.1 in
      let same : u.0 ≡ t =
        d.injective u.0 t from.1 (entry.0, entry.1) (from.0 ∙ h.coded t entry.0 entry.1) in
      ap (λ i. reg.types_reverse i.serialized) (sym entry.2) ∙ u.1 ∙ ap some same

  small_known :
      (t : GoType) (info : TypeInfo) → info_of (reg.types t) ≡ some info → info.serialized < 256 ^ 8
  small_known t info known =
      let entry = entry_of (reg.types t) info known in
      subst {A = ℕ} (λ n. n < 256 ^ 8)
        (sym (h.coded t entry.0 entry.1) ∙ ap (λ i. i.serialized) entry.2)
        (d.small t (entry.0, entry.1))

  sound-IsRegistry : IsRegistry (context_of reg base)
  sound-IsRegistry = record {
    reverse = reverse_known;
    small = small_known;
    map_free = code_free base.map_code d.no_map;
    pointer_free = code_free base.pointer_code d.no_pointer;
    slice_free = code_free base.slice_code d.no_slice;
    array_free = code_free base.array_code d.no_array;
    map_small = d.map_small;
    pointer_small = d.pointer_small;
    slice_small = d.slice_small;
    array_small = d.array_small;
    pointer_map = d.pointer_map;
    slice_map = d.slice_map;
    slice_pointer = d.slice_pointer;
    array_map = d.array_map;
    array_pointer = d.array_pointer;
    array_slice = d.array_slice;
  }

-- After any registrations from a new Context, failed ones too: if the types that are registered have
-- hashes of eight bytes that differ from each other and from those of the four kinds, which differ
-- too, then the registry is sound for serialization; and every field of a node type is of an
-- extension that the node type requires.
pub Reached-IsRegistry :
    (names : Naming) (reg : Registry) (base : Context)
    → Reached names reg
    → HasDistinctCodes names reg base
    → IsRegistry (context_of reg base)
      × ((x : ℕ) (info : NodeInfo) → lookup x reg.node_types ≡ some info → CoversFields info)
Reached-IsRegistry names reg base reached d =
    let h : IsSound names reg = Reached-IsSound names reg reached in
    (sound-IsRegistry names reg base h d, h.covered)
