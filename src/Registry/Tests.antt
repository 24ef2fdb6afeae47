-- ===== src/Registry/Tests.antt =====
-- The theorem on registrations applied to some of them.
use mathlib.Core.Option.{none-ne-some}
use mathlib.Core.Path.{subst}
use graphvent.Prelude.{
  true, ℕ, ◌+◌, ◌≡◌, ◌≢◌, refl, sym, ap, ◌∙◌, ◌<◌, ◌^◌, ◌⊎◌, inl, inr, [], ◌∷◌, Option, none, some,
  ◌==◌, if◌then◌else◌, arith,
}
use graphvent.Serialize.{Value, entry, no_entries, scalar_info, uint8, GoType, GoType-discrete}
use graphvent.Registry.{
  GqlType, list, pairs, interface_type, named, TypeEntry, NodeInfo, Naming, Registry, valid,
  enter_type, gql_type, register_scalar, VisibleField,
}
use graphvent.Registry.Types.{
  register_node_interface, extension_fields, register_extension, map_fields, register_node_type,
  lacks_types,
}
use graphvent.Registry.Reach.{empty_registry, start, scalar, extension, node_type}
use graphvent.Registry.Resolving.{gql_resolve}
use graphvent.Prelude.Maps.{lookup, has, insert}
use graphvent.Serialize.Samples.{test_context}
use graphvent.Serialize.Reading.{IsRegistry}
use graphvent.Registry.Sound.{CoversFields, IsRegistered}
use graphvent.Registry.Serial.{context_of, HasDistinctCodes, Reached-IsRegistry}

abbrev some_codes : GoType → ℕ
some_codes GoType.string = 5
some_codes (GoType.num kind) = 6
some_codes (GoType.map k t) = 7
some_codes GoType.id = 4
some_codes t = 8

abbrev some_names : Naming
some_names = record {
  serialize_type = some_codes;
  field_tag = λ tag. tag;
  node_type_for = λ name. name + 1000;
  split_tag = λ tag. some (tag, tag);
  no_tag = 0;
  base = 1;
  node_type_type = GoType.num uint8;
}

abbrev some_map : GoType
some_map = GoType.map GoType.string (GoType.num uint8)

-- A field with a `gv` and no `node` tag.
abbrev map_field : VisibleField
map_field = record { gv = some 5; node = 0; type = some_map; index = 0 }

abbrev after_two : Registry
after_two =
    (register_scalar some_names GoType.string
      (register_scalar some_names GoType.id empty_registry).0).0

abbrev after_scalars : Registry
after_scalars = (register_scalar some_names (GoType.num uint8) after_two).0

abbrev after_extension : Registry
after_extension = (register_extension 7 1 (map_field ∷ []) after_scalars).0

-- The node type has a field of the map's type, which is registered with it.
abbrev after_all : Registry
after_all =
    (register_node_type some_names 3 ((20, record { extension = 7; tag = 5 }) ∷ [])
      after_extension).0

node_type_valid :
    (register_node_type some_names 3
      ((20, record { extension = 7; tag = 5 }) ∷ [])
      after_extension).1
    ≡ valid tt
unfolding register_node_type register_extension register_scalar gql_type enter_type map_fields
    extension_fields lookup has insert lacks_types GoType-discrete
node_type_valid = refl

abbrev some_scalar : ℕ → GoType → TypeEntry
some_scalar code t = record { info = scalar_info code; gql = named t }

type_cases :
    (t : GoType) (added : TypeEntry) (types : GoType → Option TypeEntry) (u : GoType)
    (e : TypeEntry) (d : Dec (u ≡ t))
    → elim d as (λ x. Option TypeEntry) [ yes same ↦ some added | no differ ↦ types u ] ≡ some e
    → (u ≡ t) ⊎ (types u ≡ some e)
type_cases t added types u e (yes same) h = inl same
type_cases t added types u e (no differ) h = inr h

known_types :
    (u : GoType)
    → IsRegistered some_names u after_all
    → (u ≡ some_map) ⊎ ((u ≡ GoType.num uint8) ⊎ ((u ≡ GoType.string) ⊎ (u ≡ GoType.id)))
unfolding register_node_type register_extension register_scalar gql_type enter_type map_fields
    extension_fields lookup has insert lacks_types GoType-discrete
known_types u r =
    elim (type_cases some_map _ after_scalars.types u r.0 (GoType-discrete u some_map) r.1) [
      | inl e ↦ inl e
      | inr h3 ↦
          elim (type_cases (GoType.num uint8) (some_scalar 6 (GoType.num uint8)) after_two.types u
            r.0 (GoType-discrete u (GoType.num uint8)) h3) [
              | inl e ↦ inr (inl e)
              | inr h2 ↦
                  elim (type_cases GoType.string (some_scalar 5 GoType.string)
                    (register_scalar some_names GoType.id empty_registry).0.types u r.0
                    (GoType-discrete u GoType.string) h2) [
                      | inl e ↦ inr (inr (inl e))
                      | inr h1 ↦
                          elim (type_cases GoType.id (some_scalar 4 GoType.id) (λ t. none) u r.0
                            (GoType-discrete u GoType.id) h1) [
                              | inl e ↦ inr (inr (inr e))
                              | inr h0 ↦ absurd (none-ne-some r.0 h0)
                            ]
                    ]
            ]
    ]

-- The registered type of a hash.
abbrev type_with : ℕ → GoType
type_with n =
    if n == 7
    then some_map
    else if n == 6
    then GoType.num uint8
    else if n == 5
    then GoType.string
    else GoType.id

type_with-some_codes :
    (u : GoType) → IsRegistered some_names u after_all → type_with (some_codes u) ≡ u
type_with-some_codes u r = elim (known_types u r) [
  | inl e ↦ ap (λ t. type_with (some_codes t)) e ∙ sym e
  | inr (inl e) ↦ ap (λ t. type_with (some_codes t)) e ∙ sym e
  | inr (inr (inl e)) ↦ ap (λ t. type_with (some_codes t)) e ∙ sym e
  | inr (inr (inr e)) ↦ ap (λ t. type_with (some_codes t)) e ∙ sym e
]

some_codes-bound : (u : GoType) → IsRegistered some_names u after_all → some_codes u < 8
some_codes-bound u r = elim (known_types u r) [
  | inl e ↦ bounded 7 (ap some_codes e) (omega arith)
  | inr (inl e) ↦ bounded 6 (ap some_codes e) (omega arith)
  | inr (inr (inl e)) ↦ bounded 5 (ap some_codes e) (omega arith)
  | inr (inr (inr e)) ↦ bounded 4 (ap some_codes e) (omega arith)
]
  where
    bounded : (n : ℕ) → some_codes u ≡ n → n < 8 → some_codes u < 8
    bounded n e h = subst {A = ℕ} (λ k. k < 8) (sym e) h

differ : (n m : ℕ) → n < 8 → 100 < m → n ≢ m
differ n m h g e = omega arith

codes : HasDistinctCodes some_names after_all test_context
codes = record {
  injective =
      λ t u r r' e. sym (type_with-some_codes t r) ∙ ap type_with e ∙ type_with-some_codes u r';
  small = λ t r. below (some_codes t) (some_codes-bound t r);
  no_map = λ t r. differ (some_codes t) test_context.map_code (some_codes-bound t r) (omega arith);
  no_pointer =
      λ t r. differ (some_codes t) test_context.pointer_code (some_codes-bound t r) (omega arith);
  no_slice =
      λ t r. differ (some_codes t) test_context.slice_code (some_codes-bound t r) (omega arith);
  no_array =
      λ t r. differ (some_codes t) test_context.array_code (some_codes-bound t r) (omega arith);
  map_small = omega arith;
  pointer_small = omega arith;
  slice_small = omega arith;
  array_small = omega arith;
  pointer_map = λ e. omega arith;
  slice_map = λ e. omega arith;
  slice_pointer = λ e. omega arith;
  array_map = λ e. omega arith;
  array_pointer = λ e. omega arith;
  array_slice = λ e. omega arith;
}
  where
    below : (n : ℕ) → n < 8 → n < 256 ^ 8
    below n h = omega arith

Reached-IsRegistry_example :
    IsRegistry (context_of after_all test_context)
    × ((x : ℕ) (info : NodeInfo) → lookup x after_all.node_types ≡ some info → CoversFields info)
Reached-IsRegistry_example =
    Reached-IsRegistry some_names after_all test_context
      (node_type 3 ((20, record { extension = 7; tag = 5 }) ∷ []) (
        extension 7 1 (map_field ∷ [])
          (scalar (GoType.num uint8) (scalar GoType.string (scalar GoType.id start)))))
      codes

-- With the interface "Base", which a NodeID is shown as.
abbrev with_base : Registry
with_base = (register_node_interface some_names [] 1 [] after_scalars).0

abbrev some_ids : Value
some_ids =
    Value.map GoType.id (GoType.num uint8)
      (entry (Value.id (4 ∷ [])) (Value.num uint8 3) no_entries)

abbrev ids_gql : GqlType
ids_gql = list (pairs (interface_type 1) (named (GoType.num uint8)))

-- A pointer to a NodeID is shown as a node, but never resolved, nor is a pointer to a map.
pointers_unresolved :
    (gql_resolve (λ bs. true) (GoType.pointer GoType.id) (Value.pointer (Value.id (4 ∷ []))) ≡ none)
    × (gql_resolve
          (λ bs. true)
          (GoType.pointer some_map)
          (Value.pointer (Value.nil_map GoType.string (GoType.num uint8)))
        ≡ none)
unfolding gql_resolve GoType-discrete
pointers_unresolved = (refl, refl)
