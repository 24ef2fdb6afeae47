-- ===== src/Registry/Library/Steps.antt =====
-- The registrations of NewContext one by one.
use graphvent.Prelude.{ℕ, ◌++◌, ◌≡◌, refl, false, List, [], ◌∷◌, some}
use graphvent.Prelude.Maps.{Map, keys, lookup, has, insert}
use graphvent.Serialize.{GoType}
use graphvent.Registry.{
  ExtensionInfo, ExtensionFieldInfo, NodeInfo, TypeEntry, VisibleField, GqlType, FieldMapping,
  Registry, Naming, valid, invalid, Registering, ◌then_with◌, gql_type,
}
use graphvent.Registry.Types.{
  register_extension, register_node_type, lacks_types, map_fields, extension_fields, Mapped,
  reverse_with, with_extension, with_node_type,
}
use graphvent.Registry.Reach.{
  Reached, scalar, object, object_no_gql, gql, extension, node_interface, node_type,
}
use graphvent.Registry.Library.{
  Registration, perform, perform_all, interface_fields, id_name, type_name,
}

module _ (names : Naming) where
  then_with-Reached :
      {A B : Type 0} (a : Registering A) (f : A → Registry → Registering B)
      → Reached names a.0
      → ((x : A) (reg : Registry) → Reached names reg → Reached names (f x reg).0)
      → Reached names (a then_with f).0
  then_with-Reached (reg, valid x) f h k = k x reg h
  then_with-Reached (reg, invalid e) f h k = h

  interface_fields-Reached :
      (fields : Map (GoType × ℕ)) (reg : Registry)
      → Reached names reg
      → Reached names (interface_fields names fields reg).0
  unfolding interface_fields
  interface_fields-Reached [] reg h = h
  interface_fields-Reached ((name, (t, tag)) ∷ fields) reg h =
      then_with-Reached (gql_type names t tag reg) _ (gql t tag h) λ g reg1 h1.
        then_with-Reached (interface_fields names fields reg1) _
          (interface_fields-Reached fields reg1 h1) (λ gqls reg2 h2. h2)

  perform-Reached :
      (r : Registration) (reg : Registry)
      → Reached names reg
      → Reached names (perform names r reg).0
  perform-Reached (Registration.scalar t) reg h = scalar t h
  perform-Reached (Registration.object t fields post) reg h = object t fields post h
  perform-Reached (Registration.object_no_gql t fields post) reg h = object_no_gql t fields post h
  perform-Reached (Registration.extension struct fields) reg h = extension _ struct fields h
  perform-Reached (Registration.node_type name mappings) reg h = node_type name mappings h
  perform-Reached (Registration.node_interface name fields) reg h =
      then_with-Reached (interface_fields names fields reg) _
        (interface_fields-Reached fields reg h)
        (λ gqls reg' h'. node_interface (id_name ∷ type_name ∷ []) name gqls h')

  pub perform_all-Reached :
      (rs : List Registration) (reg : Registry)
      → Reached names reg
      → Reached names (perform_all names rs reg).0
  unfolding perform_all
  perform_all-Reached [] reg h = h
  perform_all-Reached (r ∷ rs) reg h =
      then_with-Reached (perform names r reg) _ (perform-Reached r reg h)
        (λ u reg' h'. perform_all-Reached rs reg' h')

  abbrev pub mapped_with : ℕ → FieldMapping → ℕ → GqlType → Mapped → Mapped
  mapped_with name mapping index g m = record {
    fields =
        insert name (record { extension = mapping.extension; index = index; type = g }) m.fields;
    reverse_fields = reverse_with mapping name m.reverse_fields;
  }

  -- One mapping that is as it should be.
  pub map_fields_step :
      (name : ℕ) (mapping : FieldMapping) (mappings : Map FieldMapping) (m : Mapped)
      (reg reg' : Registry) (info : ExtensionInfo) (field : ExtensionFieldInfo) (g : GqlType)
      → has name m.fields ≡ false
      → lookup mapping.extension reg.extensions ≡ some info
      → lookup mapping.tag info.fields ≡ some field
      → gql_type names field.type field.node_tag reg ≡ (reg', valid g)
      → map_fields names ((name, mapping) ∷ mappings) m reg
        ≡ map_fields names mappings (mapped_with name mapping field.index g m) reg'
  unfolding map_fields
  map_fields_step name mapping mappings m reg reg' info field g fresh ext tag answer =
      rw (fresh, ext, tag, answer) refl

  -- Registrations behind some that succeed.
  pub perform_all-append :
      (rs ss : List Registration) (reg : Registry)
      → (perform_all names rs reg).1 ≡ valid tt
      → perform_all names (rs ++ ss) reg ≡ perform_all names ss (perform_all names rs reg).0
  unfolding perform_all
  perform_all-append [] ss reg h = refl
  perform_all-append (r ∷ rs) ss reg h = by_first (perform names r reg) h (perform_all-append rs ss)
    where
      by_first :
          (a : Registering (Unit {0}))
          → (a then_with λ u reg'. perform_all names rs reg').1 ≡ valid tt
          → ((reg : Registry)
              → (perform_all names rs reg).1 ≡ valid tt
              → perform_all names (rs ++ ss) reg
                ≡ perform_all names ss (perform_all names rs reg).0)
          → (a then_with λ u reg'. perform_all names (rs ++ ss) reg')
            ≡ perform_all names ss (a then_with λ u reg'. perform_all names rs reg').0
      by_first (reg', valid u) e later = later reg' e
      by_first (reg', invalid x) e later = cc

  abbrev pub extension_info : ℕ → List VisibleField → ExtensionInfo
  extension_info struct fields = record {
    ext_type = names.serialize_type (GoType.struct struct);
    type = struct;
    fields = extension_fields fields [];
  }

  pub valid_step :
      (r : Registration) (rs : List Registration) (reg : Registry)
      → (perform names r reg).1 ≡ valid tt
      → perform_all names (r ∷ rs) reg ≡ perform_all names rs (perform names r reg).0
  unfolding perform_all
  valid_step r rs reg h = by_answer (perform names r reg) h
    where
      by_answer :
          (a : Registering (Unit {0}))
          → a.1 ≡ valid tt
          → (a then_with λ u reg'. perform_all names rs reg') ≡ perform_all names rs a.0
      by_answer (reg', valid u) e = refl
      by_answer (reg', invalid x) e = cc

  abbrev pub node_info : ℕ → Mapped → NodeInfo
  node_info name m = record {
    node_type = names.node_type_for name;
    required_extensions = keys m.reverse_fields;
    fields = m.fields;
    reverse_fields = m.reverse_fields;
  }

  abbrev pub nothing_mapped : Mapped
  nothing_mapped = record { fields = []; reverse_fields = [] }

  pub node_type_step :
      (name : ℕ) (mappings : Map FieldMapping) (rs : List Registration) (reg reg' : Registry)
      (m : Mapped)
      → has (names.node_type_for name) reg.node_types ≡ false
      → lacks_types names reg ≡ false
      → map_fields names mappings nothing_mapped reg ≡ (reg', valid m)
      → perform_all names (Registration.node_type name mappings ∷ rs) reg
        ≡ perform_all names rs (with_node_type (node_info name m) reg')
  unfolding perform_all register_node_type
  node_type_step name mappings rs reg reg' m fresh types mapped = rw (fresh, types, mapped) refl

  pub known_other :
      (n tag : ℕ) (reg : Registry) (e : TypeEntry)
      → reg.types (GoType.other n) ≡ some e
      → gql_type names (GoType.other n) tag reg ≡ (reg, valid e.gql)
  unfolding gql_type
  known_other n tag reg e known = rw known refl

  pub known_map :
      (k t : GoType) (tag : ℕ) (reg : Registry) (e : TypeEntry)
      → reg.types (GoType.map k t) ≡ some e
      → gql_type names (GoType.map k t) tag reg ≡ (reg, valid e.gql)
  unfolding gql_type
  known_map k t tag reg e known = rw known refl

  pub extension_step :
      (struct : ℕ) (fields : List VisibleField) (rs : List Registration) (reg : Registry)
      → has (names.serialize_type (GoType.struct struct)) reg.extensions ≡ false
      → perform_all names (Registration.extension struct fields ∷ rs) reg
        ≡ perform_all names rs (with_extension (extension_info struct fields) reg)
  unfolding perform_all register_extension
  extension_step struct fields rs reg fresh = rw fresh refl
