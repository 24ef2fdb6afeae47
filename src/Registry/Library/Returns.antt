-- ===== src/Registry/Library/Returns.antt =====
-- What NewContext makes of the registries.
use native.Mathlib.Decide.{ℕ_discrete}
use graphvent.Prelude.{
  ℕ, take, drop, ◌≡◌, ◌≢◌, refl, ap, ◌∙◌, Bool, false, ◌||◌, [], ◌∷◌, some, ◌==◌, ==_refl, arith,
}
use graphvent.Prelude.Maps.{Map, lookup, has, insert, lookup-insert, has-insert}
use graphvent.Serialize.{GoType, GoType-discrete, scalar_info}
use graphvent.Serialize.Reading.{if_true, if_false}
use graphvent.Registry.{
  ExtensionInfo, ExtensionFieldInfo, NodeInfo, TypeEntry, named, list, pairs, interface_type,
  FieldMapping, Registry, Naming, valid, Registering, gql_type, register_scalar, register_object,
  register_object_no_gql, enter_type, gql_node_id, field_types, field_infos,
}
use graphvent.Registry.Types.{
  register_extension, register_node_interface, register_node_type, has_reserved, lacks_types,
  map_fields, extension_fields, Mapped, with_extension, with_node_type,
}
use graphvent.Registry.Reach.{empty_registry, Reached, start}
use graphvent.Registry.Library.{
  Registration, library_names, library, new_context, perform, perform_all, interface_fields,
  lockable_struct, listener_struct, gql_struct, lockable_fields, listener_fields, gql_fields,
  lockable_name, lockable_state_name, requirements_name, no_name, base_name, lockable_keys,
  lockable_values, req_state_type, state_tag, requirements_tag, lockable_field, node_name,
  lockable_node_name,
}
use graphvent.Registry.Library.Steps.{
  perform_all-Reached, perform_all-append, valid_step, node_type_step, known_other, known_map,
  extension_step, map_fields_step, mapped_with, node_info, nothing_mapped, extension_info,
}

module _ (hash : GoType → ℕ) (field_tag node_hash : ℕ → ℕ) (post : ℕ) where
  abbrev pub names : Naming
  names = library_names hash field_tag node_hash

  abbrev hash_of : ℕ → ℕ
  hash_of struct = hash (GoType.struct struct)

  -- Behind RegisterExtension of LockableExt, with 7 calls more to come.
  abbrev with_lockable : Registry
  with_lockable = (perform_all names (take 19 (library names post)) empty_registry).0

  begins_valid : (perform_all names (take 19 (library names post)) empty_registry).1 ≡ valid tt
  unfolding perform_all interface_fields gql_type register_scalar register_object
      register_object_no_gql enter_type gql_node_id field_types field_infos register_extension
      register_node_interface register_node_type has_reserved lacks_types map_fields
      extension_fields lookup has insert GoType-discrete ℕ_discrete
  begins_valid = refl

  begins : new_context names post ≡ perform_all names (drop 19 (library names post)) with_lockable
  begins =
      perform_all-append names (take 19 (library names post)) (drop 19 (library names post))
        empty_registry begins_valid

  -- The same with other extensions, of which the next call takes no notice.
  abbrev extended : Map ExtensionInfo → Registry
  extended extensions = record {
    types = with_lockable.types;
    types_reverse = with_lockable.types_reverse;
    extensions = extensions;
    interfaces = with_lockable.interfaces;
    node_types = with_lockable.node_types;
  }

  abbrev pub with_interface : Map ExtensionInfo → Registering (Unit {0})
  with_interface extensions =
      perform names
        (Registration.node_interface lockable_name (
          (lockable_state_name, (req_state_type, no_name))
          ∷ (requirements_name, (GoType.map GoType.id req_state_type, lockable_values))
          ∷ []))
        (extended extensions)

  abbrev pub lockable_info : ExtensionInfo
  lockable_info = extension_info names lockable_struct lockable_fields

  abbrev requirements_type : GoType
  requirements_type = GoType.map GoType.id req_state_type

  one_extension : with_lockable.extensions ≡ (hash_of lockable_struct, lockable_info) ∷ []
  unfolding perform_all interface_fields gql_type register_scalar register_object
      register_object_no_gql enter_type gql_node_id field_types field_infos register_extension
      register_node_interface register_node_type has_reserved lacks_types map_fields
      extension_fields lookup has insert GoType-discrete ℕ_discrete
  one_extension = refl

  abbrev state_entry : TypeEntry
  state_entry = record { info = scalar_info (hash req_state_type); gql = named req_state_type }

  abbrev requirements_entry : TypeEntry
  requirements_entry = record {
    info = scalar_info (hash requirements_type);
    gql = list (pairs (interface_type base_name) (named req_state_type));
  }

  -- What the calls behind that of the interface "Lockable" look at.
  interface_facts :
      (extensions : Map ExtensionInfo)
      → let r = with_interface extensions in
        (r.1 ≡ valid tt)
        × (r.0.types req_state_type ≡ some state_entry)
        × (r.0.types requirements_type ≡ some requirements_entry)
        × (r.0.extensions ≡ extensions)
        × (has (node_hash lockable_node_name) r.0.node_types
            ≡ (node_hash lockable_node_name == node_hash node_name || false))
        × (lacks_types names r.0 ≡ false)
        × ((info : NodeInfo)
            → (perform_all names (drop 23 (library names post)) (with_node_type info r.0)).1
              ≡ valid tt)
  unfolding perform_all interface_fields gql_type register_scalar register_object
      register_object_no_gql enter_type gql_node_id field_types field_infos register_extension
      register_node_interface register_node_type has_reserved lacks_types map_fields
      extension_fields lookup has insert GoType-discrete ℕ_discrete
  interface_facts extensions = (refl, refl, refl, refl, refl, refl, λ info. refl)

  differ : (n m : ℕ) → n ≢ m → (m == n) ≡ false
  differ n m h = ground arith

  differ_or : (n m : ℕ) (b : Bool) → n ≢ m → b ≡ false → (n == m || b) ≡ false
  differ_or n m b h e = ground arith

  abbrev field_info : ℕ → GoType → ℕ → ExtensionFieldInfo
  field_info index t node = record { index = index; type = t; node_tag = node }

  -- The extensions of NewContext.
  abbrev listener_info : ExtensionInfo
  listener_info = extension_info names listener_struct listener_fields

  abbrev gql_info : ExtensionInfo
  gql_info = extension_info names gql_struct gql_fields

  abbrev two_extensions : Map ExtensionInfo
  two_extensions = insert (hash_of listener_struct) listener_info with_lockable.extensions

  abbrev pub all_extensions : Map ExtensionInfo
  all_extensions = insert (hash_of gql_struct) gql_info two_extensions

  module _ (d1 : hash_of listener_struct ≢ hash_of lockable_struct)
      (d2 : hash_of gql_struct ≢ hash_of lockable_struct)
      (d3 : hash_of gql_struct ≢ hash_of listener_struct) where
    fresh_in_one : (h : ℕ) → h ≢ hash_of lockable_struct → has h with_lockable.extensions ≡ false
    unfolding has
    fresh_in_one h d = ap (has h) one_extension ∙ differ_or h (hash_of lockable_struct) false d refl

    extend :
        perform_all names (drop 19 (library names post)) with_lockable
        ≡ perform_all names (drop 21 (library names post)) (extended all_extensions)
    extend =
        extension_step names listener_struct listener_fields (drop 20 (library names post))
          with_lockable (fresh_in_one (hash_of listener_struct) d1)
        ∙ extension_step names gql_struct gql_fields (drop 21 (library names post))
            (with_extension listener_info with_lockable)
            (has-insert (hash_of listener_struct) (hash_of gql_struct) listener_info
                with_lockable.extensions
              ∙ differ_or (hash_of gql_struct) (hash_of listener_struct) _ d3
                  (fresh_in_one (hash_of gql_struct) d2))

    found_lockable :
        lookup (hash_of lockable_struct) (with_interface all_extensions).0.extensions
        ≡ some lockable_info
    unfolding lookup
    found_lockable =
        ap (lookup (hash_of lockable_struct)) (interface_facts all_extensions).3
        ∙ lookup-insert (hash_of gql_struct) (hash_of lockable_struct) gql_info two_extensions
        ∙ if_false _ _ _ (differ (hash_of gql_struct) (hash_of lockable_struct) d2)
        ∙ lookup-insert (hash_of listener_struct) (hash_of lockable_struct) listener_info
            with_lockable.extensions
        ∙ if_false _ _ _ (differ (hash_of listener_struct) (hash_of lockable_struct) d1)
        ∙ ap (lookup (hash_of lockable_struct)) one_extension
        ∙ if_true _ _ _ (==_refl (hash_of lockable_struct))

    -- The fields of LockableNode.
    abbrev state_mapped : Mapped
    state_mapped =
        mapped_with names lockable_state_name (lockable_field names state_tag) 0
          (named req_state_type) (nothing_mapped names)

    abbrev pub all_mapped : Mapped
    all_mapped =
        mapped_with names requirements_name (lockable_field names requirements_tag) 4
          requirements_entry.gql state_mapped

    abbrev requirements_mapping : Map FieldMapping
    requirements_mapping = (requirements_name, lockable_field names requirements_tag) ∷ []

    lockable_node_mapped :
        let reg = (with_interface all_extensions).0 in
        map_fields names
          ((lockable_state_name, lockable_field names state_tag) ∷ requirements_mapping)
          (nothing_mapped names)
          reg
        ≡ (reg, valid all_mapped)
    unfolding map_fields lookup has insert extension_fields
    lockable_node_mapped =
        let reg = (with_interface all_extensions).0 in
        let facts = interface_facts all_extensions in
        map_fields_step names lockable_state_name (lockable_field names state_tag)
          requirements_mapping (nothing_mapped names) reg reg lockable_info
          (field_info 0 req_state_type no_name) (named req_state_type) refl found_lockable refl
          (known_other names 2 no_name reg state_entry facts.1)
        ∙ map_fields_step names requirements_name (lockable_field names requirements_tag) []
            state_mapped reg reg lockable_info (field_info 4 requirements_type lockable_keys)
            requirements_entry.gql refl found_lockable refl
            (known_map names GoType.id req_state_type lockable_keys reg requirements_entry facts.2)

    -- Behind RegisterNodeType of LockableNode.
    abbrev pub with_lockable_node : Registry
    with_lockable_node =
        with_node_type (node_info names lockable_node_name all_mapped)
          (with_interface all_extensions).0

    pub new_context-ends :
        node_hash lockable_node_name ≢ node_hash node_name
        → new_context names post
          ≡ perform_all names (drop 23 (library names post)) with_lockable_node
    new_context-ends d4 =
        let reg = (with_interface all_extensions).0 in
        let facts = interface_facts all_extensions in
        begins
        ∙ extend
        ∙ valid_step names _ (drop 22 (library names post)) (extended all_extensions) facts.0
        ∙ node_type_step names lockable_node_name _ (drop 23 (library names post)) reg reg
            all_mapped
            (facts.4 ∙ differ_or (node_hash lockable_node_name) (node_hash node_name) false d4 refl)
            facts.5 lockable_node_mapped

    new_context-succeeds :
        node_hash lockable_node_name ≢ node_hash node_name → (new_context names post).1 ≡ valid tt
    new_context-succeeds d4 =
        ap (λ r. r.1) (new_context-ends d4)
        ∙ (interface_facts all_extensions).6 (node_info names lockable_node_name all_mapped)

-- NewContext, as far as the registries, succeeds if the hashes of the three extensions differ and
-- those of the two node types, whatever the other hashes are. Whether it succeeds or not, it leaves
-- registries that registrations lead to from a new Context.
pub new_context-returns :
    (hash : GoType → ℕ) (field_tag node_hash : ℕ → ℕ) (post : ℕ)
    → hash (GoType.struct listener_struct) ≢ hash (GoType.struct lockable_struct)
    → hash (GoType.struct gql_struct) ≢ hash (GoType.struct lockable_struct)
    → hash (GoType.struct gql_struct) ≢ hash (GoType.struct listener_struct)
    → node_hash lockable_node_name ≢ node_hash node_name
    → ((new_context (library_names hash field_tag node_hash) post).1 ≡ valid tt)
      × Reached
          (library_names hash field_tag node_hash)
          (new_context (library_names hash field_tag node_hash) post).0
new_context-returns hash field_tag node_hash post d1 d2 d3 d4 = (
  new_context-succeeds hash field_tag node_hash post d1 d2 d3 d4,
  perform_all-Reached (library_names hash field_tag node_hash) _ empty_registry start,
)
