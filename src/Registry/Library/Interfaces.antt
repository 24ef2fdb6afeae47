-- ===== src/Registry/Library/Interfaces.antt =====
-- context.go: the interfaces of the node types that NewContext registers.
use native.Mathlib.Decide.{ℕ_discrete}
use graphvent.Prelude.{
  ℕ, Bool, drop, ◌≡◌, ◌≢◌, refl, ap, ◌∙◌, true, false, [], ◌∷◌, some, ◌==◌, ==_refl, arith,
  if◌then◌else◌,
}
use graphvent.Prelude.Maps.{Map, lookup, has, insert, lookup-insert}
use graphvent.Serialize.{GoType, GoType-discrete}
use graphvent.Serialize.Reading.{if_true, if_false}
use graphvent.Registry.{
  NodeInfo, GqlType, named, list, pairs, interface_type, Registry, gql_type, register_scalar,
  register_object, register_object_no_gql, enter_type, gql_node_id, field_types, field_infos,
}
use graphvent.Registry.Types.{
  register_extension, register_node_interface, register_node_type, has_reserved, lacks_types,
  map_fields, extension_fields, with_node_type,
}
use graphvent.Registry.Interfaces.{has_fields, gql_interfaces, interfaces_of}
use graphvent.Registry.Library.{
  library_names, library, new_context, perform_all, interface_fields, lockable_struct,
  listener_struct, gql_struct, lockable_name, lockable_state_name, requirements_name, base_name,
  req_state_type, node_name, lockable_node_name,
}
use graphvent.Registry.Library.Steps.{node_info}
use graphvent.Registry.Library.Returns.{
  names, with_interface, all_extensions, all_mapped, new_context-ends,
}

abbrev pub requirements_gql : GqlType
requirements_gql = list (pairs (interface_type base_name) (named req_state_type))

abbrev node_type_info : ℕ → NodeInfo
node_type_info code = record {
  node_type = code;
  required_extensions = [];
  fields = [];
  reverse_fields = [];
}

abbrev both_interfaces : Map (Map GqlType)
both_interfaces =
    (base_name, [])
    ∷ (
      lockable_name,
      (lockable_state_name, named req_state_type) ∷ (requirements_name, requirements_gql) ∷ [],
    )
    ∷ []

module _ (hash : GoType → ℕ) (field_tag node_hash : ℕ → ℕ) (post : ℕ) where
  -- The calls behind RegisterNodeType of LockableNode touch no interface and no node type.
  last_calls :
      (info : NodeInfo)
      → let reg =
          with_interface hash field_tag node_hash post
            (all_extensions hash field_tag node_hash post) in
        let last =
          (perform_all
            (names hash field_tag node_hash post)
            (drop 23 (library (names hash field_tag node_hash post) post))
            (with_node_type info reg.0)).0 in
        (last.interfaces ≡ both_interfaces)
        × (last.node_types
            ≡ insert info.node_type info
                ((node_hash node_name, node_type_info (node_hash node_name)) ∷ []))
  unfolding perform_all interface_fields gql_type register_scalar register_object
      register_object_no_gql enter_type gql_node_id field_types field_infos register_extension
      register_node_interface register_node_type has_reserved lacks_types map_fields
      extension_fields lookup has insert GoType-discrete ℕ_discrete
  last_calls info = (refl, refl)

  -- The registries that NewContext leaves, as far as an interface of a node type depends on them.
  module _ (d1 : hash (GoType.struct listener_struct) ≢ hash (GoType.struct lockable_struct))
      (d2 : hash (GoType.struct gql_struct) ≢ hash (GoType.struct lockable_struct))
      (d3 : hash (GoType.struct gql_struct) ≢ hash (GoType.struct listener_struct))
      (d4 : node_hash lockable_node_name ≢ node_hash node_name) where
    abbrev reg : Registry
    reg = (new_context (library_names hash field_tag node_hash) post).0

    abbrev info : NodeInfo
    info =
        node_info (names hash field_tag node_hash post) lockable_node_name
          (all_mapped hash field_tag node_hash post d1 d2 d3)

    interfaces_left : reg.interfaces ≡ both_interfaces
    interfaces_left =
        ap (λ r. r.0.interfaces) (new_context-ends hash field_tag node_hash post d1 d2 d3 d4)
        ∙ (last_calls info).0

    node_types_left :
        reg.node_types
        ≡ insert info.node_type info
            ((node_hash node_name, node_type_info (node_hash node_name)) ∷ [])
    node_types_left =
        ap (λ r. r.0.node_types) (new_context-ends hash field_tag node_hash post d1 d2 d3 d4)
        ∙ (last_calls info).1

    lookup_left :
        (code : ℕ)
        → lookup code reg.node_types ≡ (
            if code == node_hash lockable_node_name
            then some info
            else lookup code ((node_hash node_name, node_type_info (node_hash node_name)) ∷ []))
    lookup_left code = ap (lookup code) node_types_left ∙ lookup-insert _ code info _

    known_node :
        lookup (node_hash node_name) reg.node_types ≡ some (node_type_info (node_hash node_name))
    unfolding lookup
    known_node =
        lookup_left (node_hash node_name)
        ∙ if_false _ _ _ (differs d4)
        ∙ if_true _ _ _ (==_refl (node_hash node_name))
      where
        differs : {n m : ℕ} → n ≢ m → (m == n) ≡ false
        differs h = ground arith

    known_lockable_node : lookup (node_hash lockable_node_name) reg.node_types ≡ some info
    known_lockable_node =
        lookup_left (node_hash lockable_node_name)
        ∙ if_true _ _ _ (==_refl (node_hash lockable_node_name))

-- When the hashes of the three extensions differ and those of the two node types, GQLInterfaces gives,
-- in the registries that NewContext leaves, the interface Base to the node type Node, and Base and
-- Lockable to LockableNode, whatever it compares pointers by, if the pointer to the type of ReqState
-- is the same as itself and that to the list of the requirements is.
pub new_context-interfaces :
    (hash : GoType → ℕ) (field_tag node_hash : ℕ → ℕ) (post : ℕ)
    (same_type : GqlType → GqlType → Bool)
    → hash (GoType.struct listener_struct) ≢ hash (GoType.struct lockable_struct)
    → hash (GoType.struct gql_struct) ≢ hash (GoType.struct lockable_struct)
    → hash (GoType.struct gql_struct) ≢ hash (GoType.struct listener_struct)
    → node_hash lockable_node_name ≢ node_hash node_name
    → same_type (named req_state_type) (named req_state_type) ≡ true
    → same_type requirements_gql requirements_gql ≡ true
    → let reg = (new_context (library_names hash field_tag node_hash) post).0 in
      (interfaces_of same_type (node_hash node_name) reg ≡ some (base_name ∷ []))
      × (interfaces_of same_type (node_hash lockable_node_name) reg
          ≡ some (base_name ∷ lockable_name ∷ []))
unfolding gql_interfaces has_fields lookup insert
new_context-interfaces hash field_tag node_hash post same_type d1 d2 d3 d4 state requirements = (
  rw
      (
        known_node hash field_tag node_hash post d1 d2 d3 d4,
        interfaces_left hash field_tag node_hash post d1 d2 d3 d4,
      )
      refl,
  rw
      (
        known_lockable_node hash field_tag node_hash post d1 d2 d3 d4,
        interfaces_left hash field_tag node_hash post d1 d2 d3 d4,
        state,
        requirements,
      )
      refl,
)
