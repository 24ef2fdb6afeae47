-- ===== src/Registry/Library.antt =====
-- context.go: the registrations of NewContext, with the structs that it registers.
mod Steps
mod Returns
mod Interfaces
mod Tests
use graphvent.Prelude.{ℕ, List, [], ◌∷◌, Option, none, some, ◌==◌, if◌then◌else◌}
use graphvent.Prelude.Maps.{Map}
use graphvent.Serialize.{GoType, uint8, int, uint32}
use graphvent.Registry.{
  GqlType, FieldMapping, Registry, valid, Registering, ◌then_with◌, VisibleField, Naming, gql_type,
  register_scalar, register_object, register_object_no_gql,
}
use graphvent.Registry.Types.{register_extension, register_node_interface, register_node_type}
use graphvent.Registry.Reach.{empty_registry}

-- A call of NewContext. The fields of an interface are the results of `gqltype` for their types and
-- node tags.
pub data Registration : Type 0 where
  scalar : GoType → Registration
  object : GoType → List VisibleField → Option ℕ → Registration
  object_no_gql : GoType → List VisibleField → Option ℕ → Registration
  extension : ℕ → List VisibleField → Registration
  node_interface : ℕ → Map (GoType × ℕ) → Registration
  node_type : ℕ → Map FieldMapping → Registration

-- Names and tags by numbers: "", "Base", "Lockable", "ID", "Type", "Node" and "LockableNode", the
-- fields "LockableState" and "Requirements", the `gv` tags, and the node tags "Lockable:" and
-- ":Lockable".
abbrev pub no_name : ℕ
no_name = 0

abbrev pub base_name : ℕ
base_name = 1

abbrev pub lockable_name : ℕ
lockable_name = 2

abbrev pub id_name : ℕ
id_name = 3

abbrev pub type_name : ℕ
type_name = 4

abbrev pub node_name : ℕ
node_name = 5

abbrev pub lockable_node_name : ℕ
lockable_node_name = 6

abbrev pub lockable_state_name : ℕ
lockable_state_name = 7

abbrev pub requirements_name : ℕ
requirements_name = 8

abbrev pub state_tag : ℕ
state_tag = 10

abbrev pub requirements_tag : ℕ
requirements_tag = 11

abbrev pub lockable_keys : ℕ
lockable_keys = 12

abbrev pub lockable_values : ℕ
lockable_values = 13

-- NodeID is GoType.id. The other named types that are no structs go by numbers, like the structs.
abbrev pub uuid_type : GoType
uuid_type = GoType.other 0

abbrev pub node_type_type : GoType
node_type_type = GoType.other 1

abbrev pub req_state_type : GoType
req_state_type = GoType.other 2

abbrev pub time_type : GoType
time_type = GoType.struct 0

abbrev pub lockable_struct : ℕ
lockable_struct = 5

abbrev pub listener_struct : ℕ
listener_struct = 6

abbrev pub gql_struct : ℕ
gql_struct = 7

-- The hashes are parameters, and `strings.SplitN` knows the two tags with a colon.
abbrev pub library_names : (GoType → ℕ) → (ℕ → ℕ) → (ℕ → ℕ) → Naming
library_names serialize_type field_tag node_type_for = record {
  serialize_type = serialize_type;
  field_tag = field_tag;
  node_type_for = node_type_for;
  split_tag = λ tag.
      if tag == lockable_keys
      then some (lockable_name, no_name)
      else if tag == lockable_values
      then some (no_name, lockable_name)
      else none;
  no_tag = no_name;
  base = base_name;
  node_type_type = node_type_type;
}

abbrev gv_field : ℕ → ℕ → GoType → VisibleField
gv_field index tag t = record { gv = some tag; node = no_name; type = t; index = index }

-- The visible fields of the structs; those without a `gv` tag, which no registration looks at, are
-- left out.
abbrev pub queued_signal_fields : List VisibleField
queued_signal_fields = gv_field 0 20 (GoType.interface 0) ∷ gv_field 1 21 time_type ∷ []

abbrev pub timeout_signal_fields : List VisibleField
timeout_signal_fields = gv_field 0 22 uuid_type ∷ gv_field 1 23 uuid_type ∷ []

abbrev pub status_signal_fields : List VisibleField
status_signal_fields =
    gv_field 0 22 uuid_type
    ∷ gv_field 1 24 GoType.id
    ∷ gv_field 2 25 (GoType.slice GoType.string)
    ∷ []

abbrev pub node_fields : List VisibleField
node_fields = gv_field 0 26 (GoType.slice (GoType.num uint8)) ∷ gv_field 2 27 node_type_type ∷ []

-- Requirements and Waiting have node tags.
abbrev pub lockable_fields : List VisibleField
lockable_fields =
    gv_field 0 state_tag req_state_type
    ∷ gv_field 1 23 (GoType.pointer uuid_type)
    ∷ gv_field 2 28 (GoType.pointer GoType.id)
    ∷ gv_field 3 29 (GoType.pointer GoType.id)
    ∷ record {
      gv = some requirements_tag;
      node = lockable_keys;
      type = GoType.map GoType.id req_state_type;
      index = 4;
    }
    ∷ record {
      gv = some 30;
      node = lockable_values;
      type = GoType.map uuid_type GoType.id;
      index = 7;
    }
    ∷ []

abbrev pub listener_fields : List VisibleField
listener_fields = gv_field 0 31 (GoType.num int) ∷ []

abbrev pub gql_fields : List VisibleField
gql_fields =
    gv_field 7 state_tag GoType.string
    ∷ gv_field 8 32 (GoType.slice (GoType.num uint8))
    ∷ gv_field 9 33 (GoType.slice (GoType.num uint8))
    ∷ gv_field 10 34 GoType.string
    ∷ []

module _ (names : Naming) where
  -- `gqltype` for every field of an interface; its panic is the fault of GQLType.
  unfoldable pub interface_fields : Map (GoType × ℕ) → Registry → Registering (Map GqlType)
  interface_fields [] reg = (reg, valid [])
  interface_fields ((name, (t, tag)) ∷ fields) reg = gql_type names t tag reg then_with λ gql reg1.
      interface_fields fields reg1 then_with λ gqls reg2. (reg2, valid ((name, gql) ∷ gqls))

  abbrev pub perform : Registration → Registry → Registering (Unit {0})
  perform (scalar t) reg = register_scalar names t reg
  perform (object t fields post) reg = register_object names t fields post reg
  perform (object_no_gql t fields post) reg = register_object_no_gql names t fields post reg
  perform (extension struct fields) reg =
      register_extension (names.serialize_type (GoType.struct struct)) struct fields reg
  perform (node_interface name fields) reg = interface_fields fields reg then_with λ gqls reg'.
      register_node_interface names (id_name ∷ type_name ∷ []) name gqls reg'
  perform (node_type name mappings) reg = register_node_type names name mappings reg

  -- Up to the first that fails.
  unfoldable pub perform_all : List Registration → Registry → Registering (Unit {0})
  unfolding interface_fields
  perform_all [] reg = (reg, valid tt)
  perform_all (r ∷ rs) reg = perform r reg then_with λ u reg'. perform_all rs reg'

  abbrev pub lockable_field : ℕ → FieldMapping
  lockable_field tag = record {
    extension = names.serialize_type (GoType.struct lockable_struct);
    tag = tag;
  }

  -- The calls of NewContext in their order; the method index of PostDeserialize is a parameter.
  abbrev pub library : ℕ → List Registration
  library post =
      scalar GoType.id
      ∷ scalar uuid_type
      ∷ scalar node_type_type
      ∷ scalar (GoType.other 3)
      ∷ node_interface base_name []
      ∷ node_type node_name []
      ∷ scalar GoType.bool
      ∷ scalar (GoType.num int)
      ∷ scalar (GoType.num uint32)
      ∷ scalar (GoType.num uint8)
      ∷ scalar time_type
      ∷ scalar GoType.string
      ∷ scalar req_state_type
      ∷ scalar (GoType.other 4)
      ∷ object_no_gql (GoType.struct 1) queued_signal_fields none
      ∷ object (GoType.struct 2) timeout_signal_fields none
      ∷ object (GoType.struct 3) status_signal_fields none
      ∷ object (GoType.struct 4) node_fields (some post)
      ∷ extension lockable_struct lockable_fields
      ∷ extension listener_struct listener_fields
      ∷ extension gql_struct gql_fields
      ∷ node_interface lockable_name (
          (lockable_state_name, (req_state_type, no_name))
          ∷ (requirements_name, (GoType.map GoType.id req_state_type, lockable_values))
          ∷ [])
      ∷ node_type lockable_node_name (
          (lockable_state_name, lockable_field state_tag)
          ∷ (requirements_name, lockable_field requirements_tag)
          ∷ [])
      ∷ object (GoType.struct lockable_struct) lockable_fields none
      ∷ object (GoType.struct listener_struct) listener_fields none
      ∷ object (GoType.struct gql_struct) gql_fields none
      ∷ []

  -- `NewContext`, as far as the registries; the schema is the GraphQL library's.
  abbrev pub new_context : ℕ → Registering (Unit {0})
  new_context post = perform_all (library post) empty_registry
