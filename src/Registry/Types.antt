-- ===== src/Registry/Types.antt =====
-- context.go: RegisterExtension, RegisterNodeInterface and RegisterNodeType.
use graphvent.Prelude.{ℕ, Bool, true, false, ◌||◌, List, [], ◌∷◌, Option, none, some}
use graphvent.Prelude.Maps.{Map, lookup, has, insert, keys}
use graphvent.Serialize.{GoType}
use graphvent.Registry.{
  nil_type, TypeEntry, ExtensionFieldInfo, ExtensionInfo, GqlType, NodeFieldInfo, NodeInfo,
  FieldMapping, Registry, RegistryFault, already_registered, unknown_extension, missing_field,
  duplicate_field, valid, invalid, Registering, ◌then_with◌, or_fault, VisibleField, Naming,
  gql_type,
}

-- The fields of an extension with a `gv` tag, by the tag.
unfoldable pub extension_fields :
    List VisibleField → Map ExtensionFieldInfo → Map ExtensionFieldInfo
extension_fields [] infos = infos
extension_fields (f ∷ fs) infos = elim f.gv [
  | none ↦ extension_fields fs infos
  | some gv ↦
      extension_fields fs
        (insert gv (record { index = f.index; type = f.type; node_tag = f.node }) infos)
]

abbrev pub with_extension : ExtensionInfo → Registry → Registry
with_extension info reg = record {
  types = reg.types;
  types_reverse = reg.types_reverse;
  extensions = insert info.ext_type info reg.extensions;
  interfaces = reg.interfaces;
  node_types = reg.node_types;
}

abbrev pub with_interface : ℕ → Map GqlType → Registry → Registry
with_interface name fields reg = record {
  types = reg.types;
  types_reverse = reg.types_reverse;
  extensions = reg.extensions;
  interfaces = insert name fields reg.interfaces;
  node_types = reg.node_types;
}

abbrev pub with_node_type : NodeInfo → Registry → Registry
with_node_type info reg = record {
  types = reg.types;
  types_reverse = reg.types_reverse;
  extensions = reg.extensions;
  interfaces = reg.interfaces;
  node_types = insert info.node_type info reg.node_types;
}

-- An early return with an error.
abbrev pub reject : {A : Type 0} → Bool → RegistryFault → Registry → Registering A → Registering A
reject true e reg r = (reg, invalid e)
reject false e reg r = r

-- `RegisterExtension` of the extension whose struct is `type`, with the hash of its name.
unfoldable pub register_extension : ℕ → ℕ → List VisibleField → Registry → Registering (Unit {0})
unfolding extension_fields
register_extension ext_type type fields reg =
    reject (has ext_type reg.extensions) already_registered reg (
      with_extension
          (record { ext_type = ext_type; type = type; fields = extension_fields fields [] }) reg,
      valid tt,
    )

-- A field of the name of the ID or the type that every node has.
unfoldable pub has_reserved : List ℕ → Map GqlType → Bool
has_reserved [] fields = false
has_reserved (name ∷ names) fields = has name fields || has_reserved names fields

-- `fields` and `reverse_fields` of `RegisterNodeType`.
pub record Mapped : Type 0 where
  pub fields : Map NodeFieldInfo
  pub reverse_fields : Map (Map ℕ)

abbrev pub or_empty : Option (Map ℕ) → Map ℕ
or_empty none = []
or_empty (some m) = m

-- `reverse_fields[mapping.Extension][mapping.Tag] = field_name`, in a map that is made if it is not
-- there.
abbrev pub reverse_with : FieldMapping → ℕ → Map (Map ℕ) → Map (Map ℕ)
reverse_with mapping name reverse =
    insert mapping.extension (insert mapping.tag name (or_empty (lookup mapping.extension reverse)))
      reverse

abbrev is_nil : Option TypeEntry → Bool
is_nil none = true
is_nil (some entry) = false

module _ (names : Naming) where
  -- `ctx.Types[…].Type` of NodeID and of NodeType, which every node has a field of.
  unfoldable pub lacks_types : Registry → Bool
  lacks_types reg = is_nil (reg.types GoType.id) || is_nil (reg.types names.node_type_type)

  -- `RegisterNodeInterface`; `reserved` are the names "ID" and "Type".
  unfoldable pub register_node_interface :
      List ℕ → ℕ → Map GqlType → Registry → Registering (Unit {0})
  unfolding has_reserved lacks_types
  register_node_interface reserved name fields reg =
      reject (has name reg.interfaces) already_registered reg (
        reject (lacks_types reg) nil_type reg (
          reject (has_reserved reserved fields) duplicate_field reg
            (with_interface name fields reg, valid tt)))

  -- The loop over the mappings.
  unfoldable pub map_fields : Map FieldMapping → Mapped → Registry → Registering Mapped
  unfolding gql_type
  map_fields [] m reg = (reg, valid m)
  map_fields ((name, mapping) ∷ mappings) m reg = reject (has name m.fields) duplicate_field reg (
      or_fault unknown_extension (lookup mapping.extension reg.extensions) reg
      then_with λ ext_info reg1.
          or_fault missing_field (lookup mapping.tag ext_info.fields) reg1
          then_with λ ext_field reg2.
              gql_type names ext_field.type ext_field.node_tag reg2 then_with λ gql reg3.
              map_fields mappings
                (record {
                  fields =
                      insert name
                        (record {
                          extension = mapping.extension;
                          index = ext_field.index;
                          type = gql;
                        })
                        m.fields;
                  reverse_fields = reverse_with mapping name m.reverse_fields;
                })
                reg3)

  -- `RegisterNodeType`
  unfoldable pub register_node_type : ℕ → Map FieldMapping → Registry → Registering (Unit {0})
  unfolding map_fields lacks_types
  register_node_type name mappings reg =
      reject (has (names.node_type_for name) reg.node_types) already_registered reg (
        reject (lacks_types reg) nil_type reg (
          map_fields mappings (record { fields = []; reverse_fields = [] }) reg then_with λ m reg'.
          (
            with_node_type
                (record {
                  node_type = names.node_type_for name;
                  required_extensions = keys m.reverse_fields;
                  fields = m.fields;
                  reverse_fields = m.reverse_fields;
                })
                reg',
            valid tt,
          )))
