-- ===== src/Registry.antt =====
-- context.go: the context's registries of types, extensions, interfaces and node types.
pub mod Types
pub mod Fitting
pub mod Resolving
pub mod Library
mod Scalars
mod Interfaces
pub mod Sound
pub mod Reach
mod Serial
mod Tests
use graphvent.Prelude.{
  ℕ, Bool, true, false, ◌&&◌, List, [], ◌∷◌, Option, none, some, ◌==◌, if◌then◌else◌,
}
use graphvent.Prelude.Maps.{Map, lookup, has, insert, keys}
use graphvent.Serialize.{GoType, TypeInfo, GoType-discrete, scalar_info}

-- Tags and names are numbers, since they are compared and hashed only; so is the index of a field.
pub record ExtensionFieldInfo : Type 0 where
  pub index : ℕ
  pub type : GoType
  pub node_tag : ℕ

-- The extension's type is the struct that its pointer points to; its fields are by their tags.
pub record ExtensionInfo : Type 0 where
  pub ext_type : ℕ
  pub type : ℕ
  pub fields : Map ExtensionFieldInfo

-- A graphql.Type, by what it was made from: nil, the type of an interface or of a node type, the
-- object, enum or scalar of a Go type, a list, and the list of pairs of a map type.
pub data GqlType : Type 0 where
  no_type : GqlType
  interface_type : ℕ → GqlType
  node_object : ℕ → GqlType
  named : GoType → GqlType
  list : GqlType → GqlType
  pairs : GqlType → GqlType → GqlType

-- A *TypeInfo: what serialization reads of it, and its graphql type.
pub record TypeEntry : Type 0 where
  pub info : TypeInfo
  pub gql : GqlType

pub record NodeFieldInfo : Type 0 where
  pub extension : ℕ
  pub index : ℕ
  pub type : GqlType

pub record NodeInfo : Type 0 where
  pub node_type : ℕ
  pub required_extensions : List ℕ
  pub fields : Map NodeFieldInfo
  pub reverse_fields : Map (Map ℕ)

pub record FieldMapping : Type 0 where
  pub extension : ℕ
  pub tag : ℕ

-- The registries of a Context. An interface is its fields.
pub record Registry : Type 0 where
  pub types : GoType → Option TypeEntry
  pub types_reverse : ℕ → Option GoType
  pub extensions : Map ExtensionInfo
  pub interfaces : Map (Map GqlType)
  pub node_types : Map NodeInfo

-- The errors, and `nil_type`, the panic at a use of a nil *TypeInfo.
pub data RegistryFault : Type 0 where
  already_registered unknown_node_type invalid_node_tag no_gql_type : RegistryFault
  unknown_extension missing_field duplicate_field nil_type : RegistryFault

pub data Answer (A : Type 0) : Type 0 where
  valid : A → Answer A
  invalid : RegistryFault → Answer A

-- A call that may change the registries, whether it succeeds or not.
abbrev pub Registering : Type 0 → Type 0
Registering A = Registry × Answer A

infixl 5 ◌then_with◌
abbrev pub ◌then_with◌ :
    {A B : Type 0} → Registering A → (A → Registry → Registering B) → Registering B
(reg, valid a) then_with f = f a reg
(reg, invalid e) then_with f = (reg, invalid e)

abbrev pub or_fault : {A : Type 0} → RegistryFault → Option A → Registry → Registering A
or_fault e none reg = (reg, invalid e)
or_fault e (some a) reg = (reg, valid a)

-- `reflect.VisibleFields`: a field, with its `gv` tag if it has one, and its `node` tag.
pub record VisibleField : Type 0 where
  pub gv : Option ℕ
  pub node : ℕ
  pub type : GoType
  pub index : ℕ

-- What the registries take from Go and from hashing: SerializeType of a type's name, GetFieldTag,
-- NodeTypeFor, the two parts of a node tag around its colon, the names "" and "Base", and the type
-- NodeType.
pub record Naming : Type 0 where
  pub serialize_type : GoType → ℕ
  pub field_tag : ℕ → ℕ
  pub node_type_for : ℕ → ℕ
  pub split_tag : ℕ → Option (ℕ × ℕ)
  pub no_tag : ℕ
  pub base : ℕ
  pub node_type_type : GoType

abbrev pub set_type : GoType → TypeEntry → (GoType → Option TypeEntry) → GoType → Option TypeEntry
set_type t entry types u = elim (GoType-discrete u t) [
  | yes same ↦ some entry
  | no differ ↦ types u
]

module _ (names : Naming) where
  -- `ctx.Types[reflect_type] = …` and `ctx.TypesReverse[serialized_type] = …`
  unfoldable pub enter_type : GoType → TypeEntry → Registry → Registry
  enter_type t entry reg = record {
    types = set_type t entry reg.types;
    types_reverse =
        λ code. if code == entry.info.serialized then some t else reg.types_reverse code;
    extensions = reg.extensions;
    interfaces = reg.interfaces;
    node_types = reg.node_types;
  }

  -- What `GQLType` gives for a NodeID.
  unfoldable pub gql_node_id : ℕ → Registry → Answer GqlType
  gql_node_id tag reg =
      let node_type : ℕ = if tag == names.no_tag then names.base else tag in
      if has node_type reg.interfaces
      then valid (interface_type node_type)
      else if has (names.node_type_for node_type) reg.node_types
      then valid (node_object (names.node_type_for node_type))
      else invalid unknown_node_type

  abbrev pub gql_or : Option TypeEntry → Registering GqlType → Registry → Registering GqlType
  gql_or none by_kind reg = by_kind
  gql_or (some entry) by_kind reg = (reg, valid entry.gql)

  abbrev pub gql_list : Option TypeEntry → Registry → Registering GqlType
  gql_list none reg = (reg, invalid no_gql_type)
  gql_list (some entry) reg = (reg, valid (list entry.gql))

  -- The tags for the key and the value of a map.
  abbrev pub map_tags : ℕ → Option (ℕ × ℕ)
  map_tags tag =
      if tag == names.no_tag then some (names.no_tag, names.no_tag) else names.split_tag tag

  -- The entry of `RegisterMap`, whose PostDeserializeIndex is left at 0.
  abbrev pub map_entry : GoType → GqlType → GqlType → TypeEntry
  map_entry t key val = record {
    info = scalar_info (names.serialize_type t);
    gql = list (pairs key val);
  }

  -- `GQLType`, with `RegisterMap` for a map type that is not registered yet. GoType.id is NodeID.
  unfoldable pub gql_type : GoType → ℕ → Registry → Registering GqlType
  unfolding gql_node_id enter_type
  gql_type GoType.id tag reg = (reg, gql_node_id tag reg)
  gql_type (GoType.array n t) tag reg =
      gql_or (reg.types (GoType.array n t)) (gql_list (reg.types t) reg) reg
  gql_type (GoType.slice t) tag reg =
      gql_or (reg.types (GoType.slice t)) (gql_list (reg.types t) reg) reg
  gql_type (GoType.map k t) tag reg =
      gql_or (reg.types (GoType.map k t))
        (or_fault invalid_node_tag (map_tags tag) reg then_with λ tags reg1.
          gql_type k tags.0 reg1 then_with λ key reg2. gql_type t tags.1 reg2 then_with λ val reg3.
          (
            enter_type (GoType.map k t) (map_entry (GoType.map k t) key val) reg3,
            valid (list (pairs key val)),
          ))
        reg
  gql_type (GoType.pointer t) tag reg =
      gql_or (reg.types (GoType.pointer t)) (gql_type t tag reg) reg
  gql_type t tag reg = gql_or (reg.types t) (reg, invalid no_gql_type) reg

  -- The head of every registration of a type.
  abbrev pub unless_registered : GoType → Registry → Registering (Unit {0}) → Registering (Unit {0})
  unless_registered t reg f = elim (reg.types t) [
    | none ↦ f
    | some entry ↦ (reg, invalid already_registered)
  ]

  -- `RegisterScalar` and `RegisterEnum`, with no functions of its own for serialization.
  unfoldable pub register_scalar : GoType → Registry → Registering (Unit {0})
  unfolding enter_type
  register_scalar t reg = unless_registered t reg (
    enter_type t (record { info = scalar_info (names.serialize_type t); gql = named t }) reg,
    valid tt,
  )

  -- `field_infos`, by the hashes of the tags.
  unfoldable pub field_infos : List VisibleField → Map GoType → Map GoType
  field_infos [] infos = infos
  field_infos (f ∷ fs) infos = elim f.gv [
    | none ↦ field_infos fs infos
    | some gv ↦ field_infos fs (insert (names.field_tag gv) f.type infos)
  ]

  -- The loop of `RegisterObject` over the fields, as far as it can fail and changes the registries.
  unfoldable pub field_types : List VisibleField → Registry → Registering (Unit {0})
  unfolding gql_type
  field_types [] reg = (reg, valid tt)
  field_types (f ∷ fs) reg = elim f.gv [
    | none ↦ field_types fs reg
    | some gv ↦ gql_type f.type f.node reg then_with λ gql reg'. field_types fs reg'
  ]

  abbrev pub object_entry : GoType → List VisibleField → Option ℕ → GqlType → TypeEntry
  object_entry t fields post gql = record {
    info = record {
      serialized = names.serialize_type t;
      fields = field_infos fields [];
      post_deserialize = post;
    };
    gql = gql;
  }

  -- `RegisterObject`; `post` is the index of PostDeserialize, if the type has it.
  unfoldable pub register_object :
      GoType → List VisibleField → Option ℕ → Registry → Registering (Unit {0})
  unfolding field_types field_infos enter_type
  register_object t fields post reg = unless_registered t reg (
      field_types fields reg then_with λ u reg'.
      (enter_type t (object_entry t fields post (named t)) reg', valid tt))

  unfoldable pub register_object_no_gql :
      GoType → List VisibleField → Option ℕ → Registry → Registering (Unit {0})
  unfolding field_infos enter_type
  register_object_no_gql t fields post reg =
      unless_registered t reg (enter_type t (object_entry t fields post no_type) reg, valid tt)
