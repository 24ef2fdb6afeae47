-- ===== src/Registry/Reach.antt =====
-- The registries after any registrations, failed ones too.
use graphvent.Prelude.{ℕ, List, [], Option, none}
use mathlib.Core.Option.{none-ne-some}
use graphvent.Prelude.Maps.{Map, lookup}
use graphvent.Serialize.{GoType}
use graphvent.Registry.{
  FieldMapping, Registry, GqlType, VisibleField, Naming, gql_type, register_scalar, register_object,
  register_object_no_gql,
}
use graphvent.Registry.Types.{register_extension, register_node_interface, register_node_type}
use graphvent.Registry.Sound.{IsSound}
use graphvent.Registry.Sound.Entries.{
  gql_type-IsSound, register_scalar-IsSound, register_object-IsSound,
  register_object_no_gql-IsSound,
}
use graphvent.Registry.Sound.Types.{
  register_node_type-IsSound, register_extension-IsSound, register_node_interface-IsSound,
}

abbrev pub empty_registry : Registry
empty_registry = record {
  types = λ t. none;
  types_reverse = λ code. none;
  extensions = [];
  interfaces = [];
  node_types = [];
}

-- What registrations lead to from a new Context, whether they succeed or fail.
pub data Reached (names : Naming) : Registry → Type 0 where
  start : Reached names empty_registry
  scalar :
      {reg : Registry} (t : GoType)
      → Reached names reg
      → Reached names (register_scalar names t reg).0
  object :
      {reg : Registry} (t : GoType) (fs : List VisibleField) (post : Option ℕ)
      → Reached names reg
      → Reached names (register_object names t fs post reg).0
  object_no_gql :
      {reg : Registry} (t : GoType) (fs : List VisibleField) (post : Option ℕ)
      → Reached names reg
      → Reached names (register_object_no_gql names t fs post reg).0
  gql :
      {reg : Registry} (t : GoType) (tag : ℕ)
      → Reached names reg
      → Reached names (gql_type names t tag reg).0
  extension :
      {reg : Registry} (ext_type type : ℕ) (fs : List VisibleField)
      → Reached names reg
      → Reached names (register_extension ext_type type fs reg).0
  node_interface :
      {reg : Registry} (reserved : List ℕ) (name : ℕ) (fields : Map GqlType)
      → Reached names reg
      → Reached names (register_node_interface names reserved name fields reg).0
  node_type :
      {reg : Registry} (name : ℕ) (mappings : Map FieldMapping)
      → Reached names reg
      → Reached names (register_node_type names name mappings reg).0

pub Reached-IsSound : (names : Naming) (reg : Registry) → Reached names reg → IsSound names reg
unfolding lookup
Reached-IsSound names reg start = record {
  coded = λ t e known. absurd (none-ne-some e known);
  reversed = λ t e known. absurd (none-ne-some e known);
  origin = λ code t leads. absurd (none-ne-some t leads);
  covered = λ x info known. absurd (none-ne-some info known);
  fitting = λ t e known. absurd (none-ne-some e known);
}
Reached-IsSound names reg (scalar {reg = old} t r) =
    register_scalar-IsSound names t old (Reached-IsSound names old r)
Reached-IsSound names reg (object {reg = old} t fs post r) =
    register_object-IsSound names t fs post old (Reached-IsSound names old r)
Reached-IsSound names reg (object_no_gql {reg = old} t fs post r) =
    register_object_no_gql-IsSound names t fs post old (Reached-IsSound names old r)
Reached-IsSound names reg (gql {reg = old} t tag r) =
    gql_type-IsSound names t tag old (Reached-IsSound names old r)
Reached-IsSound names reg (extension {reg = old} ext_type type fs r) =
    register_extension-IsSound names ext_type type fs old (Reached-IsSound names old r)
Reached-IsSound names reg (node_interface {reg = old} reserved name fields r) =
    register_node_interface-IsSound names reserved name fields old (Reached-IsSound names old r)
Reached-IsSound names reg (node_type {reg = old} name mappings r) =
    register_node_type-IsSound names name mappings old (Reached-IsSound names old r)
