-- ===== src/Registry/Fitting.antt =====
-- Which graphql types stand for a Go type.
use graphvent.Prelude.{ℕ}
use graphvent.Serialize.{GoType}
use graphvent.Registry.{GqlType, no_type, interface_type, node_object, named, list, pairs}

abbrev pub IsNoId : GoType → Type 0
IsNoId GoType.id = ⊥
IsNoId t = Unit

mutual
  -- What a registered type has: its own object, scalar or enum, none, or a map's list of pairs.
  pub data EntryFits : GoType → GqlType → Type 0 where
    own : (t : GoType) → EntryFits t (named t)
    untyped : (t : GoType) → EntryFits t no_type
    pairs_of :
        {k t : GoType} {key val : GqlType}
        → Fits k key
        → Fits t val
        → EntryFits (GoType.map k t) (list (pairs key val))

  -- What a value of the type is shown as. A NodeID is a node, and a pointer is what it points to.
  pub data Fits : GoType → GqlType → Type 0 where
    registered : {t : GoType} {gql : GqlType} → IsNoId t → EntryFits t gql → Fits t gql
    interface : (name : ℕ) → Fits GoType.id (interface_type name)
    object : (name : ℕ) → Fits GoType.id (node_object name)
    slice_of : {t : GoType} {gql : GqlType} → EntryFits t gql → Fits (GoType.slice t) (list gql)
    array_of :
        {t : GoType} {gql : GqlType} (n : ℕ) → EntryFits t gql → Fits (GoType.array n t) (list gql)
    pointer_to : {t : GoType} {gql : GqlType} → Fits t gql → Fits (GoType.pointer t) gql
