-- ===== src/Registry/Resolving.antt =====
-- context.go: GQLResolve, and what a resolved value is shown as.
pub mod Leaves
pub mod Shown
use graphvent.Prelude.{ℕ, ◌≡◌, Bool, true, false, List, Option, none, some, if◌then◌else◌}
use graphvent.Serialize.{
  GoType, GoType-discrete, Value, Values, no_values, value, Entries, no_entries, entry, type_of,
}
use graphvent.Registry.{GqlType, no_type, interface_type, node_object, named, list, pairs}

-- What a resolver gives: a value as it is, the pairs of a map, or the node of an ID.
pub data Resolved : Type 0 where
  plain : Value → Resolved
  pair_list : Entries → Resolved
  node : List ℕ → Resolved

-- `iter.Next`, with `Key` and `Value`.
abbrev pub entries_of : Value → Entries
entries_of (Value.map k t es) = es
entries_of v = no_entries

-- `Interface()`, which gives what an interface holds.
abbrev pub dynamic : Value → Value
dynamic (Value.interface name v) = v
dynamic v = v

abbrev pub IsNode : Resolved → Type 0
IsNode (node bs) = Unit
IsNode r = ⊥

abbrev pub IsOf : GoType → Resolved → Type 0
IsOf t (plain v) = type_of v ≡ t
IsOf t r = ⊥

abbrev pub AllItems : (Value → Type 0) → Values → Type 0
AllItems P no_values = Unit
AllItems P (value v vs) = P v × AllItems P vs

abbrev pub AllPairs : (Value → Type 0) → (Value → Type 0) → Entries → Type 0
AllPairs P Q no_entries = Unit
AllPairs P Q (entry k v es) = P k × Q v × AllPairs P Q es

abbrev pub IsListOf : (Value → Type 0) → Resolved → Type 0
IsListOf P (plain (Value.slice t vs)) = AllItems P vs
IsListOf P (plain (Value.array t vs)) = AllItems P vs
IsListOf P (plain (Value.nil_slice t)) = Unit
IsListOf P r = ⊥

abbrev pub IsPairsOf : (Value → Type 0) → (Value → Type 0) → Resolved → Type 0
IsPairsOf P Q (pair_list es) = AllPairs P Q es
IsPairsOf P Q r = ⊥

-- What is to hold of a result, and what of an error.
abbrev pub Gives : Type 0 → (Resolved → Type 0) → Option Resolved → Type 0
Gives Q P none = Q
Gives Q P (some r) = P r

-- No type without a graphql type is in it, and no map type that is registered as a scalar.
abbrev pub IsProper : GqlType → Type 0
IsProper no_type = ⊥
IsProper (named (GoType.map k t)) = ⊥
IsProper (list gql) = IsProper gql
IsProper (pairs key val) = IsProper key × IsProper val
IsProper gql = Unit

abbrev pub key_of : GoType → GoType
key_of (GoType.map k t) = k
key_of t = t

abbrev pub elem_of : GoType → GoType
elem_of (GoType.map k t) = t
elem_of (GoType.slice t) = t
elem_of (GoType.array n t) = t
elem_of t = t

-- ResolveNode is a parameter: whether it finds the node of an ID.
module _ (found : List ℕ → Bool) where
  -- `resolveNodeID`; an error is none.
  abbrev pub resolve_node_id : Value → Option Resolved
  resolve_node_id (Value.id bs) = if found bs then some (node bs) else none
  resolve_node_id v = none

  -- `GQLResolve` of a type, applied to a value.
  unfoldable pub gql_resolve : GoType → Value → Option Resolved
  gql_resolve GoType.id v = resolve_node_id v
  gql_resolve (GoType.map k t) v = elim (GoType-discrete (type_of v) (GoType.map k t)) [
    | yes same ↦ some (pair_list (entries_of v))
    | no differ ↦ none
  ]
  gql_resolve (GoType.pointer t) v = gql_resolve t v
  gql_resolve t v = some (plain v)

  -- A NodeID of which no node is found.
  abbrev pub IsMissing : Value → Type 0
  IsMissing v = (bs : List ℕ) × (v ≡ Value.id bs) × (found bs ≡ false)

  -- A result can be shown as a graphql type: a node as its object or interface, a scalar or object
  -- of exactly its own type, a list with every item, and a list of pairs with every key and value, as
  -- the resolvers of their Go types give them, which may fail for a missing node only.
  unfoldable pub Shows : GoType → GqlType → Resolved → Type 0
  unfolding gql_resolve
  Shows t no_type r = ⊥
  Shows t (interface_type name) r = IsNode r
  Shows t (node_object name) r = IsNode r
  Shows t (named u) r = IsOf u r
  Shows t (list (pairs key val)) r =
      IsPairsOf
        (λ k.
          Gives (IsMissing (dynamic k)) (Shows (key_of t) key) (gql_resolve (key_of t) (dynamic k)))
        (λ v.
          Gives (IsMissing (dynamic v)) (Shows (elem_of t) val)
            (gql_resolve (elem_of t) (dynamic v)))
        r
  Shows t (list gql) r = IsListOf (λ v. Shows (elem_of t) gql (plain v)) r
  Shows t (pairs key val) r = ⊥

-- The types of values fit those of their items, keys and values.
unfoldable mutual
  pub IsTyped : Value → Type 0
  IsTyped (Value.slice t vs) = AreTyped t vs
  IsTyped (Value.array t vs) = AreTyped t vs
  IsTyped (Value.map k t es) = ArePairsTyped k t es
  IsTyped v = Unit

  pub AreTyped : GoType → Values → Type 0
  AreTyped t no_values = Unit
  AreTyped t (value v vs) = (type_of v ≡ t) × IsTyped v × AreTyped t vs

  pub ArePairsTyped : GoType → GoType → Entries → Type 0
  ArePairsTyped k t no_entries = Unit
  ArePairsTyped k t (entry a b es) =
      (type_of a ≡ k) × IsTyped a × (type_of b ≡ t) × IsTyped b × ArePairsTyped k t es

-- A scalar or an object.
abbrev pub IsLeafType : GoType → Type 0
IsLeafType (GoType.pointer t) = ⊥
IsLeafType GoType.id = ⊥
IsLeafType (GoType.map k t) = ⊥
IsLeafType (GoType.slice t) = ⊥
IsLeafType (GoType.array n t) = ⊥
IsLeafType (GoType.interface name) = ⊥
IsLeafType t = Unit

-- An item is shown as what it holds, and a map not through its resolver.
abbrev pub IsItem : GoType → Type 0
IsItem (GoType.map k t) = ⊥
IsItem (GoType.interface name) = ⊥
IsItem t = Unit

-- A type with no pointer, no list of maps or of interfaces, and no interface.
abbrev pub IsShown : GoType → Type 0
IsShown GoType.id = Unit
IsShown (GoType.map k t) = IsShown k × IsShown t
IsShown (GoType.slice t) = IsItem t
IsShown (GoType.array n t) = IsItem t
IsShown t = IsLeafType t
