-- ===== src/Registry/Interfaces.antt =====
-- context.go: GQLInterfaces, which finds the interfaces of a node type by their fields.
use graphvent.Prelude.{
  ℕ, Bool, true, false, ◌&&◌, List, [], ◌∷◌, ◌≡◌, Option, none, some, inl, inr, if◌then◌else◌,
  Bool-cases, arith,
}
use graphvent.Prelude.Maps.{Map, lookup}
use graphvent.Registry.{GqlType, NodeFieldInfo, NodeInfo, Registry}

-- A graphql.Type is a pointer, and GqlType says only what it was made from: `same_type` is the
-- comparison of two pointers. An interface goes by its name, and a range over a map takes the order
-- of the list.
module _ (same_type : GqlType → GqlType → Bool) where
  abbrev pub is_of_type : Option NodeFieldInfo → GqlType → Bool
  is_of_type none type = false
  is_of_type (some field) type = same_type field.type type

  -- `match`, of the fields of an interface and those of a node type.
  unfoldable pub has_fields : Map GqlType → Map NodeFieldInfo → Bool
  has_fields [] fields = true
  has_fields ((name, type) ∷ wanted) fields =
      is_of_type (lookup name fields) type && has_fields wanted fields

  -- `GQLInterfaces`, at the call of what it returns.
  unfoldable pub gql_interfaces : Map NodeFieldInfo → Map (Map GqlType) → List ℕ
  unfolding has_fields
  gql_interfaces fields [] = []
  gql_interfaces fields ((name, wanted) ∷ interfaces) =
      let rest = gql_interfaces fields interfaces in
      if has_fields wanted fields then name ∷ rest else rest

  abbrev interfaces_or_none : Map (Map GqlType) → Option NodeInfo → Option (List ℕ)
  interfaces_or_none interfaces none = none
  interfaces_or_none interfaces (some info) = some (gql_interfaces info.fields interfaces)

  -- The interfaces of a node type that is registered, as RegisterNodeType asks for them.
  abbrev pub interfaces_of : ℕ → Registry → Option (List ℕ)
  interfaces_of node_type reg = interfaces_or_none reg.interfaces (lookup node_type reg.node_types)

  -- A field of an interface that matches is a field of the node type, with the same type.
  pub has_fields-lookup :
      (wanted : Map GqlType) (fields : Map NodeFieldInfo) (name : ℕ) (type : GqlType)
      → has_fields wanted fields ≡ true
      → lookup name wanted ≡ some type
      → is_of_type (lookup name fields) type ≡ true
  unfolding has_fields lookup
  has_fields-lookup [] fields name type h e = ground arith
  has_fields-lookup ((j, t) ∷ wanted) fields name type h e =
      ground (arith, has_fields-lookup wanted fields name type)

  -- An interface with a field whose type is the type of no field of a node, as the list that GQLType
  -- makes anew for a slice, matches no node type, whatever fields the node type has.
  pub has_fields_of_new :
      (wanted : Map GqlType) (fields : Map NodeFieldInfo) (name : ℕ) (type : GqlType)
      → ((field : NodeFieldInfo) → same_type field.type type ≡ false)
      → lookup name wanted ≡ some type
      → has_fields wanted fields ≡ false
  has_fields_of_new wanted fields name type new e = elim (Bool-cases (has_fields wanted fields)) [
    | inr differs ↦ differs
    | inl fits ↦ not_found (lookup name fields) (has_fields-lookup wanted fields name type fits e)
  ]
    where
      not_found :
          (found : Option NodeFieldInfo)
          → is_of_type found type ≡ true
          → has_fields wanted fields ≡ false
      not_found none h = ground arith
      not_found (some field) h = ground (arith, new field)
