-- ===== src/Registry/Resolving/Leaves.antt =====
-- Scalars, objects and lists can be shown as what GQLType says.
use mathlib.Core.Path.{subst}
use graphvent.Prelude.{ℕ, ◌≡◌, refl, sym, Bool, List, some, ◌⊎◌, inl, inr}
use graphvent.Serialize.{GoType, Value, Values, no_values, value, type_of}
use graphvent.Registry.{GqlType, no_type, named}
use graphvent.Registry.Fitting.{
  EntryFits, own, untyped, pairs_of, Fits, registered, interface, object, slice_of, array_of,
  pointer_to,
}
use graphvent.Registry.Resolving.{
  plain, dynamic, gql_resolve, IsMissing, IsProper, Gives, AllItems, Shows, AreTyped, IsLeafType,
  IsItem, IsShown,
}

-- What fits a scalar or an object.
leaf_named :
    {t : GoType} {gql : GqlType} → Fits t gql → IsLeafType t → (gql ≡ no_type) ⊎ (gql ≡ named t)
leaf_named (registered n (own t)) leaf = inr refl
leaf_named (registered n (untyped t)) leaf = inl refl
leaf_named (registered n (pairs_of f g)) leaf = absurd leaf
leaf_named (interface name) leaf = absurd leaf
leaf_named (object name) leaf = absurd leaf
leaf_named (slice_of f) leaf = absurd leaf
leaf_named (array_of n f) leaf = absurd leaf
leaf_named (pointer_to f) leaf = absurd leaf

-- A value of a leaf type is resolved as it is.
leaf_resolve :
    (found : List ℕ → Bool) (t : GoType) (v : Value)
    → IsLeafType t
    → gql_resolve found t v ≡ some (plain v)
unfolding gql_resolve
leaf_resolve found (GoType.pointer t) v leaf = absurd leaf
leaf_resolve found GoType.bool v leaf = refl
leaf_resolve found (GoType.num k) v leaf = refl
leaf_resolve found GoType.string v leaf = refl
leaf_resolve found (GoType.struct n) v leaf = refl
leaf_resolve found (GoType.other n) v leaf = refl
leaf_resolve found GoType.id v leaf = absurd leaf
leaf_resolve found (GoType.map k t) v leaf = absurd leaf
leaf_resolve found (GoType.slice t) v leaf = absurd leaf
leaf_resolve found (GoType.array n t) v leaf = absurd leaf
leaf_resolve found (GoType.interface n) v leaf = absurd leaf

abbrev pub Shown : (List ℕ → Bool) → GoType → GqlType → Value → Type 0
Shown found t gql v = Gives (IsMissing found v) (Shows found t gql) (gql_resolve found t v)

pub leaf_Shown :
    (found : List ℕ → Bool) (gql : GqlType) (v : Value)
    → Fits (type_of v) gql
    → IsProper gql
    → IsLeafType (type_of v)
    → Shown found (type_of v) gql v
unfolding Shows
leaf_Shown found gql v fits proper leaf =
    subst (Gives (IsMissing found v) (Shows found (type_of v) gql))
      (sym (leaf_resolve found (type_of v) v leaf))
      (elim (leaf_named fits leaf) [
        | inl none_there ↦ absurd (subst {A = GqlType} IsProper none_there proper)
        | inr own_there ↦
            subst {A = GqlType} (λ g. Shows found (type_of v) g (plain v)) (sym own_there) refl
      ])

-- Items are shown as what is registered for their type.
items_Shown :
    (found : List ℕ → Bool) (t : GoType) (gql : GqlType) (vs : Values)
    → EntryFits t gql
    → IsProper gql
    → IsItem t
    → AreTyped t vs
    → AllItems (λ v. Shows found t gql (plain v)) vs
unfolding AreTyped Shows
items_Shown found t gql no_values fits proper item typed = tt
items_Shown found t gql (value v vs) (own u) proper item typed =
    (typed.0, items_Shown found t gql vs (own u) proper item typed.2)
items_Shown found t gql (value v vs) (untyped u) proper item typed = absurd proper
items_Shown found t gql (value v vs) (pairs_of f g) proper item typed = absurd item

-- A value that is no interface is what it holds.
pub same_dynamic : (k : GoType) (v : Value) → type_of v ≡ k → IsShown k → dynamic v ≡ v
same_dynamic k (Value.interface name v) e shown = absurd (subst {A = GoType} IsShown (sym e) shown)
same_dynamic k (Value.bool b) e shown = refl
same_dynamic k (Value.num n b) e shown = refl
same_dynamic k (Value.string b) e shown = refl
same_dynamic k (Value.id b) e shown = refl
same_dynamic k (Value.nil_pointer b) e shown = refl
same_dynamic k (Value.pointer b) e shown = refl
same_dynamic k (Value.nil_slice b) e shown = refl
same_dynamic k (Value.slice t b) e shown = refl
same_dynamic k (Value.array t b) e shown = refl
same_dynamic k (Value.nil_map t b) e shown = refl
same_dynamic k (Value.map t b es) e shown = refl
same_dynamic k (Value.struct n b) e shown = refl
same_dynamic k (Value.nil_interface b) e shown = refl
same_dynamic k (Value.other b) e shown = refl

module _ (found : List ℕ → Bool) where
  pub slice_Shows :
      (t : GoType) (vs : Values) (gql : GqlType)
      → Fits (GoType.slice t) gql
      → IsProper gql
      → IsItem t
      → AreTyped t vs
      → Shows found (GoType.slice t) gql (plain (Value.slice t vs))
  unfolding Shows
  slice_Shows t vs gql (registered n (own u)) proper item typed = refl
  slice_Shows t vs gql (registered n (untyped u)) proper item typed = absurd proper
  slice_Shows t vs gql (slice_of (own u)) proper item typed =
      items_Shown found t (named u) vs (own u) proper item typed
  slice_Shows t vs gql (slice_of (untyped u)) proper item typed = absurd proper
  slice_Shows t vs gql (slice_of (pairs_of f g)) proper item typed = absurd item

  pub nil_slice_Shows :
      (t : GoType) (gql : GqlType)
      → Fits (GoType.slice t) gql
      → IsProper gql
      → IsItem t
      → Shows found (GoType.slice t) gql (plain (Value.nil_slice t))
  unfolding Shows
  nil_slice_Shows t gql (registered n (own u)) proper item = refl
  nil_slice_Shows t gql (registered n (untyped u)) proper item = absurd proper
  nil_slice_Shows t gql (slice_of (own u)) proper item = tt
  nil_slice_Shows t gql (slice_of (untyped u)) proper item = absurd proper
  nil_slice_Shows t gql (slice_of (pairs_of f g)) proper item = absurd item

  pub array_Shows :
      (t : GoType) (vs : Values) (gql : GqlType)
      → Fits (type_of (Value.array t vs)) gql
      → IsProper gql
      → IsItem t
      → AreTyped t vs
      → Shows found (type_of (Value.array t vs)) gql (plain (Value.array t vs))
  unfolding Shows
  array_Shows t vs gql (registered n (own u)) proper item typed = refl
  array_Shows t vs gql (registered n (untyped u)) proper item typed = absurd proper
  array_Shows t vs gql (array_of n (own u)) proper item typed =
      items_Shown found t (named u) vs (own u) proper item typed
  array_Shows t vs gql (array_of n (untyped u)) proper item typed = absurd proper
  array_Shows t vs gql (array_of n (pairs_of f g)) proper item typed = absurd item
