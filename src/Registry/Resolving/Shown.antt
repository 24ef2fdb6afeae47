-- ===== src/Registry/Resolving/Shown.antt =====
-- What GQLResolve gives can be shown as what GQLType says.
use mathlib.Core.Path.{subst}
use graphvent.Prelude.{
  ℕ, ◌≡◌, refl, sym, Bool, true, false, List, Option, none, some, if◌then◌else◌,
}
use graphvent.Serialize.{GoType, GoType-discrete, Value, Entries, no_entries, entry, type_of}
use graphvent.Registry.{GqlType, Registry}
use graphvent.Registry.Fitting.{own, untyped, pairs_of, Fits, registered, interface, object}
use graphvent.Registry.Resolving.{
  Resolved, pair_list, node, entries_of, dynamic, gql_resolve, IsMissing, IsProper, Gives, AllPairs,
  Shows, IsTyped, AreTyped, ArePairsTyped, IsShown,
}
use graphvent.Registry.Resolving.Leaves.{
  leaf_Shown, same_dynamic, Shown, slice_Shows, nil_slice_Shows, array_Shows,
}

-- A map is given as its pairs, of which it is to be shown as such a list.
map_Shown :
    (found : List ℕ → Bool) (k t : GoType) (gql : GqlType) (v : Value)
    → type_of v ≡ GoType.map k t
    → Shows found (GoType.map k t) gql (pair_list (entries_of v))
    → Shown found (GoType.map k t) gql v
unfolding gql_resolve
map_Shown found k t gql v e shows = by_type (GoType-discrete (type_of v) (GoType.map k t))
  where
    by_type :
        (d : Dec (type_of v ≡ GoType.map k t))
        → Gives
            (IsMissing found v)
            (Shows found (GoType.map k t) gql)
            (elim d as (λ x. Option Resolved) [
              | yes same ↦ some (pair_list (entries_of v))
              | no differ ↦ none
            ])
    by_type (yes same) = shows
    by_type (no differ) = absurd (differ e)

id_Shown :
    (found : List ℕ → Bool) (gql : GqlType) (bs : List ℕ)
    → Fits GoType.id gql
    → Shown found GoType.id gql (Value.id bs)
unfolding gql_resolve Shows
id_Shown found gql bs fits = by_found gql fits (found bs) refl
  where
    by_found :
        (gql : GqlType)
        → Fits GoType.id gql
        → (b : Bool) → found bs ≡ b
        → Gives
            (IsMissing found (Value.id bs))
            (Shows found GoType.id gql)
            (if b then some (node bs) else none)
    by_found g f false e = (bs, refl, e)
    by_found g (registered n f) true e = absurd n
    by_found g (interface name) true e = tt
    by_found g (object name) true e = tt

module _ (found : List ℕ → Bool) where
  abbrev ArePairsShown : GoType → GoType → GqlType → GqlType → Entries → Type 0
  ArePairsShown k t key val es =
      AllPairs (λ a. Shown found k key (dynamic a)) (λ b. Shown found t val (dynamic b)) es

  map_Shows :
      (k t : GoType) (es : Entries) (gql : GqlType)
      → Fits (GoType.map k t) gql
      → IsProper gql
      → ((key val : GqlType)
          → Fits k key
          → Fits t val
          → IsProper key × IsProper val
          → ArePairsShown k t key val es)
      → Shows found (GoType.map k t) gql (pair_list es)
  unfolding Shows
  map_Shows k t es gql (registered n (own u)) proper parts = absurd proper
  map_Shows k t es gql (registered n (untyped u)) proper parts = absurd proper
  map_Shows k t es gql (registered n (pairs_of {key = key} {val = val} f g)) proper parts =
      parts key val f g proper

  part_Shown :
      (k : GoType) (key : GqlType) (a : Value)
      → Fits k key
      → IsProper key
      → IsShown k
      → type_of a ≡ k
      → IsTyped a
      → ((gql : GqlType)
          → Fits (type_of a) gql
          → IsProper gql
          → IsShown (type_of a)
          → IsTyped a
          → Shown found (type_of a) gql a)
      → Shown found k key (dynamic a)
  part_Shown k key a f proper shown e typed shows =
      subst {A = Value} (λ v. Shown found k key v) (sym (same_dynamic k a e shown))
        (subst {A = GoType} (λ t. Shown found t key a) e
          (shows key (subst {A = GoType} (λ t. Fits t key) (sym e) f) proper
            (subst {A = GoType} IsShown (sym e) shown) typed))

  mutual
    unfolding IsTyped AreTyped ArePairsTyped Shows gql_resolve

    value_Shown :
        (v : Value) (gql : GqlType)
        → Fits (type_of v) gql
        → IsProper gql
        → IsShown (type_of v)
        → IsTyped v
        → Shown found (type_of v) gql v
    value_Shown (Value.id bs) gql fits proper shown typed = id_Shown found gql bs fits
    value_Shown (Value.map k t es) gql fits proper shown typed =
        map_Shown found k t gql (Value.map k t es) refl (
          map_Shows k t es gql fits proper
            (λ key val f g p. pairs_Shown k t key val es f g p shown typed))
    value_Shown (Value.nil_map k t) gql fits proper shown typed =
        map_Shown found k t gql (Value.nil_map k t) refl
          (map_Shows k t no_entries gql fits proper (λ key val f g p. tt))
    value_Shown (Value.slice t vs) gql fits proper shown typed =
        slice_Shows found t vs gql fits proper shown typed
    value_Shown (Value.nil_slice t) gql fits proper shown typed =
        nil_slice_Shows found t gql fits proper shown
    value_Shown (Value.array t vs) gql fits proper shown typed =
        array_Shows found t vs gql fits proper shown typed
    value_Shown (Value.bool b) gql fits proper shown typed =
        leaf_Shown found gql (Value.bool b) fits proper tt
    value_Shown (Value.num k n) gql fits proper shown typed =
        leaf_Shown found gql (Value.num k n) fits proper tt
    value_Shown (Value.string bs) gql fits proper shown typed =
        leaf_Shown found gql (Value.string bs) fits proper tt
    value_Shown (Value.pointer v) gql fits proper shown typed = absurd shown
    value_Shown (Value.nil_pointer t) gql fits proper shown typed = absurd shown
    value_Shown (Value.struct n fs) gql fits proper shown typed =
        leaf_Shown found gql (Value.struct n fs) fits proper tt
    value_Shown (Value.other n) gql fits proper shown typed =
        leaf_Shown found gql (Value.other n) fits proper tt
    value_Shown (Value.nil_interface n) gql fits proper shown typed = absurd shown
    value_Shown (Value.interface n v) gql fits proper shown typed = absurd shown

    pairs_Shown :
        (k t : GoType) (key val : GqlType) (es : Entries)
        → Fits k key
        → Fits t val
        → IsProper key × IsProper val
        → IsShown k × IsShown t
        → ArePairsTyped k t es
        → ArePairsShown k t key val es
    pairs_Shown k t key val no_entries f g proper shown typed = tt
    pairs_Shown k t key val (entry a b es) f g proper shown typed = (
      part_Shown k key a f proper.0 shown.0 typed.0 typed.1 (value_Shown a),
      part_Shown t val b g proper.1 shown.1 typed.2 typed.3 (value_Shown b),
      pairs_Shown k t key val es f g proper shown typed.4,
    )
