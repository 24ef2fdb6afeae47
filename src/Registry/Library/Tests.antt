-- ===== src/Registry/Library/Tests.antt =====
-- The theorems on NewContext applied to some hashes, and node types that match no interface.
use graphvent.Prelude.{ℕ, ◌+◌, ◌≡◌, arith, Bool, true, false, ◌&&◌, ◌∷◌, some, [], refl, ◌==◌}
use graphvent.Serialize.{GoType, GoType-discrete}
use graphvent.Registry.{GqlType, named, list, interface_type, pairs, valid}
use graphvent.Registry.Interfaces.{has_fields, gql_interfaces, interfaces_of}
use graphvent.Registry.Library.Interfaces.{new_context-interfaces}
use graphvent.Prelude.Maps.{lookup}
use graphvent.Registry.Library.{
  base_name, lockable_name, node_name, lockable_node_name, library_names, new_context,
}
use native.Mathlib.Decide.{ℕ_discrete}
use graphvent.Registry.Reach.{Reached}
use graphvent.Registry.Library.Returns.{new_context-returns}

abbrev some_hash : GoType → ℕ
some_hash (GoType.struct n) = n + 100
some_hash t = 1

new_context-returns_example :
    ((new_context (library_names some_hash (λ tag. tag) (λ name. name + 50)) 3).1 ≡ valid tt)
    × Reached
        (library_names some_hash (λ tag. tag) (λ name. name + 50))
        (new_context (library_names some_hash (λ tag. tag) (λ name. name + 50)) 3).0
new_context-returns_example =
    new_context-returns some_hash (λ tag. tag) (λ name. name + 50) 3 (omega arith) (omega arith)
      (omega arith) (omega arith)

-- Pointers to types: a list of pairs is made once for a map type, and any other list anew.
abbrev same_made : GqlType → GqlType → Bool
same_made (named t) (named u) = elim (GoType-discrete t u) [ yes same ↦ true | no differ ↦ false ]
same_made (interface_type n) (interface_type m) = n == m
same_made (list (pairs k t)) (list (pairs l u)) = same_made k l && same_made t u
same_made t u = false

new_context-interfaces_example :
    let reg = (new_context (library_names some_hash (λ tag. tag) (λ name. name + 50)) 3).0 in
    (interfaces_of same_made (node_name + 50) reg ≡ some (base_name ∷ []))
    × (interfaces_of same_made (lockable_node_name + 50) reg
        ≡ some (base_name ∷ lockable_name ∷ []))
unfolding GoType-discrete ℕ_discrete
new_context-interfaces_example =
    new_context-interfaces some_hash (λ tag. tag) (λ name. name + 50) 3 same_made (omega arith)
      (omega arith) (omega arith) (omega arith) refl refl

-- A node type with a field of a slice type does not match an interface with that field.
abbrev strings : GqlType
strings = list (named GoType.string)

slice_unmatched :
    gql_interfaces same_made
      ((3, record { extension = 7; index = 0; type = strings }) ∷ [])
      ((1, []) ∷ (2, (3, strings) ∷ []) ∷ [])
    ≡ 1 ∷ []
unfolding gql_interfaces has_fields lookup
slice_unmatched = refl
