-- ===== src/Prelude/Maps.antt =====
-- Go maps with number keys, as association lists. A map that the program keeps has each key once.
use Prim.Native.Nat.{ℕ, ◌+◌, ◌≤◌}
use mathlib.Core.Path.{◌≡◌, refl, sym, ◌∙◌}
use mathlib.Core.Logic.{inl, inr}
use mathlib.Core.Bool.{Bool, true, false, not, ◌&&◌, ◌||◌}
use mathlib.Core.List.{List, [], ◌∷◌}
use mathlib.Core.Option.{Option, none, some}
use native.Mathlib.Omega.{arith}
use graphvent.Prelude.Tests.{◌==◌, if◌then◌else◌, ==_iff, Bool-cases}
use graphvent.Prelude.Lists.{length}

abbrev pub is_some {ℓ} : {A : Type ℓ} → Option A → Bool
is_some none = false
is_some (some a) = true

module _ {ℓ} where
  abbrev pub Map : Type ℓ → Type ℓ
  Map V = List (ℕ × V)

module _ {ℓ} {V : Type ℓ} where
  unfoldable pub lookup : ℕ → Map V → Option V
  lookup k [] = none
  lookup k ((j, v) ∷ m) = if k == j then some v else lookup k m

  unfoldable pub has : ℕ → Map V → Bool
  has k [] = false
  has k ((j, v) ∷ m) = k == j || has k m

  -- `m[k] = v`
  unfoldable pub insert : ℕ → V → Map V → Map V
  insert k v [] = (k, v) ∷ []
  insert k v ((j, w) ∷ m) = if k == j then (k, v) ∷ m else (j, w) ∷ insert k v m

  -- `delete(m, k)`
  unfoldable pub delete : ℕ → Map V → Map V
  delete k [] = []
  delete k ((j, w) ∷ m) = if k == j then delete k m else (j, w) ∷ delete k m

  -- Each key stands once.
  abbrev pub IsUnique : Map V → Type 0
  IsUnique [] = Unit {0}
  IsUnique ((j, w) ∷ m) = (has j m ≡ false) × IsUnique m

  pub lookup-insert :
      (k j : ℕ) (v : V) (m : Map V)
      → lookup j (insert k v m) ≡ (if j == k then some v else lookup j m)
  unfolding lookup insert
  lookup-insert k j v [] = refl
  lookup-insert k j v ((i, w) ∷ m) = ground (arith, lookup-insert k j v m)

  pub lookup-delete :
      (k j : ℕ) (m : Map V) → lookup j (delete k m) ≡ (if j == k then none else lookup j m)
  unfolding lookup delete
  lookup-delete k j [] = ground arith
  lookup-delete k j ((i, w) ∷ m) = ground (arith, lookup-delete k j m)

  pub has-insert : (k j : ℕ) (v : V) (m : Map V) → has j (insert k v m) ≡ (j == k || has j m)
  unfolding has insert
  has-insert k j v [] = refl
  has-insert k j v ((i, w) ∷ m) = ground (arith, has-insert k j v m)

  pub has-delete : (k j : ℕ) (m : Map V) → has j (delete k m) ≡ (not (j == k) && has j m)
  unfolding has delete
  has-delete k j [] = ground arith
  has-delete k j ((i, w) ∷ m) = ground (arith, has-delete k j m)

  pub insert-IsUnique : (k : ℕ) (v : V) (m : Map V) → IsUnique m → IsUnique (insert k v m)
  unfolding has insert
  insert-IsUnique k v [] u = (refl, tt)
  insert-IsUnique k v ((j, w) ∷ m) u = ground (arith, insert-IsUnique k v m u.1, has-insert k j v m)

  pub delete-IsUnique : (k : ℕ) (m : Map V) → IsUnique m → IsUnique (delete k m)
  unfolding delete
  delete-IsUnique k [] u = tt
  delete-IsUnique k ((j, w) ∷ m) u = ground (arith, delete-IsUnique k m u.1, has-delete k j m)

  pub delete_of_missing : (k : ℕ) (m : Map V) → has k m ≡ false → delete k m ≡ m
  unfolding has delete
  delete_of_missing k [] h = refl
  delete_of_missing k ((j, w) ∷ m) h = ground (arith, delete_of_missing k m)

  pub length-delete :
      (k : ℕ) (m : Map V) → IsUnique m → has k m ≡ true → length (delete k m) + 1 ≡ length m
  unfolding has delete
  length-delete k [] u h = ground arith
  length-delete k ((j, w) ∷ m) u h =
      ground (arith, length-delete k m u.1, delete_of_missing k m, ==_iff k j)

  pub has-lookup : (k : ℕ) (m : Map V) → has k m ≡ true → (v : V) × (lookup k m ≡ some v)
  unfolding has lookup
  has-lookup k [] h = absurd (ground arith)
  has-lookup k ((j, w) ∷ m) h = elim (Bool-cases (k == j)) [
    | inl e ↦ (w, ground arith)
    | inr e ↦ let r = has-lookup k m (ground arith) in (r.0, ground (arith, r.1))
  ]

  pub lookup_missing : (k : ℕ) (m : Map V) → has k m ≡ false → lookup k m ≡ none
  unfolding has lookup
  lookup_missing k [] h = refl
  lookup_missing k ((j, w) ∷ m) h = ground (arith, lookup_missing k m)

  pub lookup-has : (k : ℕ) (v : V) (m : Map V) → lookup k m ≡ some v → has k m ≡ true
  unfolding has lookup
  lookup-has k v [] h = cc
  lookup-has k v ((j, w) ∷ m) h = ground (arith, lookup-has k v m)

  pub has-eq-lookup : (k : ℕ) (m : Map V) → has k m ≡ is_some (lookup k m)
  unfolding has lookup
  has-eq-lookup k [] = refl
  has-eq-lookup k ((j, w) ∷ m) = ground (arith, has-eq-lookup k m)

  pub lookup_empty : (k : ℕ) (m : Map V) → length m ≡ 0 → lookup k m ≡ none
  unfolding lookup
  lookup_empty k [] h = refl
  lookup_empty k ((j, w) ∷ m) h = absurd (omega arith)

-- Two maps, by their keys: a map within another is no longer, and if it is as long it has all keys.
module _ {ℓ κ} {V : Type ℓ} {W : Type κ} where
  abbrev pub Within : Map V → Map W → Type 0
  Within m n = (k : ℕ) → has k m ≡ true → has k n ≡ true

  pub length-Within :
      (m : Map V) (n : Map W) → IsUnique m → IsUnique n → Within m n → length m ≤ length n
  unfolding has
  length-Within [] n um un h = omega arith
  length-Within ((j, v) ∷ m) n um un h = omega (
    arith,
    length-Within m (delete j n) um.1 (delete-IsUnique j n un) rest,
    length-delete j n un (h j (ground arith)),
  )
    where
      rest : Within m (delete j n)
      rest k p = ground (arith, has-delete j k n, h k, ==_iff k j)

  pub Within-full :
      (m : Map V) (n : Map W)
      → IsUnique m
      → IsUnique n
      → Within m n
      → length m ≡ length n
      → (k : ℕ) → has k n ≡ true
      → has k m ≡ true
  Within-full m n um un h e k p = elim (Bool-cases (has k m)) [
    | inl q ↦ q
    | inr q ↦ absurd (
        omega (
          arith,
          length-Within m (delete k n) um (delete-IsUnique k n un) (rest q),
          length-delete k n un p,
        ))
  ]
    where
      rest : has k m ≡ false → Within m (delete k n)
      rest q j p' = ground (arith, has-delete k j n, h j, ==_iff j k)

-- The order in which a `range` visits a map's keys, which Go leaves open.
unfoldable pub visits : ℕ → List ℕ → Bool
visits k [] = false
visits k (j ∷ order) = k == j || visits k order

abbrev pub IsDistinct : List ℕ → Type 0
IsDistinct [] = Unit {0}
IsDistinct (j ∷ order) = (visits j order ≡ false) × IsDistinct order

-- Each key once, in some order.
pub record IsRange {ℓ} {V : Type ℓ} (m : Map V) (order : List ℕ) : Type 0 where
  pub distinct : IsDistinct order
  pub exact : (k : ℕ) → visits k order ≡ has k m

module _ {ℓ} {V : Type ℓ} where
  -- The keys in the order of the listing.
  abbrev pub keys : Map V → List ℕ
  keys [] = []
  keys ((j, v) ∷ m) = j ∷ keys m

  pub visits-keys : (k : ℕ) (m : Map V) → visits k (keys m) ≡ has k m
  unfolding visits has
  visits-keys k [] = refl
  visits-keys k ((j, v) ∷ m) = ground (arith, visits-keys k m)

  keys-IsDistinct : (m : Map V) → IsUnique m → IsDistinct (keys m)
  keys-IsDistinct [] u = tt
  keys-IsDistinct ((j, v) ∷ m) u = (visits-keys j m ∙ u.0, keys-IsDistinct m u.1)

  pub keys-IsRange : (m : Map V) → IsUnique m → IsRange m (keys m)
  keys-IsRange m u = record { distinct = keys-IsDistinct m u; exact = λ k. visits-keys k m }

-- A range visits no more keys than a map has that holds them all.
as_set : List ℕ → Map (Unit {0})
as_set [] = []
as_set (k ∷ order) = (k, tt) ∷ as_set order

has-as_set : (k : ℕ) (order : List ℕ) → has k (as_set order) ≡ visits k order
unfolding has as_set visits
has-as_set k [] = refl
has-as_set k (j ∷ order) = ground (arith, has-as_set k order)

as_set-IsUnique : (order : List ℕ) → IsDistinct order → IsUnique (as_set order)
unfolding as_set
as_set-IsUnique [] d = tt
as_set-IsUnique (k ∷ order) d = (has-as_set k order ∙ d.0, as_set-IsUnique order d.1)

length-as_set : (order : List ℕ) → length (as_set order) ≡ length order
unfolding as_set
length-as_set [] = refl
length-as_set (k ∷ order) = omega (arith, length-as_set order)

module _ {ℓ} {V : Type ℓ} where
  pub length-visits :
      (order : List ℕ) (m : Map V)
      → IsDistinct order
      → IsUnique m
      → ((k : ℕ) → visits k order ≡ true → has k m ≡ true)
      → length order ≤ length m
  length-visits order m d u h = omega (
    arith,
    length-as_set order,
    length-Within (as_set order) m (as_set-IsUnique order d) u
        (λ k p. h k (sym (has-as_set k order) ∙ p)),
  )
