-- ===== src/Prelude/Slices.antt =====
-- Slices `xs[a:b]` as `drop a (take b xs)`, and writes inside and outside them.
use Prim.Native.Nat.{ℕ, zero, suc, ◌≤◌, ◌<◌}
use mathlib.Core.Path.{◌≡◌, refl, ap}
use mathlib.Core.List.{List, [], ◌∷◌, ◌++◌}
use mathlib.Core.Option.{some}
use native.Mathlib.Omega.{arith}
use graphvent.Prelude.Lists.{length, get_elem?, set, take, drop}

module _ {ℓ} {A : Type ℓ} where
  pub take-set :
      (xs : List A) (i : ℕ) (v : A)
      → i < length xs
      → take (suc i) (set xs i v) ≡ take i xs ++ v ∷ []
  take-set [] i v h = absurd (omega arith)
  take-set (x ∷ xs) zero v h = refl
  take-set (x ∷ xs) (suc i) v h = ap (◌∷◌ x) (take-set xs i v (omega arith))

  pub drop-set_lt : (xs : List A) (n i : ℕ) (v : A) → i < n → drop n (set xs i v) ≡ drop n xs
  drop-set_lt [] n i v h = refl
  drop-set_lt (x ∷ xs) zero i v h = absurd (omega arith)
  drop-set_lt (x ∷ xs) (suc n) zero v h = refl
  drop-set_lt (x ∷ xs) (suc n) (suc i) v h = drop-set_lt xs n i v (omega arith)

  pub take-set_le : (xs : List A) (n i : ℕ) (v : A) → n ≤ i → take n (set xs i v) ≡ take n xs
  take-set_le [] n i v h = refl
  take-set_le (x ∷ xs) zero i v h = refl
  take-set_le (x ∷ xs) (suc n) zero v h = absurd (omega arith)
  take-set_le (x ∷ xs) (suc n) (suc i) v h = ap (◌∷◌ x) (take-set_le xs n i v (omega arith))

  pub drop-append_le :
      (n : ℕ) (xs ys : List A) → n ≤ length xs → drop n (xs ++ ys) ≡ drop n xs ++ ys
  drop-append_le zero xs ys h = refl
  drop-append_le (suc n) [] ys h = absurd (omega arith)
  drop-append_le (suc n) (x ∷ xs) ys h = drop-append_le n xs ys (omega arith)

  pub take_all : (n : ℕ) (xs : List A) → length xs ≤ n → take n xs ≡ xs
  take_all zero [] h = refl
  take_all zero (x ∷ xs) h = absurd (omega arith)
  take_all (suc n) [] h = refl
  take_all (suc n) (x ∷ xs) h = ap (◌∷◌ x) (take_all n xs (omega arith))

  pub drop_all : (n : ℕ) (xs : List A) → length xs ≤ n → drop n xs ≡ []
  drop_all zero [] h = refl
  drop_all zero (x ∷ xs) h = absurd (omega arith)
  drop_all (suc n) [] h = refl
  drop_all (suc n) (x ∷ xs) h = drop_all n xs (omega arith)

  pub take-append_le : (n : ℕ) (xs ys : List A) → n ≤ length xs → take n (xs ++ ys) ≡ take n xs
  take-append_le zero xs ys h = refl
  take-append_le (suc n) [] ys h = absurd (omega arith)
  take-append_le (suc n) (x ∷ xs) ys h = ap (◌∷◌ x) (take-append_le n xs ys (omega arith))

  -- The element at an index splits off the front of what is dropped up to it.
  pub drop-get_elem? :
      (xs : List A) (i : ℕ) (x : A) → get_elem? xs i ≡ some x → drop i xs ≡ x ∷ drop (suc i) xs
  drop-get_elem? [] i x h = cc
  drop-get_elem? (y ∷ xs) zero x h = ground arith
  drop-get_elem? (y ∷ xs) (suc i) x h = drop-get_elem? xs i x h

  pub get_elem?-take : (xs : List A) (n i : ℕ) → i < n → get_elem? (take n xs) i ≡ get_elem? xs i
  get_elem?-take [] zero i h = refl
  get_elem?-take [] (suc n) i h = refl
  get_elem?-take (x ∷ xs) zero i h = absurd (omega arith)
  get_elem?-take (x ∷ xs) (suc n) zero h = refl
  get_elem?-take (x ∷ xs) (suc n) (suc i) h = get_elem?-take xs n i (omega arith)
