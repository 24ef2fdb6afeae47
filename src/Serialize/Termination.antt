-- ===== src/Serialize/Termination.antt =====
-- UnwrapStack and the loops of DeserializeValue end on all bytes.
mod Cases
pub mod Whole
use graphvent.Prelude.{
  ℕ, zero, suc, ◌+◌, ◌*◌, ◌≤◌, ◌<◌, ◌≡◌, ◌≢◌, refl, sym, ap, ◌∙◌, Bool, true, false, not, List, [],
  ◌∷◌, Option, none, some, length, take, drop, leb, ltb, ◌==◌, if◌then◌else◌, leb→le, length-drop,
  arith,
}
use native.Mathlib.Nat.{mul_assoc}
use graphvent.Serialize.{
  width, GoType, Value, Values, Entries, Fields, no_values, value, TypeInfo, Context, Outcome, ok,
  error, panic, out_of_fuel, ◌>>=◌, Error, GoType-discrete, type_of, no_entries,
}
use graphvent.Serialize.Bytes.{from_big_endian}
use graphvent.Serialize.Decode.{
  split, read, is_negative, iterations, unless_negative, address, read_values, called, read_entries,
  set_map_index, unwrap_kind, unwrap_code, unwrap_stack, post_deserialize, read_field, read_fields,
  read_struct, read_type, deserialize_value, deserialize, whole, field_type, set_field, addressable,
  into_interface,
}
use graphvent.Serialize.Reading.{type_size}

pub mul_step : (a b k : ℕ) → a + 1 ≤ b → a * k + k ≤ b * k
mul_step a zero k h = absurd (omega arith)
mul_step zero (suc b) k h = omega arith
mul_step (suc a) (suc b) k h = omega (arith, mul_step a b k (omega arith))

pub mul_le : (a b k : ℕ) → a ≤ b → a * k ≤ b * k
mul_le zero b k h = omega arith
mul_le (suc a) zero k h = absurd (omega arith)
mul_le (suc a) (suc b) k h = omega (arith, mul_le a b k (omega arith))

-- A call ends, and what it returns, if it does, has the property.
abbrev pub Ends : {A : Type 0} → (A → Type 0) → Outcome A → Type 0
Ends P (ok a) = P a
Ends P (error e) = Unit
Ends P panic = Unit
Ends P out_of_fuel = ⊥

pub bind-Ends :
    {A B : Type 0} (P : A → Type 0) (Q : B → Type 0) (o : Outcome A) (f : A → Outcome B)
    → Ends P o
    → ((a : A) → P a → Ends Q (f a))
    → Ends Q (o >>= f)
bind-Ends P Q (ok a) f h k = k a h
bind-Ends P Q (error e) f h k = tt
bind-Ends P Q panic f h k = tt
bind-Ends P Q out_of_fuel f h k = h

pub if-Ends :
    {A : Type 0} (P : A → Type 0) (b : Bool) (x y : Outcome A)
    → (b ≡ true → Ends P x)
    → (b ≡ false → Ends P y)
    → Ends P (if b then x else y)
if-Ends P true x y h k = h refl
if-Ends P false x y h k = k refl

-- What is left is shorter by so many bytes, or more.
abbrev pub Leaves : {A : Type 0} → ℕ → List ℕ → A × List ℕ → Type 0
Leaves n bytes r = length r.1 + n ≤ length bytes

-- The same from a longer start.
pub weaken-Ends :
    {A : Type 0} (bs bytes : List ℕ) (o : Outcome (A × List ℕ))
    → length bs ≤ length bytes
    → Ends (Leaves 0 bs) o
    → Ends (Leaves 0 bytes) o
weaken-Ends bs bytes (ok a) l h = omega (arith, h)
weaken-Ends bs bytes (error e) l h = tt
weaken-Ends bs bytes panic l h = tt
weaken-Ends bs bytes out_of_fuel l h = h

pub split-Ends : (bytes : List ℕ) (n : ℕ) → Ends (Leaves n bytes) (split bytes n)
split-Ends bytes n =
    if-Ends (Leaves n bytes) (leb n (length bytes)) (ok (take n bytes, drop n bytes)) panic
      (λ h. omega (arith, leb→le n (length bytes) h, length-drop n bytes)) (λ h. tt)

pub read-Ends : (w : ℕ) (bytes : List ℕ) → Ends (Leaves w bytes) (read w bytes)
read-Ends w bytes =
    bind-Ends (Leaves w bytes) (Leaves w bytes) (split bytes w) _ (split-Ends bytes w) (λ s h. h)

pub unless_negative-Ends :
    {A : Type 0} (P : A → Type 0) (n : ℕ) (o : Outcome A) → Ends P o → Ends P (unless_negative n o)
unless_negative-Ends P n o h = if-Ends P (is_negative n) panic o (λ e. tt) (λ e. h)

-- The types that the registry leads to, and those of registered fields, are of a bounded size.
pub record HasBoundedTypes (ctx : Context) (m : ℕ) : Type 0 where
  pub reverse : (code : ℕ) (t : GoType) → ctx.types_reverse code ≡ some t → type_size t ≤ m
  pub fields :
      (t : GoType) (info : TypeInfo) (tag : ℕ) (u : GoType)
      → ctx.types t ≡ some info
      → field_type tag info.fields ≡ some u
      → type_size u ≤ m
  pub positive : 1 ≤ m

module _ (ctx : Context) (m : ℕ) (bounded : HasBoundedTypes ctx m) where
  -- A type for the bytes that were read for it: at most `m` for each of them.
  abbrev pub Sized : List ℕ → GoType × List ℕ → Type 0
  Sized bytes r =
      (type_size r.0 + length r.1 * m ≤ length bytes * m) × (length r.1 + 8 ≤ length bytes)

  -- What is read for a type within another.
  abbrev Within : List ℕ → (List ℕ → Outcome (GoType × List ℕ)) → Type 0
  Within bytes unwrap = (bs : List ℕ) → length bs + 8 ≤ length bytes → Ends (Sized bs) (unwrap bs)

  after_code :
      (bytes left : List ℕ)
      → length left + 8 ≤ length bytes
      → length left * m + m ≤ length bytes * m
  after_code bytes left h = mul_step (length left) (length bytes) m (omega arith)

  unwrap_kind-Ends :
      (unwrap : List ℕ → Outcome (GoType × List ℕ)) (code : ℕ) (bytes left : List ℕ)
      → length left + 8 ≤ length bytes
      → Within bytes unwrap
      → Ends (Sized bytes) (unwrap_kind ctx unwrap code left)
  unfolding unwrap_kind
  unwrap_kind-Ends unwrap code bytes left h w =
      let p : 1 ≤ m = bounded.positive in
      let step : length left * m + m ≤ length bytes * m = after_code bytes left h in
      if-Ends (Sized bytes) (code == ctx.map_code) _ _
        (λ e. bind-Ends (Sized left) (Sized bytes) (unwrap left) _ (w left h) λ k hk.
          bind-Ends (Sized k.1) (Sized bytes) (unwrap k.1) _ (w k.1 (omega (arith, hk.1))) λ t ht.
            if-Ends (Sized bytes) (ctx.comparable k.0) _ _
              (λ c. (omega (arith, hk.0, ht.0, step, p), omega (arith, hk.1, ht.1))) (λ c. tt))
        λ e.
          if-Ends (Sized bytes) (code == ctx.pointer_code) _ _
            (λ e.
              bind-Ends (Sized left) (Sized bytes) (unwrap left) _ (w left h)
                λ t ht. (omega (arith, ht.0, step, p), omega (arith, ht.1)))
            λ e.
              if-Ends (Sized bytes) (code == ctx.slice_code) _ _
                (λ e.
                  bind-Ends (Sized left) (Sized bytes) (unwrap left) _ (w left h)
                    λ t ht. (omega (arith, ht.0, step, p), omega (arith, ht.1)))
                λ e.
                  if-Ends (Sized bytes) (code == ctx.array_code) _ _
                    (λ e.
                      bind-Ends (Leaves 8 left) (Sized bytes) (read 8 left) _ (read-Ends 8 left)
                        λ n hn.
                          bind-Ends (Sized n.1) (Sized bytes) (unwrap n.1) _
                            (w n.1 (omega (arith, hn)))
                            λ t ht. unless_negative-Ends (Sized bytes) n.0 _ (
                              omega (
                                arith,
                                ht.0,
                                step,
                                p,
                                mul_le (length n.1) (length left) m (omega arith),
                              ),
                              omega (arith, ht.1, hn),
                            ))
                    (λ e. tt)

  unwrap_code-Ends :
      (o : Option GoType) (unwrap : List ℕ → Outcome (GoType × List ℕ)) (code : ℕ)
      (bytes left : List ℕ)
      → ctx.types_reverse code ≡ o
      → length left + 8 ≤ length bytes
      → Within bytes unwrap
      → Ends (Sized bytes) (unwrap_code ctx o unwrap code left)
  unwrap_code-Ends (some t) unwrap code bytes left known h w =
      (omega (arith, bounded.reverse code t known, after_code bytes left h), h)
  unwrap_code-Ends none unwrap code bytes left known h w =
      unwrap_kind-Ends unwrap code bytes left h w

  pub unwrap_stack-Ends :
      (fuel : ℕ) (bytes : List ℕ)
      → length bytes < 8 * fuel
      → Ends (Sized bytes) (unwrap_stack ctx fuel bytes)
  unfolding unwrap_stack
  unwrap_stack-Ends zero bytes h = absurd (omega arith)
  unwrap_stack-Ends (suc fuel) bytes h =
      bind-Ends (Leaves 8 bytes) (Sized bytes) (read 8 bytes) _ (read-Ends 8 bytes) λ first l.
        unwrap_code-Ends (ctx.types_reverse first.0) (unwrap_stack ctx fuel) first.0 bytes first.1
          refl l (λ bs s. unwrap_stack-Ends fuel bs (omega arith))

  -- A loop whose step does not make the rest longer.
  abbrev pub Steps : {A : Type 0} → ℕ → (List ℕ → Outcome (A × List ℕ)) → Type 0
  Steps n f = (bs : List ℕ) → length bs ≤ n → Ends (Leaves 0 bs) (f bs)

  pub read_values-Ends :
      (read_one : List ℕ → Outcome (Value × List ℕ)) (k n : ℕ) (bytes : List ℕ)
      → Steps k read_one
      → length bytes ≤ k
      → Ends (Leaves 0 bytes) (read_values read_one n bytes)
  unfolding read_values
  read_values-Ends read_one k zero bytes s h = omega arith
  read_values-Ends read_one k (suc n) bytes s h =
      bind-Ends (Leaves 0 bytes) (Leaves 0 bytes) (read_one bytes) _ (s bytes h) λ r hr.
        bind-Ends (Leaves 0 r.1) (Leaves 0 bytes) (read_values read_one n r.1) _
          (read_values-Ends read_one k n r.1 s (omega (arith, hr))) λ rs hs. omega (arith, hr, hs)

  pub read_entries-Ends :
      (read_key read_elem : List ℕ → Outcome (Value × List ℕ)) (k n : ℕ) (es : Entries)
      (bytes : List ℕ)
      → Steps k read_key
      → Steps k read_elem
      → length bytes ≤ k
      → Ends (Leaves 0 bytes) (read_entries ctx read_key read_elem n es bytes)
  unfolding read_entries
  read_entries-Ends read_key read_elem k zero es bytes s t h = omega arith
  read_entries-Ends read_key read_elem k (suc n) es bytes s t h =
      bind-Ends (Leaves 0 bytes) (Leaves 0 bytes) (read_key bytes) _ (s bytes h) λ key hk.
        bind-Ends (Leaves 0 key.1) (Leaves 0 bytes) (read_elem key.1) _
          (t key.1 (omega (arith, hk)))
          λ v hv.
            let rest =
              read_entries-Ends read_key read_elem k n (set_map_index ctx key.0 v.0 es) v.1 s t
                (omega (arith, hk, hv)) in
            if-Ends (Leaves 0 bytes) (ctx.hashable key.0) _ _
              (λ e. weaken-Ends v.1 bytes _ (omega (arith, hk, hv)) rest) (λ e. tt)
