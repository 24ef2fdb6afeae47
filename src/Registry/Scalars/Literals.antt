-- ===== src/Registry/Scalars/Literals.antt =====
-- Integer literals and texts.
use mathlib.Core.Path.{subst}
use graphvent.Prelude.{
  ◌==◌, ℕ, zero, suc, ◌+◌, ◌*◌, ◌/◌, ◌%◌, ◌^◌, ◌<◌, ◌≤◌, ◌≡◌, ◌≢◌, refl, sym, ap, ◌∙◌, Bool, true,
  false, List, [], ◌∷◌, Option, none, some, ltb, ltb→lt, if◌then◌else◌, Bool-cases, inl, inr, arith,
}
use graphvent.Serialize.Reading.{if_true, if_false}
use graphvent.Serialize.{NumKind, width, Value}
use graphvent.Registry.Scalars.{
  Literal, int_value, string_value, gives, digits_value, digits, positive, atoi, kind_or_nil,
  ast_int, boolean_value, other_value, nil, panics, TextType, through_nil, unstringify_ast,
}

-- The decimal digits of a number before others; the fuel is more than the number.
unfoldable pub decimal_before : ℕ → ℕ → List ℕ → List ℕ
decimal_before zero n cs = cs
decimal_before (suc fuel) n cs =
    let rest = decimal_before fuel (n / 10) ((48 + n % 10) ∷ cs) in
    if ltb n 10 then (48 + n) ∷ cs else rest

abbrev pub decimal : ℕ → List ℕ
decimal n = decimal_before (suc n) n []

digit_step :
    (d n : ℕ) (cs : List ℕ) → d < 10 → digits_value ((48 + d) ∷ cs) n ≡ digits_value cs (n * 10 + d)
unfolding digits_value
digit_step d n cs h = ground arith

digits_value-decimal_before :
    (fuel n : ℕ) (cs : List ℕ)
    → n < fuel
    → digits_value (decimal_before fuel n cs) 0 ≡ digits_value cs n
unfolding decimal_before
digits_value-decimal_before zero n cs h = absurd (omega arith)
digits_value-decimal_before (suc fuel) n cs h = elim (Bool-cases (ltb n 10)) [
  | inl y ↦
      ap (λ l. digits_value l 0) (if_true _ _ _ y)
      ∙ digit_step n 0 cs (ltb→lt n 10 y)
      ∙ ap (digits_value cs) (omega arith)
  | inr m ↦
      ap (λ l. digits_value l 0) (if_false _ _ _ m)
      ∙ digits_value-decimal_before fuel (n / 10) ((48 + n % 10) ∷ cs) (ground (arith, m))
      ∙ digit_step (n % 10) (n / 10) cs (omega arith)
      ∙ ap (digits_value cs) (omega arith)
]

-- The digits begin with one.
abbrev Begins : List ℕ → Type 0
Begins l = (c : ℕ) × (cs : List ℕ) × (l ≡ c ∷ cs) × (48 ≤ c)

decimal_before-Begins : (fuel n : ℕ) (cs : List ℕ) → Begins cs → Begins (decimal_before fuel n cs)
unfolding decimal_before
decimal_before-Begins zero n cs h = h
decimal_before-Begins (suc fuel) n cs h = elim (Bool-cases (ltb n 10)) [
  | inl y ↦ (48 + n, cs, if_true _ _ _ y, omega arith)
  | inr m ↦
      let rest =
        decimal_before-Begins fuel (n / 10) ((48 + n % 10) ∷ cs)
          (48 + n % 10, cs, refl, omega arith) in
      (rest.0, rest.1, if_false _ _ _ m ∙ rest.2, rest.3)
]

decimal-Begins : (n : ℕ) → Begins (decimal n)
unfolding decimal_before
decimal-Begins n = elim (Bool-cases (ltb n 10)) [
  | inl y ↦ (48 + n, [], if_true _ _ _ y, omega arith)
  | inr m ↦
      let rest =
        decimal_before-Begins n (n / 10) ((48 + n % 10) ∷ [])
          (48 + n % 10, [], refl, omega arith) in
      (rest.0, rest.1, if_false _ _ _ m ∙ rest.2, rest.3)
]

atoi_unsigned : (l : List ℕ) → Begins l → atoi l ≡ positive (digits l)
unfolding atoi
atoi_unsigned [] b = refl
atoi_unsigned (c ∷ cs) b = unsigned (subst {A = List ℕ} (λ l. 48 ≤ first l) (sym b.2) b.3)
  where
    first : List ℕ → ℕ
    first [] = 0
    first (d ∷ ds) = d

    unsigned : 48 ≤ c → atoi (c ∷ cs) ≡ positive (digits (c ∷ cs))
    unsigned h =
        if_false _ _ _ (differs 45 (omega arith)) ∙ if_false _ _ _ (differs 43 (omega arith))
      where
        differs : (k : ℕ) → k < 48 → (c == k) ≡ false
        differs k g = ground arith

digits_first : (l : List ℕ) → Begins l → digits l ≡ digits_value l 0
digits_first [] b = absurd (no_digits b)
  where
    no_digits : Begins [] → ⊥
    no_digits b = cc
digits_first (c ∷ cs) b = refl

digits-decimal : (n : ℕ) → digits (decimal n) ≡ some n
unfolding digits_value
digits-decimal n =
    digits_first (decimal n) (decimal-Begins n)
    ∙ digits_value-decimal_before (suc n) n [] (omega arith)

atoi-decimal : (n : ℕ) → n < 2 ^ 63 → atoi (decimal n) ≡ some n
atoi-decimal n h =
    atoi_unsigned (decimal n) (decimal-Begins n)
    ∙ ap positive (digits-decimal n)
    ∙ if_true (ltb n (2 ^ 63)) (some n) none (ground arith)

-- An integer or a string literal, with the decimal digits of a number below 2 to the 63, is taken
-- for every integer type as the number modulo 2 to the width of the type: it is the number itself if
-- the type has it, and else another number, without an error.
pub ast_int-decimal :
    (kind : NumKind) (n : ℕ)
    → n < 2 ^ 63
    → (ast_int kind (int_value (decimal n)) ≡ gives (Value.num kind (n % 256 ^ width kind)))
      × (ast_int kind (string_value (decimal n)) ≡ gives (Value.num kind (n % 256 ^ width kind)))
ast_int-decimal kind n h =
    (ap (kind_or_nil kind) (atoi-decimal n h), ap (kind_or_nil kind) (atoi-decimal n h))

-- A conversion of a literal by its text never gives a value, whichever literal it is.
unstringify_ast-ne-gives :
    (x : TextType) (l : Literal) (a : x.Carrier) → unstringify_ast x l ≢ gives a
unstringify_ast-ne-gives x (boolean_value b) a = λ e. cc
unstringify_ast-ne-gives x (int_value s) a = λ e. cc
unstringify_ast-ne-gives x other_value a = λ e. cc
unstringify_ast-ne-gives x (string_value s) a = by_value (x.unmarshal_text s)
  where
    by_check : (b : Bool) → (if b then nil else panics) ≢ gives a
    by_check true = λ e. cc
    by_check false = λ e. cc

    by_value : (o : Option x.Carrier) → through_nil x o ≢ gives a
    by_value none = by_check x.checks_first
    by_value (some v) = λ e. cc
