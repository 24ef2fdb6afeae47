-- ===== src/Registry/Scalars.antt =====
-- context.go: the conversions of scalars that NewContext gives to RegisterScalar.
mod Literals
mod Tests
use graphvent.Prelude.{
  ℕ, zero, suc, ◌+◌, ◌-◌, ◌*◌, ◌/◌, ◌%◌, ◌^◌, Bool, true, false, not, ◌&&◌, ◌||◌, List, [], ◌∷◌,
  Option, none, some, ltb, leb, ◌==◌, if◌then◌else◌,
}
use graphvent.Serialize.{NumKind, width, GoType, GoType-discrete, Value, type_of}

-- An ast.Value of the GraphQL library, with the text of its literal.
pub data Literal : Type 0 where
  boolean_value : Bool → Literal
  int_value : List ℕ → Literal
  string_value : List ℕ → Literal
  other_value : Literal

-- What a conversion gives: nil, a value, or a panic.
pub data Converted {ℓ} (A : Type ℓ) : Type ℓ where
  nil : Converted A
  gives : A → Converted A
  panics : Converted A

-- The value of decimal digits behind those that have been read.
unfoldable pub digits_value : List ℕ → ℕ → Option ℕ
digits_value [] n = some n
digits_value (c ∷ cs) n =
    let rest = digits_value cs (n * 10 + (c - 48)) in if leb 48 c && leb c 57 then rest else none

abbrev pub digits : List ℕ → Option ℕ
digits [] = none
digits (c ∷ cs) = digits_value (c ∷ cs) 0

abbrev pub positive : Option ℕ → Option ℕ
positive none = none
positive (some n) = if ltb n (2 ^ 63) then some n else none

-- In two's complement.
abbrev pub negative : Option ℕ → Option ℕ
negative none = none
negative (some n) = if leb n (2 ^ 63) then some ((2 ^ 64 - n) % 2 ^ 64) else none

-- `strconv.Atoi`, whose result is an int of 64 bits.
unfoldable pub atoi : List ℕ → Option ℕ
unfolding digits_value
atoi [] = none
atoi (c ∷ cs) =
    if c == 45
    then negative (digits cs)
    else if c == 43
    then positive (digits cs)
    else positive (digits (c ∷ cs))

abbrev same_text : List ℕ → List ℕ → Bool
same_text [] [] = true
same_text (c ∷ cs) (d ∷ ds) = c == d && same_text cs ds
same_text text other = false

-- `T(i)` of an integer type.
abbrev pub to_kind : NumKind → ℕ → Value
to_kind kind n = Value.num kind (n % 256 ^ width kind)

abbrev pub kind_or_nil : NumKind → Option ℕ → Converted Value
kind_or_nil kind none = nil
kind_or_nil kind (some n) = gives (to_kind kind n)

-- `astInt`
abbrev pub ast_int : NumKind → Literal → Converted Value
ast_int kind (boolean_value true) = gives (to_kind kind 1)
ast_int kind (boolean_value false) = gives (to_kind kind 0)
ast_int kind (string_value text) = kind_or_nil kind (atoi text)
ast_int kind (int_value text) = kind_or_nil kind (atoi text)
ast_int kind other_value = nil

abbrev is_one_of : List ℕ → List (List ℕ) → Bool
is_one_of text [] = false
is_one_of text (word ∷ words) = same_text text word || is_one_of text words

abbrev true_words : List (List ℕ)
true_words =
    (49 ∷ [])
    ∷ (116 ∷ [])
    ∷ (84 ∷ [])
    ∷ (116 ∷ 114 ∷ 117 ∷ 101 ∷ [])
    ∷ (84 ∷ 82 ∷ 85 ∷ 69 ∷ [])
    ∷ (84 ∷ 114 ∷ 117 ∷ 101 ∷ [])
    ∷ []

abbrev false_words : List (List ℕ)
false_words =
    (48 ∷ [])
    ∷ (102 ∷ [])
    ∷ (70 ∷ [])
    ∷ (102 ∷ 97 ∷ 108 ∷ 115 ∷ 101 ∷ [])
    ∷ (70 ∷ 65 ∷ 76 ∷ 83 ∷ 69 ∷ [])
    ∷ (70 ∷ 97 ∷ 108 ∷ 115 ∷ 101 ∷ [])
    ∷ []

-- `strconv.ParseBool`: 1, t, T, true, TRUE and True, and 0, f, F, false, FALSE and False.
abbrev pub parse_bool : List ℕ → Option Bool
parse_bool text =
    if is_one_of text true_words
    then some true
    else if is_one_of text false_words
    then some false
    else none

abbrev pub bool_or_nil : Option Bool → Converted Value
bool_or_nil none = nil
bool_or_nil (some b) = gives (Value.bool b)

abbrev is_not_zero : Option ℕ → Option Bool
is_not_zero none = none
is_not_zero (some n) = some (not (n == 0))

-- `astBool`, for the type bool.
abbrev pub ast_bool : Literal → Converted Value
ast_bool (boolean_value b) = gives (Value.bool b)
ast_bool (int_value text) = bool_or_nil (is_not_zero (atoi text))
ast_bool (string_value text) = bool_or_nil (parse_bool text)
ast_bool other_value = nil

-- `astString`
abbrev pub ast_string : Literal → Converted Value
ast_string (string_value text) = gives (Value.string text)
ast_string l = nil

-- `coerce`, where nil has no type to ask; `convertible` is `ConvertibleTo` of the reflect package.
unfoldable pub coerce : (GoType → GoType → Bool) → GoType → Option Value → Converted Value
coerce convertible t none = panics
coerce convertible t (some v) =
    if convertible (type_of v) t
    then elim (GoType-discrete (type_of v) t) [ yes same ↦ gives v | no differ ↦ panics ]
    else nil

-- A type with a text: MarshalText, UnmarshalText of a new value, and whether UnmarshalText returns
-- its errors before it stores a value.
pub record TextType : Type 1 where
  pub Carrier : Type 0
  pub marshal_text : Carrier → Option (List ℕ)
  pub unmarshal_text : List ℕ → Option Carrier
  pub checks_first : Bool

-- What a GraphQL value may be here: nil, a string, a value of the type, or of another.
pub data Passed (A : Type 0) : Type 0 where
  nothing : Passed A
  text : List ℕ → Passed A
  own : A → Passed A
  foreign : Passed A

module _ (x : TextType) where
  abbrev pub text_or_nil : Option (List ℕ) → Passed x.Carrier
  text_or_nil none = nothing
  text_or_nil (some s) = text s

  -- `stringify`
  abbrev pub stringify : Passed x.Carrier → Passed x.Carrier
  stringify (own a) = text_or_nil (x.marshal_text a)
  stringify p = nothing

  abbrev pub own_or_nil : Option x.Carrier → Converted x.Carrier
  own_or_nil none = nil
  own_or_nil (some a) = gives a

  -- `unstringify`
  abbrev pub unstringify : Passed x.Carrier → Converted x.Carrier
  unstringify (text s) = own_or_nil (x.unmarshal_text s)
  unstringify p = nil

  abbrev pub through_nil : Option x.Carrier → Converted x.Carrier
  through_nil none = if x.checks_first then nil else panics
  through_nil (some a) = panics

  -- `unstringifyAST`, which stores through a pointer that is nil.
  abbrev pub unstringify_ast : Literal → Converted x.Carrier
  unstringify_ast (string_value s) = through_nil (x.unmarshal_text s)
  unstringify_ast l = nil
