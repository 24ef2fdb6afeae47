-- ===== src/Processing/Names.antt =====
-- node.go: the names of the fields that changed tags stand for, which QueueChanges collects.
use graphvent.Prelude.{ℕ, ◌≡◌, refl, ◌⊎◌, inl, inr, String, List, [], ◌∷◌, ◌++◌, Option, none, some}
use graphvent.Processing.{ReverseFields, field_names, changed_fields}

-- The changed tags, each with its extension.
abbrev pub with_tags : ℕ → List String → List (ℕ × String) → List (ℕ × String)
with_tags ext_type [] pairs = pairs
with_tags ext_type (tag ∷ tags) pairs = (ext_type, tag) ∷ with_tags ext_type tags pairs

abbrev pub tag_pairs : List (ℕ × List String) → List (ℕ × String)
tag_pairs [] = []
tag_pairs (change ∷ changes) = with_tags change.0 change.1 (tag_pairs changes)

-- The tag of the extension stands for a field of the name.
abbrev pub IsName : ReverseFields → ℕ × String → String → Type 0
IsName reverse_fields pair name =
    (tag_name : String → Option String) × (reverse_fields pair.0 ≡ some tag_name)
    × (tag_name pair.1 ≡ some name)

abbrev pub IsNameless : ReverseFields → ℕ × String → Type 0
IsNameless reverse_fields pair =
    (reverse_fields pair.0 ≡ none)
    ⊎ ((tag_name : String → Option String) × (reverse_fields pair.0 ≡ some tag_name)
        × (tag_name pair.1 ≡ none))

-- The names of the fields that changed tags stand for, in their order; the other tags have none.
pub data Names (reverse_fields : ReverseFields) : List (ℕ × String) → List String → Type 0 where
  no_names : Names reverse_fields [] []
  skip :
      {pair : ℕ × String} {pairs : List (ℕ × String)} {names : List String}
      → IsNameless reverse_fields pair
      → Names reverse_fields pairs names
      → Names reverse_fields (pair ∷ pairs) names
  named :
      {pair : ℕ × String} {pairs : List (ℕ × String)} {names : List String} (field : String)
      → IsName reverse_fields pair field
      → Names reverse_fields pairs names
      → Names reverse_fields (pair ∷ pairs) (field ∷ names)

unmapped-Names :
    (reverse_fields : ReverseFields) (ext_type : ℕ) (tags : List String) (pairs : List (ℕ × String))
    (names : List String)
    → reverse_fields ext_type ≡ none
    → Names reverse_fields pairs names
    → Names reverse_fields (with_tags ext_type tags pairs) names
unmapped-Names reverse_fields ext_type [] pairs names e h = h
unmapped-Names reverse_fields ext_type (tag ∷ tags) pairs names e h =
    skip (inl e) (unmapped-Names reverse_fields ext_type tags pairs names e h)

field_names-Names :
    (reverse_fields : ReverseFields) (ext_type : ℕ) (tag_name : String → Option String)
    (tags : List String) (pairs : List (ℕ × String)) (names : List String)
    → reverse_fields ext_type ≡ some tag_name
    → Names reverse_fields pairs names
    → Names reverse_fields (with_tags ext_type tags pairs) (field_names tag_name tags ++ names)
unfolding field_names
field_names-Names reverse_fields ext_type tag_name [] pairs names e h = h
field_names-Names reverse_fields ext_type tag_name (tag ∷ tags) pairs names e h =
    by_name (tag_name tag) refl
      (field_names-Names reverse_fields ext_type tag_name tags pairs names e h)
  where
    rest : List String
    rest = field_names tag_name tags

    by_name :
        (o : Option String)
        → tag_name tag ≡ o
        → Names reverse_fields (with_tags ext_type tags pairs) (rest ++ names)
        → Names reverse_fields
            ((ext_type, tag) ∷ with_tags ext_type tags pairs)
            ((elim o as (λ x. List String) [ none ↦ rest | some name ↦ name ∷ rest ]) ++ names)
    by_name none known later = skip (inr (tag_name, e, known)) later
    by_name (some n) known later = named n (tag_name, e, known) later

pub changed_fields-Names :
    (reverse_fields : ReverseFields) (changes : List (ℕ × List String))
    → Names reverse_fields (tag_pairs changes) (changed_fields reverse_fields changes)
unfolding changed_fields
changed_fields-Names reverse_fields [] = no_names
changed_fields-Names reverse_fields (change ∷ changes) =
    by_map (reverse_fields change.0) refl (changed_fields-Names reverse_fields changes)
  where
    rest : List String
    rest = changed_fields reverse_fields changes

    by_map :
        (o : Option (String → Option String))
        → reverse_fields change.0 ≡ o
        → Names reverse_fields (tag_pairs changes) rest
        → Names reverse_fields
            (with_tags change.0 change.1 (tag_pairs changes))
            (elim o as (λ x. List String) [
              | none ↦ rest
              | some tag_name ↦ field_names tag_name change.1 ++ rest
            ])
    by_map none e later =
        unmapped-Names reverse_fields change.0 change.1 (tag_pairs changes) rest e later
    by_map (some tag_name) e later =
        field_names-Names reverse_fields change.0 tag_name change.1 (tag_pairs changes) rest e later
