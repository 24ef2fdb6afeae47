-- ===== src/Gql/Resolve/Fresh.antt =====
-- Fields that are dropped from a cache, merged into it and missing in it.
use mathlib.Core.Option.{some-injective, none-ne-some}
use mathlib.Core.Bool.{false≢true}
use graphvent.Prelude.{
  ◌≡◌, refl, sym, ap, ◌∙◌, inl, inr, Bool, true, false, ◌||◌, List, [], ◌∷◌, Option, none, some,
  String, str_eq, eq_iff, if◌then◌else◌, ◌==◌, ==_iff, Bool-cases, arith,
}
use graphvent.Prelude.Maps.{lookup, lookup-insert}
use graphvent.Serialize.Reading.{if_true, if_false}
use graphvent.Signal.{NodeId, FieldValue}
use graphvent.Gql.Resolve.{
  Data, get_field, put_field, drop_field, NodeResult, NodeCache, is_there, drop_fields, with_data,
  invalidate_node, Source, invalidate, missing_fields, merge,
}

abbrev pub has_name : String → List String → Bool
has_name name [] = false
has_name name (n ∷ ns) = str_eq name n || has_name name ns

get_field-put_field :
    (k j : String) (v : FieldValue) (d : Data)
    → get_field k (put_field j v d) ≡ (if str_eq k j then some v else get_field k d)
unfolding get_field put_field
get_field-put_field k j v [] = refl
get_field-put_field k j v (e ∷ d) =
    ground (arith, get_field-put_field k j v d, eq_iff k j, eq_iff j e.0, eq_iff k e.0)

get_field-drop_field :
    (k j : String) (d : Data)
    → get_field k (drop_field j d) ≡ (if str_eq k j then none else get_field k d)
unfolding get_field drop_field
get_field-drop_field k j [] = ground arith
get_field-drop_field k j (e ∷ d) =
    ground (arith, get_field-drop_field k j d, eq_iff k j, eq_iff j e.0, eq_iff k e.0)

get_field-drop_fields :
    (k : String) (names : List String) (d : Data)
    → get_field k (drop_fields names d) ≡ (if has_name k names then none else get_field k d)
unfolding drop_fields
get_field-drop_fields k [] d = refl
get_field-drop_fields k (n ∷ names) d =
    ground (arith, get_field-drop_fields k names (drop_field n d), get_field-drop_field k n d)

-- The keys of a map.
abbrev pub HasUniqueNames : Data → Type 0
HasUniqueNames [] = Unit
HasUniqueNames (e ∷ d) = (get_field e.0 d ≡ none) × HasUniqueNames d

pub get_field-merge :
    (k : String) (r d : Data)
    → HasUniqueNames r
    → get_field k (merge r d) ≡ (if is_there (get_field k r) then get_field k r else get_field k d)
unfolding get_field merge
get_field-merge k [] d u = refl
get_field-merge k (e ∷ r) d u = ground (
  arith,
  get_field-merge k r (put_field e.0 e.1 d) u.1,
  get_field-put_field k e.0 e.1 d,
  eq_iff k e.0,
  u.0,
)

pub has_name-missing_fields :
    (k : String) (names : List String) (d : Data)
    → has_name k (missing_fields names d)
      ≡ (if is_there (get_field k d) then false else has_name k names)
unfolding missing_fields
has_name-missing_fields k [] d = ground arith
has_name-missing_fields k (n ∷ names) d =
    ground (arith, has_name-missing_fields k names d, eq_iff k n)

-- A field of a cached node, when the cache has been looked at for a source: the source is not a status
-- of the node that names it, and the field is as it was.
pub record IsCached (source : Source) (id : NodeId) (name : String) (v : FieldValue)
    (cache : NodeCache) : Type 0 where
  pub old : NodeResult
  pub held : lookup id cache ≡ some old
  pub same : get_field name old.data_map ≡ some v
  pub unnamed :
      (changed : List String) → source ≡ some (id, changed) → has_name name changed ≡ false

kept_field :
    (name : String) (v : FieldValue) (names : List String) (d : Data)
    → get_field name (drop_fields names d) ≡ some v
    → (has_name name names ≡ false) × (get_field name d ≡ some v)
kept_field name v names d h = elim (Bool-cases (has_name name names)) [
  | inl t ↦ absurd (none-ne-some v (sym (get_field-drop_fields name names d ∙ if_true _ _ _ t) ∙ h))
  | inr f ↦ (f, sym (get_field-drop_fields name names d ∙ if_false _ _ _ f) ∙ h)
]

module _ (id : NodeId) (name : String) (v : FieldValue) where
  no_source :
      (cache : NodeCache) (node : NodeResult)
      → lookup id cache ≡ some node
      → get_field name node.data_map ≡ some v
      → IsCached none id name v cache
  no_source cache node h g = record {
    old = node;
    held = h;
    same = g;
    unnamed = λ changed e. absurd (none-ne-some (id, changed) e);
  }

  -- The status of another node.
  other_source :
      (s : NodeId) (changed : List String) (cache : NodeCache) (node : NodeResult)
      → (id == s) ≡ false
      → lookup id cache ≡ some node
      → get_field name node.data_map ≡ some v
      → IsCached (some (s, changed)) id name v cache
  other_source s changed cache node n h g = record {
    old = node;
    held = h;
    same = g;
    unnamed = λ other e. absurd (
        false≢true (
          sym n
          ∙ (==_iff id s).1 (sym (ap (λ p. p.0) (some-injective (s, changed) (id, other) e)))));
  }

  own_source :
      (s : NodeId) (changed : List String) (cache : NodeCache) (old node : NodeResult)
      → (id == s) ≡ true
      → lookup s cache ≡ some old
      → with_data (drop_fields changed old.data_map) old ≡ node
      → get_field name node.data_map ≡ some v
      → IsCached (some (s, changed)) id name v cache
  own_source s changed cache old node t h made g =
      let kept =
        kept_field name v changed old.data_map (ap (λ n. get_field name n.data_map) made ∙ g) in
      record {
        old = old;
        held = ap (λ i. lookup i cache) ((==_iff id s).0 t) ∙ h;
        same = kept.1;
        unnamed = λ other e.
            ap (has_name name) (sym (ap (λ p. p.1) (some-injective (s, changed) (id, other) e)))
            ∙ kept.0;
      }

  status_source :
      (s : NodeId) (changed : List String) (cache : NodeCache) (o : Option NodeResult)
      (node : NodeResult)
      → lookup s cache ≡ o
      → lookup id (invalidate_node s changed o cache) ≡ some node
      → get_field name node.data_map ≡ some v
      → IsCached (some (s, changed)) id name v cache
  status_source s changed cache none node known h g = elim (Bool-cases (id == s)) [
    | inl t ↦
        absurd (none-ne-some node (sym (ap (λ i. lookup i cache) ((==_iff id s).0 t) ∙ known) ∙ h))
    | inr n ↦ other_source s changed cache node n h g
  ]
  status_source s changed cache (some old) node known h g =
      let made : NodeResult = with_data (drop_fields changed old.data_map) old in
      elim (Bool-cases (id == s)) [
        | inl t ↦
            own_source s changed cache old node t known
              (some-injective made node (sym (lookup-insert s id made cache ∙ if_true _ _ _ t) ∙ h))
              g
        | inr n ↦
            other_source s changed cache node n
              (sym (lookup-insert s id made cache ∙ if_false _ _ _ n) ∙ h) g
      ]

  pub invalidate-IsCached :
      (source : Source) (cache : NodeCache) (node : NodeResult)
      → lookup id (invalidate source cache) ≡ some node
      → get_field name node.data_map ≡ some v
      → IsCached source id name v cache
  invalidate-IsCached none cache node h g = no_source cache node h g
  invalidate-IsCached (some s) cache node h g =
      status_source s.0 s.1 cache (lookup s.0 cache) node refl h g
