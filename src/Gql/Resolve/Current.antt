-- ===== src/Gql/Resolve/Current.antt =====
-- Where the fields of a resolved node come from.
use mathlib.Core.Option.{some-injective, none-ne-some}
use mathlib.Core.Bool.{false≢true}
use graphvent.Prelude.{
  ℕ, ◌≡◌, refl, sym, ap, ◌∙◌, ◌⊎◌, inl, inr, Bool, true, false, List, [], ◌∷◌, Option, none, some,
  String, if◌then◌else◌, Bool-cases,
}
use graphvent.Prelude.Maps.{lookup}
use graphvent.Serialize.Reading.{if_true, if_false}
use graphvent.Signal.{NodeId, FieldValue}
use graphvent.Gql.Resolve.{
  Data, get_field, NodeResult, NodeCache, is_there, Source, invalidate, missing_fields, Response,
  merge, answered, Resolved, after_read, read_unless_cached, resolve_from, resolve_node,
}
use graphvent.Gql.Resolve.Fresh.{
  has_name, HasUniqueNames, get_field-merge, has_name-missing_fields, IsCached, invalidate-IsCached,
}

-- A response has exactly the fields that were asked for, each once.
abbrev pub Answers : List String → Data → Type 0
Answers asked r = HasUniqueNames r × ((k : String) → is_there (get_field k r) ≡ has_name k asked)

-- A field that a read has answered.
pub record IsRead (name : String) (v : FieldValue) (respond : List String → Response) (r : Resolved)
    : Type 0 where
  pub names : List String
  pub response : ℕ × Data
  pub asked : r.asked ≡ some names
  pub answer : respond names ≡ some response
  pub same : get_field name response.1 ≡ some v

module _ (id : NodeId) (name : String) (fields : List String) (respond : List String → Response)
    (answers : (asked : List String) (response : ℕ × Data)
      → respond asked ≡ some response
      → Answers asked response.1)
    (requested : has_name name fields ≡ true) where
  there_some : (o : Option FieldValue) → is_there o ≡ true → (v : FieldValue) × (o ≡ some v)
  there_some none h = absurd (false≢true h)
  there_some (some v) h = (v, refl)

  -- Behind a read of a node that is not cached, and of one that is.
  after_read-none :
      (o : Response) (cache : NodeCache) (node : NodeResult)
      → respond fields ≡ o
      → (after_read id fields none o cache).result ≡ some node
      → (v : FieldValue) × (get_field name node.data_map ≡ some v)
        × IsRead name v respond (after_read id fields none o cache)
  after_read-none none cache node e h = absurd (none-ne-some node h)
  after_read-none (some response) cache node e h =
      let made : answered id response none ≡ node =
        some-injective (answered id response none) node h in
      let v =
        there_some (get_field name response.1) ((answers fields response e).1 name ∙ requested) in
      (
        v.0,
        ap (λ n. get_field name n.data_map) (sym made) ∙ v.1,
        record { names = fields; response = response; asked = refl; answer = e; same = v.1 },
      )

  -- The field was missing, or it was there.
  after_read-some :
      (source : Source) (asked : List String) (o : Response) (old : NodeResult)
      (before cache : NodeCache) (node : NodeResult)
      → respond asked ≡ o
      → (has_name name asked ≡ (if is_there (get_field name old.data_map) then false else true))
      → ((v : FieldValue) → get_field name old.data_map ≡ some v → IsCached source id name v before)
      → (after_read id asked (some old) o cache).result ≡ some node
      → (v : FieldValue) × (get_field name node.data_map ≡ some v)
        × (IsRead name v respond (after_read id asked (some old) o cache)
            ⊎ IsCached source id name v before)
  after_read-some source asked none old before cache node e m kept h = absurd (none-ne-some node h)
  after_read-some source asked (some response) old before cache node e m kept h =
      let all : Answers asked response.1 = answers asked response e in
      let made : get_field name (merge response.1 old.data_map) ≡ get_field name node.data_map =
        ap (λ n. get_field name n.data_map)
          (some-injective (answered id response (some old)) node h) in
      let merged = get_field-merge name response.1 old.data_map all.0 in
      elim (Bool-cases (is_there (get_field name old.data_map))) [
        | inl t ↦
            let v = there_some (get_field name old.data_map) t in
            let unasked : is_there (get_field name response.1) ≡ false =
              all.1 name ∙ m ∙ if_true_at (is_there (get_field name old.data_map)) t in
            (v.0, sym made ∙ merged ∙ if_false _ _ _ unasked ∙ v.1, inr (kept v.0 v.1))
        | inr n ↦
            let there : is_there (get_field name response.1) ≡ true =
              all.1 name ∙ m ∙ if_false_at (is_there (get_field name old.data_map)) n in
            let v = there_some (get_field name response.1) there in
            (
              v.0,
              sym made ∙ merged ∙ if_true _ _ _ there ∙ v.1,
              inl (record {
                names = asked;
                response = response;
                asked = refl;
                answer = e;
                same = v.1;
              }),
            )
      ]
    where
      if_true_at : (b : Bool) → b ≡ true → (if b then false else true) ≡ false
      if_true_at b e = ap (λ b. if b then false else true) e

      if_false_at : (b : Bool) → b ≡ false → (if b then false else true) ≡ true
      if_false_at b e = ap (λ b. if b then false else true) e

  from_held :
      (source : Source) (asked : List String) (old : NodeResult) (before cache : NodeCache)
      (node : NodeResult)
      → has_name name asked ≡ (if is_there (get_field name old.data_map) then false else true)
      → ((v : FieldValue) → get_field name old.data_map ≡ some v → IsCached source id name v before)
      → (read_unless_cached id respond (some old) asked cache).result ≡ some node
      → (v : FieldValue) × (get_field name node.data_map ≡ some v)
        × (IsRead name v respond (read_unless_cached id respond (some old) asked cache)
            ⊎ IsCached source id name v before)
  from_held source [] old before cache node m kept h =
      let made : old ≡ node = some-injective old node h in
      let v =
        there_some (get_field name old.data_map)
          (must_be_there (is_there (get_field name old.data_map)) m) in
      (v.0, ap (λ n. get_field name n.data_map) (sym made) ∙ v.1, inr (kept v.0 v.1))
    where
      must_be_there : (b : Bool) → false ≡ (if b then false else true) → b ≡ true
      must_be_there true e = refl
      must_be_there false e = e
  from_held source (x ∷ asked) old before cache node m kept h =
      after_read-some source (x ∷ asked) (respond (x ∷ asked)) old before cache node refl m kept h

  from_lookup :
      (source : Source) (o : Option NodeResult) (cache : NodeCache) (node : NodeResult)
      → lookup id (invalidate source cache) ≡ o
      → (resolve_from id fields respond o (invalidate source cache)).result ≡ some node
      → (v : FieldValue) × (get_field name node.data_map ≡ some v)
        × (IsRead name v respond (resolve_from id fields respond o (invalidate source cache))
            ⊎ IsCached source id name v cache)
  from_lookup source none cache node known h =
      let r = after_read-none (respond fields) (invalidate source cache) node refl h in
      (r.0, r.1, inl r.2)
  from_lookup source (some old) cache node known h =
      from_held source (missing_fields fields old.data_map) old cache (invalidate source cache) node
        (has_name-missing_fields name fields old.data_map
          ∙ ap (λ b. if is_there (get_field name old.data_map) then false else b) requested)
        (λ v g. invalidate-IsCached id name v source cache old known g) h

-- If every response has exactly the fields that were asked for, every selected field of a node that
-- ResolveNode returns has a value, which comes from the answer to the read that it has sent, or is
-- the one that was in the cache, and then the source is no status of the node that names the field.
pub resolve_node-IsCurrent :
    (source : Source) (id : NodeId) (name : String) (fields : List String)
    (respond : List String → Response) (cache : NodeCache) (node : NodeResult)
    → ((asked : List String) (response : ℕ × Data)
        → respond asked ≡ some response
        → Answers asked response.1)
    → has_name name fields ≡ true
    → (resolve_node source id fields respond cache).result ≡ some node
    → (v : FieldValue) × (get_field name node.data_map ≡ some v)
      × (IsRead name v respond (resolve_node source id fields respond cache)
          ⊎ IsCached source id name v cache)
unfolding resolve_node
resolve_node-IsCurrent source id name fields respond cache node answers requested h =
    from_lookup id name fields respond answers requested source
      (lookup id (invalidate source cache)) cache node refl h
