-- ===== src/Nodes/Making.antt =====
-- What NewNode leaves.
use mathlib.Core.Path.{subst}
use graphvent.Prelude.{
  ℕ, ◌≡◌, refl, sym, ap, ◌∙◌, Bool, true, false, List, [], ◌∷◌, Option, none, some, if◌then◌else◌,
  ==_iff, ==_refl, arith,
}
use graphvent.Prelude.Maps.{Map, lookup, has, insert, visits, lookup-insert, has-lookup}
use graphvent.Signal.{NodeId}
use graphvent.Registry.{NodeFieldInfo, NodeInfo}
use graphvent.Registry.Sound.{CoversFields}
use graphvent.Serialize.{Value}
use graphvent.Serialize.Reading.{if_true}
use graphvent.Database.{Result, done, fails, panics, exhausted, StoredNode, BadgerDb}
use graphvent.Nodes.{
  existing_node, Reply, returned, failed, panicked, blocked, no_fuel, is_not_found, NodeContext,
  Nodes, Call, start_node, start_statuses, run, add_node, get_node, running_or_loaded, has_all,
  extension_map, make_node, add_written, with_extensions, unless_found, id_of, of_known_type,
  new_node, field_value, read_fields,
}

module _ (ctx : NodeContext) where
  -- What holds of a node that is returned, and of the nodes behind the call.
  abbrev Gives : (Nodes ctx → StoredNode → Type 0) → Call ctx StoredNode → Type 0
  Gives P (w, returned node) = P w node
  Gives P (w, r) = Unit

  -- It runs under its ID, and has the extensions of the list.
  abbrev Made : NodeId → List ℕ → Nodes ctx → StoredNode → Type 0
  Made id required w node =
      (node.id ≡ id)
      × (lookup id w.nodes ≡ some node)
      × (has_all ctx required node.extensions ≡ true)

  run-Made :
      (node : StoredNode) (required : List ℕ) (b : Bool) (w : Nodes ctx)
      → has_all ctx required node.extensions ≡ true
      → Gives (Made node.id required) (run ctx node.id node (start_statuses ctx b) w)
  run-Made node required true w h =
      (refl, lookup-insert node.id node.id node w.nodes ∙ if_true _ _ _ (==_refl node.id), h)
  run-Made node required false w h = tt

  add_written-Made :
      (node : StoredNode) (required : List ℕ) (r : Result (BadgerDb ctx.badger)) (w : Nodes ctx)
      → has_all ctx required node.extensions ≡ true
      → Gives (Made node.id required) (add_written ctx node r w)
  unfolding add_node
  add_written-Made node required (done db) w h =
      run-Made node required (start_node ctx node.extensions) _ h
  add_written-Made node required (fails e) w h = tt
  add_written-Made node required panics w h = tt
  add_written-Made node required exhausted w h = tt

  if_Gives :
      (P : Nodes ctx → StoredNode → Type 0) (b : Bool) (c d : Call ctx StoredNode)
      → (b ≡ true → Gives P c)
      → Gives P d
      → Gives P (if b then c else d)
  if_Gives P true c d h k = h refl
  if_Gives P false c d h k = k

  with_extensions-Made :
      (key node_type : ℕ) (info : NodeInfo) (r : Reply (Map (Map Value))) (w : Nodes ctx)
      → Gives
          (Made (id_of ctx key node_type) info.required_extensions)
          (with_extensions ctx key node_type info r w)
  with_extensions-Made key node_type info (returned exts) w =
      if_Gives (Made (id_of ctx key node_type) info.required_extensions)
        (has_all ctx info.required_extensions exts) _ _
        (λ h. add_written-Made (make_node ctx key node_type exts) info.required_extensions _ w h) tt
  with_extensions-Made key node_type info (failed e) w = tt
  with_extensions-Made key node_type info panicked w = tt
  with_extensions-Made key node_type info blocked w = tt
  with_extensions-Made key node_type info no_fuel w = tt

  unless_found-Made :
      (key node_type : ℕ) (info : NodeInfo) (exts : List (Option (ℕ × Map Value)))
      (c : Call ctx StoredNode)
      → Gives
          (Made (id_of ctx key node_type) info.required_extensions)
          (unless_found ctx key node_type info exts c)
  unless_found-Made key node_type info exts (w, returned node) = tt
  unless_found-Made key node_type info exts (w, failed e) =
      if_Gives (Made (id_of ctx key node_type) info.required_extensions) (is_not_found e) _ _
        (λ h. with_extensions-Made key node_type info (extension_map ctx exts []) w) tt
  unless_found-Made key node_type info exts (w, panicked) = tt
  unless_found-Made key node_type info exts (w, blocked) = tt
  unless_found-Made key node_type info exts (w, no_fuel) = tt

  new_node-Made :
      (key type_name : ℕ) (exts : List (Option (ℕ × Map Value))) (w : Nodes ctx) (info : NodeInfo)
      → lookup (ctx.node_type_for type_name) ctx.node_types ≡ some info
      → Gives
          (Made (id_of ctx key (ctx.node_type_for type_name)) info.required_extensions)
          (new_node ctx key type_name exts w)
  unfolding new_node
  new_node-Made key type_name exts w info known =
      subst {A = Option NodeInfo}
        (λ o.
          Gives (Made (id_of ctx key (ctx.node_type_for type_name)) info.required_extensions)
            (of_known_type ctx key (ctx.node_type_for type_name) exts o w))
        (sym known)
        (unless_found-Made key (ctx.node_type_for type_name) info exts
          (get_node ctx (id_of ctx key (ctx.node_type_for type_name)) w))

  has_all-visits :
      (xs : List ℕ) (exts : Map (Map Value)) (x : ℕ)
      → has_all ctx xs exts ≡ true
      → visits x xs ≡ true
      → has x exts ≡ true
  unfolding has_all visits
  has_all-visits [] exts x h v = absurd (ground arith)
  has_all-visits (y ∷ xs) exts x h v = ground (arith, has_all-visits xs exts x, ==_iff x y)

-- The extensions have a value at the index of every field: the index is that of their struct.
abbrev pub HasIndices : Map NodeFieldInfo → Map (Map Value) → Type 0
HasIndices fields exts =
    (name : ℕ) (f : NodeFieldInfo) (ext : Map Value)
    → lookup name fields ≡ some f
    → lookup f.extension exts ≡ some ext
    → (v : Value) × (lookup f.index ext ≡ some v)

module _ (fields : Map NodeFieldInfo) (exts : Map (Map Value)) where
  field_there :
      ((name : ℕ) (f : NodeFieldInfo) → lookup name fields ≡ some f → has f.extension exts ≡ true)
      → HasIndices fields exts
      → (name : ℕ) (f : NodeFieldInfo) → lookup name fields ≡ some f
      → (v : Value) × (field_value (lookup f.extension exts) f.index ≡ some v)
  field_there there indices name f known =
      let ext = has-lookup f.extension exts (there name f known) in
      let v = indices name f ext.0 known ext.1 in (v.0, ap (λ o. field_value o f.index) ext.1 ∙ v.1)

  -- A read goes on, whatever it is of.
  read_on :
      (names : List ℕ) (values : Map (Option Value)) (name : ℕ) (o : Option NodeFieldInfo)
      → lookup name fields ≡ o
      → ((f : NodeFieldInfo)
          → lookup name fields ≡ some f
          → (v : Value) × (field_value (lookup f.extension exts) f.index ≡ some v))
      → (values' : Map (Option Value)) × (read_fields fields exts (name ∷ names) values
          ≡ read_fields fields exts names values')
  unfolding read_fields
  read_on names values name none known there = (
    insert name none values,
    ap
        (λ o. elim o as (λ x. Option (Map (Option Value))) [
          | none ↦ read_fields fields exts names (insert name none values)
          | some f ↦ elim (field_value (lookup f.extension exts) f.index) [
            | none ↦ none
            | some v ↦ read_fields fields exts names (insert name (some v) values)
          ]
        ])
        known,
  )
  read_on names values name (some f) known there = (
    insert name (some (there f known).0) values,
    ap
          (λ o. elim o as (λ x. Option (Map (Option Value))) [
            | none ↦ read_fields fields exts names (insert name none values)
            | some f ↦ elim (field_value (lookup f.extension exts) f.index) [
              | none ↦ none
              | some v ↦ read_fields fields exts names (insert name (some v) values)
            ]
          ])
          known
        ∙ ap
            (λ o. elim o as (λ x. Option (Map (Option Value))) [
              | none ↦ none
              | some v ↦ read_fields fields exts names (insert name (some v) values)
            ])
            (there f known).1,
  )

  read_all :
      ((name : ℕ) (f : NodeFieldInfo)
        → lookup name fields ≡ some f
        → (v : Value) × (field_value (lookup f.extension exts) f.index ≡ some v))
      → (names : List ℕ) (values : Map (Option Value))
      → (r : Map (Option Value)) × (read_fields fields exts names values ≡ some r)
  unfolding read_fields
  read_all there [] values = (values, refl)
  read_all there (name ∷ names) values =
      let next = read_on names values name (lookup name fields) refl (there name) in
      let rest = read_all there names next.0 in (rest.0, next.1 ∙ rest.1)

module _ (ctx : NodeContext) where
  found_again :
      (id : NodeId) (node : StoredNode) (w : Nodes ctx)
      → lookup id w.nodes ≡ some node
      → get_node ctx id w ≡ (w, returned node)
  unfolding get_node
  found_again id node w e = ap (λ o. running_or_loaded ctx id o w) e

  -- A node that NewNode returns runs under its ID: getNode returns it, and changes nothing. Another
  -- NewNode with its key and type fails, whatever its extensions, and changes nothing. If every field
  -- of its type is of a required extension, and extensions have the fields that are registered,
  -- ReadFields of any names returns: no extension that it looks up is missing.
  pub new_node-returned :
      (key type_name : ℕ) (exts : List (Option (ℕ × Map Value))) (info : NodeInfo)
      (w w' : Nodes ctx) (node : StoredNode)
      → lookup (ctx.node_type_for type_name) ctx.node_types ≡ some info
      → CoversFields info
      → HasIndices info.fields node.extensions
      → new_node ctx key type_name exts w ≡ (w', returned node)
      → (get_node ctx node.id w' ≡ (w', returned node))
        × ((other : List (Option (ℕ × Map Value)))
            → new_node ctx key type_name other w' ≡ (w', failed existing_node))
        × ((names : List ℕ) (values : Map (Option Value))
            → (r : Map (Option Value)) × (read_fields info.fields node.extensions names values
                ≡ some r))
  unfolding new_node
  new_node-returned key type_name exts info w w' node known covers indices e =
      let node_type : ℕ = ctx.node_type_for type_name in
      let id : NodeId = id_of ctx key node_type in
      let made : Made ctx id info.required_extensions w' node =
        subst {A = Call ctx StoredNode} (λ c. Gives ctx (Made ctx id info.required_extensions) c) e
          (new_node-Made ctx key type_name exts w info known) in
      (
        found_again node.id node w' (ap (λ i. lookup i w'.nodes) made.0 ∙ made.1),
        λ other.
            ap (λ o. of_known_type ctx key node_type other o w') known
            ∙ ap (unless_found ctx key node_type info other) (found_again id node w' made.1),
        read_all info.fields node.extensions (
            field_there info.fields node.extensions
              (λ name f k.
                has_all-visits ctx info.required_extensions node.extensions f.extension made.2
                  (covers name f k))
              indices),
      )
