-- ===== src/Gql/Resolve.antt =====
-- gql_node.go: the fields that a query selects, and ResolveNode with its cache of nodes.
pub mod Fresh
pub mod Current
use graphvent.Prelude.{
  ℕ, Bool, true, false, not, ◌||◌, List, [], ◌∷◌, ◌++◌, Option, none, some, String, str_eq,
  if◌then◌else◌,
}
use graphvent.Prelude.Maps.{Map, lookup, insert}
use graphvent.Signal.{NodeId, FieldValue}

-- A selection of a query: a field, which may have selections of its own, an inline fragment, or the
-- spread of a named fragment. A selection set may be nil.
mutual
  pub data Selection : Type 0 where
    field : String → Selections → Selection
    inline_fragment : Selections → Selection
    fragment_spread : String → Selection

  pub data Selections : Type 0 where
    no_selections : Selections
    selection : Selection → Selections → Selections

-- `GetFields`: the names of the set and of its inline fragments, but for ID and Type.
unfoldable mutual
  pub get_fields : Selections → List String
  get_fields no_selections = []
  get_fields (selection s ss) = selected s ++ get_fields ss

  pub selected : Selection → List String
  selected (field name ss) = if str_eq name "ID" || str_eq name "Type" then [] else name ∷ []
  selected (inline_fragment ss) = get_fields ss
  selected (fragment_spread name) = []

-- `GetResolveFields`, of the selection sets of `p.Info.FieldASTs`.
unfoldable pub get_resolve_fields : List Selections → List String
unfolding get_fields
get_resolve_fields [] = []
get_resolve_fields (ss ∷ asts) = get_fields ss ++ get_resolve_fields asts

-- A map by field names.
abbrev pub Data : Type 0
Data = List (String × FieldValue)

unfoldable pub get_field : String → Data → Option FieldValue
get_field name [] = none
get_field name (d ∷ ds) = if str_eq name d.0 then some d.1 else get_field name ds

unfoldable pub put_field : String → FieldValue → Data → Data
put_field name v [] = (name, v) ∷ []
put_field name v (d ∷ ds) = if str_eq name d.0 then (name, v) ∷ ds else d ∷ put_field name v ds

unfoldable pub drop_field : String → Data → Data
drop_field name [] = []
drop_field name (d ∷ ds) = if str_eq name d.0 then drop_field name ds else d ∷ drop_field name ds

pub record NodeResult : Type 0 where
  pub node_id : NodeId
  pub node_type : ℕ
  pub data_map : Data

abbrev pub NodeCache : Type 0
NodeCache = Map NodeResult

abbrev pub is_there : Option FieldValue → Bool
is_there none = false
is_there (some v) = true

-- The fields that a status signal names are deleted. Deleting what is not there changes nothing.
unfoldable pub drop_fields : List String → Data → Data
unfolding drop_field
drop_fields [] data_map = data_map
drop_fields (name ∷ names) data_map = drop_fields names (drop_field name data_map)

abbrev pub with_data : Data → NodeResult → NodeResult
with_data data_map node = record {
  node_id = node.node_id;
  node_type = node.node_type;
  data_map = data_map;
}

abbrev pub invalidate_node : NodeId → List String → Option NodeResult → NodeCache → NodeCache
invalidate_node id fields none cache = cache
invalidate_node id fields (some node) cache =
    insert id (with_data (drop_fields fields node.data_map) node) cache

-- The source that is resolved: a StatusSignal with its source and its fields, or another.
abbrev pub Source : Type 0
Source = Option (NodeId × List String)

abbrev pub invalidate : Source → NodeCache → NodeCache
invalidate none cache = cache
invalidate (some s) cache = invalidate_node s.0 s.1 (lookup s.0 cache) cache

-- The loop over the fields, with the data of the node that is cached.
unfoldable pub missing_fields : List String → Data → List String
missing_fields [] data_map = []
missing_fields (name ∷ names) data_map =
    let rest = missing_fields names data_map in
    if is_there (get_field name data_map) then rest else name ∷ rest

-- `not_cached`
abbrev pub not_cached : List String → Option NodeResult → List String
not_cached fields none = fields
not_cached fields (some node) = missing_fields fields node.data_map

-- What came back for a read: a ReadResultSignal's node type and fields, or an error of Send, of the
-- wait, or for a response of another kind.
abbrev pub Response : Type 0
Response = Option (ℕ × Data)

unfoldable pub merge : Data → Data → Data
unfolding put_field
merge [] data_map = data_map
merge (d ∷ ds) data_map = merge ds (put_field d.0 d.1 data_map)

-- The node behind a response.
abbrev pub answered : NodeId → ℕ × Data → Option NodeResult → NodeResult
answered id response none = record { node_id = id; node_type = response.0; data_map = response.1 }
answered id response (some node) = with_data (merge response.1 node.data_map) node

-- How `ResolveNode` ends: the fields that it has read, if it has sent a read; the node, or none for
-- an error; and the cache.
pub record Resolved : Type 0 where
  pub asked : Option (List String)
  pub result : Option NodeResult
  pub cache : NodeCache

abbrev pub after_read : NodeId → List String → Option NodeResult → Response → NodeCache → Resolved
after_read id asked held none cache = record { asked = some asked; result = none; cache = cache }
after_read id asked held (some response) cache = record {
  asked = some asked;
  result = some (answered id response held);
  cache = insert id (answered id response held) cache;
}

-- A read of the fields, unless the node is cached and there are none.
abbrev pub read_unless_cached :
    NodeId → (List String → Response) → Option NodeResult → List String → NodeCache → Resolved
read_unless_cached id respond (some node) [] cache = record {
  asked = none;
  result = some node;
  cache = cache;
}
read_unless_cached id respond held asked cache = after_read id asked held (respond asked) cache

abbrev pub resolve_from :
    NodeId → List String → (List String → Response) → Option NodeResult → NodeCache → Resolved
resolve_from id fields respond held cache =
    read_unless_cached id respond held (not_cached fields held) cache

-- `ResolveNode` of the selected fields; `respond` is what comes back for a read.
unfoldable pub resolve_node :
    Source → NodeId → List String → (List String → Response) → NodeCache → Resolved
unfolding missing_fields drop_fields merge
resolve_node source id fields respond cache =
    resolve_from id fields respond (lookup id (invalidate source cache)) (invalidate source cache)
