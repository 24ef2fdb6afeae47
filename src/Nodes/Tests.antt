-- ===== src/Nodes/Tests.antt =====
-- The theorems on NewNode applied to a context with one node type.
use mathlib.Core.Option.{some-injective, none-ne-some}
use graphvent.Serialize.Reading.{if_true, if_false}
use graphvent.Prelude.{
  ℕ, ◌+◌, ◌≡◌, refl, ap, Bool, true, false, List, [], ◌∷◌, Option, some, ◌==◌, ◌||◌, Bool-cases,
  inl, inr, sym, ◌∙◌, ◌⊎◌,
}
use graphvent.Prelude.Maps.{Map, lookup, has, insert, visits}
use graphvent.Registry.{NodeInfo, no_type}
use graphvent.Registry.Sound.{CoversFields}
use graphvent.Serialize.{uint8, Value}
use graphvent.Serialize.Samples.{some_fields, some_value}
use graphvent.Database.{StoredNode, done, begin, write_node_init, BadgerDb, node_not_found}
use graphvent.Database.Loading.{load_node}
use graphvent.Database.Entries.{node_entries, IsStorable}
use graphvent.Database.Staging.{stage_all}
use graphvent.Database.Writing.{write_node_init-entries}
use graphvent.Database.Samples.{
  memory, db_context, some_ext, some_db, some_node-IsStorable, some_node-total,
}
use graphvent.Nodes.{
  NodeContext, Nodes, returned, failed, blocked, existing_node, get_node, new_node, make_node,
  database, start_node, add_node, add_written, unless_found, extension_map, has_all, read_fields,
  add_loaded,
}
use graphvent.Signal.{NodeId}
use graphvent.Waiting.Commands.{in_pause}
use graphvent.Nodes.Stopping.{
  Loops, EndsAll, AreFree, HasStuck, stop_nodes, stop_context, stop_context-cases,
}
use graphvent.Nodes.Making.{HasIndices, new_node-returned}

abbrev some_info : NodeInfo
some_info = record {
  node_type = 1003;
  required_extensions = 7 ∷ [];
  fields = (20, record { extension = 7; index = 2; type = no_type }) ∷ [];
  reverse_fields = (7, (101, 20) ∷ []) ∷ [];
}

-- Whether extensions load.
abbrev node_context : Bool → NodeContext
node_context loads = record {
  badger = memory;
  db_context = db_context;
  node_types = (1003, some_info) ∷ [];
  node_type_for = λ name. name + 1000;
  node_fields = λ key node_type. some_fields;
  empty_queue = some_value;
  loads = λ ext_type ext. loads;
  fuel = 20;
}

abbrev no_nodes : (b : Bool) → Nodes (node_context b)
no_nodes b = record { nodes = []; db = some_db }

abbrev some_extensions : List (Option (ℕ × Map Value))
some_extensions = some (7, some_ext) ∷ []

abbrev made_node : StoredNode
made_node = make_node (node_context true) 9 1003 ((7, some_ext) ∷ [])

made_node-IsStorable : IsStorable db_context made_node
made_node-IsStorable = record {
  value = some_node-IsStorable.value;
  queue = some_node-IsStorable.queue;
  extensions = some_node-IsStorable.extensions;
}

abbrev db_with : BadgerDb memory
db_with = record {
  store = node_entries db_context made_node;
  buffer = (stage_all (begin memory some_db) (node_entries db_context made_node)).buffer;
}

written : write_node_init memory db_context (some made_node) some_db ≡ done db_with
written =
    write_node_init-entries memory db_context (λ ps key n. refl) made_node some_db
      made_node-IsStorable some_node-total

missing :
    (b : Bool)
    → get_node (node_context b) 5 (no_nodes b) ≡ (no_nodes b, failed (database node_not_found))
unfolding get_node load_node lookup
missing true = refl
missing false = refl

new_node_made :
    new_node (node_context true) 9 3 some_extensions (no_nodes true)
    ≡ (record { nodes = (5, made_node) ∷ []; db = db_with }, returned made_node)
unfolding new_node add_node start_node lookup has insert extension_map has_all
new_node_made =
    ap (unless_found (node_context true) 9 1003 some_info some_extensions) (missing true)
    ∙ ap (λ r. add_written (node_context true) made_node r (no_nodes true)) written

some_info-CoversFields : CoversFields some_info
unfolding lookup visits
some_info-CoversFields name f e = elim (Bool-cases (name == 20)) [
  | inl t ↦
      ap (λ x. x == 7 || false)
        (ap (λ f. f.extension) (some-injective f _ (sym e ∙ if_true _ _ _ t)))
  | inr n ↦ absurd (none-ne-some f (sym (if_false _ _ _ n) ∙ e))
]

some_info-HasIndices : HasIndices some_info.fields made_node.extensions
unfolding lookup
some_info-HasIndices name f ext e g = elim (Bool-cases (name == 20)) [
  | inl t ↦
      let same = some-injective f _ (sym e ∙ if_true _ _ _ t) in
      let one : some_ext ≡ ext =
        some-injective some_ext ext (sym (if_true _ _ _ (ap (λ f. f.extension == 7) same)) ∙ g) in
      (
        Value.num uint8 200,
        ap (λ m. lookup f.index m) (sym one) ∙ ap (λ f. lookup f.index some_ext) same,
      )
  | inr n ↦ absurd (none-ne-some f (sym (if_false _ _ _ n) ∙ e))
]

abbrev made_nodes : Nodes (node_context true)
made_nodes = record { nodes = (5, made_node) ∷ []; db = db_with }

some_info_known : (b : Bool) → lookup 1003 (node_context b).node_types ≡ some some_info
unfolding lookup
some_info_known b = refl

new_node-returned_example :
    (get_node (node_context true) 5 made_nodes ≡ (made_nodes, returned made_node))
    × ((other : List (Option (ℕ × Map Value)))
        → new_node (node_context true) 9 3 other made_nodes ≡ (made_nodes, failed existing_node))
    × ((names : List ℕ) (values : Map (Option Value))
        → (r : Map (Option Value)) × (read_fields some_info.fields made_node.extensions names values
            ≡ some r))
new_node-returned_example =
    new_node-returned (node_context true) 9 3 some_extensions some_info (no_nodes true) made_nodes
      made_node (some_info_known true) some_info-CoversFields some_info-HasIndices new_node_made

-- One node runs, and its loop has been paused.
abbrev one_node : Nodes (node_context true)
one_node = record { nodes = (5, made_node) ∷ []; db = db_with }

abbrev paused_loops : Loops
paused_loops id = in_pause

abbrev all_unload : NodeId → Bool
all_unload id = true

-- The listener of the node is full.
abbrev none_unload : NodeId → Bool
none_unload id = false

stop_context-cases_example :
    (((stop_context (node_context true) 0 all_unload paused_loops one_node).1
        ≡ (record { nodes = []; db = db_with }, returned tt))
      × AreFree all_unload one_node.nodes paused_loops
      × EndsAll one_node.nodes paused_loops
          (stop_context (node_context true) 0 all_unload paused_loops one_node).0
      × ((id : NodeId)
          → get_node (node_context true) id (record { nodes = []; db = db_with })
            ≡ add_loaded
                (node_context true)
                id
                (load_node memory db_context 20 db_with.store id)
                (record { nodes = []; db = db_with })))
    ⊎ (((stop_context (node_context true) 0 all_unload paused_loops one_node).1
          ≡ (one_node, blocked))
        × HasStuck all_unload one_node.nodes paused_loops)
unfolding has
stop_context-cases_example =
    stop_context-cases (node_context true) 0 all_unload paused_loops one_node (refl, tt)

one_node_stops :
    (stop_context (node_context true) 0 all_unload paused_loops one_node).1.1 ≡ returned tt
unfolding stop_context stop_nodes
one_node_stops = refl

full_listener_waits :
    (stop_context (node_context true) 0 none_unload paused_loops one_node).1 ≡ (one_node, blocked)
unfolding stop_context stop_nodes
full_listener_waits = refl
