-- ===== src/Nodes.antt =====
-- context.go: the nodes of a Context (NewNode, addNode, getNode), and ReadFields of node.go.
pub mod Making
mod Blocking
pub mod Stopping
mod Tests
use graphvent.Prelude.{
  ℕ, Bool, true, false, ◌&&◌, List, [], ◌∷◌, Option, none, some, ◌==◌, if◌then◌else◌,
}
use graphvent.Prelude.Maps.{Map, lookup, has, insert}
use graphvent.Signal.{NodeId}
use graphvent.Node.{no_timeout}
use graphvent.Registry.{ExtensionInfo, NodeFieldInfo, NodeInfo}
use graphvent.Serialize.{GoType, Value, Values, no_values, Fields}
use graphvent.Database.{
  Fault, node_not_found, Result, done, fails, panics, exhausted, Badger, DatabaseContext,
  StoredNode, BadgerDb, write_node_init,
}
use graphvent.Database.Loading.{load_node}

pub data NodeFault : Type 0 where
  unknown_node_type existing_node nil_extension unknown_type repeated_extension : NodeFault
  missing_required not_stopped not_active : NodeFault
  database : Fault → NodeFault
  lookup_failed : NodeFault → NodeFault

-- `errors.Is(err, NodeNotFoundError)`
abbrev pub is_not_found : NodeFault → Bool
is_not_found (database node_not_found) = true
is_not_found e = false

-- What a loop sends on its status channel, as far as addNode looks at it.
pub data LoopStatus : Type 0 where
  active : LoopStatus
  other_status : LoopStatus

-- A call returns, fails, panics, or waits forever on a channel; or (in the model only) reading runs
-- out of fuel.
pub data Reply (A : Type 0) : Type 0 where
  returned : A → Reply A
  failed : NodeFault → Reply A
  panicked : Reply A
  blocked : Reply A
  no_fuel : Reply A

-- What NewNode takes from a Context and from the extensions: the registries, NodeTypeFor, the
-- registered fields of a Node with a key and a type, the SignalQueue without elements, and whether Load of an extension is without an
-- error.
pub record NodeContext : Type 1 where
  pub badger : Badger
  pub db_context : DatabaseContext
  pub node_types : Map NodeInfo
  pub node_type_for : ℕ → ℕ
  pub node_fields : ℕ → ℕ → Fields
  pub empty_queue : Value
  pub loads : ℕ → Map Value → Bool
  pub fuel : ℕ

module _ (ctx : NodeContext) where
  -- The nodes that run, and the database.
  pub record Nodes : Type 0 where
    pub nodes : Map StoredNode
    pub db : BadgerDb ctx.badger

  -- A call on the nodes, which it may change however it ends.
  abbrev pub Call : Type 0 → Type 0
  Call A = Nodes × Reply A

  -- The start of `nodeLoop`: every extension is loaded, up to the first error.
  unfoldable pub start_node : Map (Map Value) → Bool
  start_node [] = true
  start_node ((ext_type, ext) ∷ exts) = ctx.loads ext_type ext && start_node exts

  -- The statuses that `nodeLoop` sends before it receives anything: if an extension does not load, it
  -- returns before it sends one.
  abbrev pub start_statuses : Bool → List LoopStatus
  start_statuses true = active ∷ []
  start_statuses false = []

  -- `returned := <- status`, which waits forever if none is sent, and what `addNode` does with it.
  abbrev pub run : NodeId → StoredNode → List LoopStatus → Nodes → Call StoredNode
  run id node [] w = (w, blocked)
  run id node (active ∷ later) w =
      (record { nodes = insert id node w.nodes; db = w.db }, returned node)
  run id node (other_status ∷ later) w = (w, failed not_active)

  -- `addNode`, with the loop that it starts.
  unfoldable pub add_node : NodeId → StoredNode → Nodes → Call StoredNode
  unfolding start_node
  add_node id node w = run id node (start_statuses (start_node node.extensions)) w

  abbrev pub add_loaded : NodeId → Result StoredNode → Nodes → Call StoredNode
  add_loaded id (done node) w = add_node id node w
  add_loaded id (fails e) w = (w, failed (database e))
  add_loaded id panics w = (w, panicked)
  add_loaded id exhausted w = (w, no_fuel)

  abbrev pub running_or_loaded : NodeId → Option StoredNode → Nodes → Call StoredNode
  running_or_loaded id (some node) w = (w, returned node)
  running_or_loaded id none w =
      add_loaded id (load_node ctx.badger ctx.db_context ctx.fuel w.db.store id) w

  -- `getNode`
  unfoldable pub get_node : NodeId → Nodes → Call StoredNode
  unfolding add_node
  get_node id w = running_or_loaded id (lookup id w.nodes) w

  -- The loop of `NewNode` over the extensions; a nil one is none.
  abbrev pub and_reply : {A B : Type 0} → Reply A → (A → Reply B) → Reply B
  and_reply (returned a) f = f a
  and_reply (failed e) f = failed e
  and_reply panicked f = panicked
  and_reply blocked f = blocked
  and_reply no_fuel f = no_fuel

  abbrev pub or_failed : {A : Type 0} → NodeFault → Option A → Reply A
  or_failed e none = failed e
  or_failed e (some a) = returned a

  abbrev pub fails_if : {A : Type 0} → Bool → NodeFault → Reply A → Reply A
  fails_if true e r = failed e
  fails_if false e r = r

  unfoldable pub extension_map :
      List (Option (ℕ × Map Value)) → Map (Map Value) → Reply (Map (Map Value))
  extension_map [] exts = returned exts
  extension_map (none ∷ es) exts = failed nil_extension
  extension_map (some e ∷ es) exts =
      and_reply (or_failed unknown_type (lookup e.0 ctx.db_context.extensions)) λ info.
        fails_if (has info.ext_type exts) repeated_extension
          (extension_map es (insert info.ext_type e.1 exts))

  -- The loop over the required extensions.
  unfoldable pub has_all : List ℕ → Map (Map Value) → Bool
  has_all [] exts = true
  has_all (x ∷ xs) exts = has x exts && has_all xs exts

  -- The node that `NewNode` makes.
  abbrev pub make_node : ℕ → ℕ → Map (Map Value) → StoredNode
  make_node key node_type exts = record {
    id = ctx.db_context.key_id (ctx.node_fields key node_type);
    fields = ctx.node_fields key node_type;
    write_signal_queue = false;
    signal_queue = ctx.empty_queue;
    timeout_chan = no_timeout;
    extensions = exts;
  }

  -- `WriteNodeInit` and `addNode`
  abbrev pub add_written : StoredNode → Result (BadgerDb ctx.badger) → Nodes → Call StoredNode
  add_written node (done db) w = add_node node.id node (record { nodes = w.nodes; db = db })
  add_written node (fails e) w = (w, failed (database e))
  add_written node panics w = (w, panicked)
  add_written node exhausted w = (w, no_fuel)

  -- `NewNode` from the loop over the extensions on.
  abbrev pub with_extensions : ℕ → ℕ → NodeInfo → Reply (Map (Map Value)) → Nodes → Call StoredNode
  with_extensions key node_type info (returned exts) w =
      if has_all info.required_extensions exts
      then add_written (make_node key node_type exts)
          (write_node_init ctx.badger ctx.db_context (some (make_node key node_type exts)) w.db) w
      else (w, failed missing_required)
  with_extensions key node_type info (failed e) w = (w, failed e)
  with_extensions key node_type info panicked w = (w, panicked)
  with_extensions key node_type info blocked w = (w, blocked)
  with_extensions key node_type info no_fuel w = (w, no_fuel)

  -- `NewNode` behind the search for a node of the same ID, which is not to be found.
  abbrev pub unless_found :
      ℕ → ℕ → NodeInfo → List (Option (ℕ × Map Value)) → Call StoredNode → Call StoredNode
  unless_found key node_type info exts (w, returned node) = (w, failed existing_node)
  unless_found key node_type info exts (w, failed e) =
      if is_not_found e
      then with_extensions key node_type info (extension_map exts []) w
      else (w, failed (lookup_failed e))
  unless_found key node_type info exts (w, panicked) = (w, panicked)
  unless_found key node_type info exts (w, blocked) = (w, blocked)
  unless_found key node_type info exts (w, no_fuel) = (w, no_fuel)

  abbrev pub id_of : ℕ → ℕ → NodeId
  id_of key node_type = ctx.db_context.key_id (ctx.node_fields key node_type)

  abbrev pub of_known_type :
      ℕ → ℕ → List (Option (ℕ × Map Value)) → Option NodeInfo → Nodes → Call StoredNode
  of_known_type key node_type exts none w = (w, failed unknown_node_type)
  of_known_type key node_type exts (some info) w =
      unless_found key node_type info exts (get_node (id_of key node_type) w)

  -- `NewNode` with a key.
  unfoldable pub new_node : ℕ → ℕ → List (Option (ℕ × Map Value)) → Nodes → Call StoredNode
  unfolding get_node extension_map has_all
  new_node key type_name exts w =
      of_known_type key (ctx.node_type_for type_name) exts
        (lookup (ctx.node_type_for type_name) ctx.node_types) w

-- The value of a field, of an extension that may be nil: that is a panic.
abbrev pub field_value : Option (Map Value) → ℕ → Option Value
field_value none index = none
field_value (some ext) index = lookup index ext

-- `ReadFields`, of which a panic is none. A value is none for the error of an unknown name.
unfoldable pub read_fields :
    Map NodeFieldInfo → Map (Map Value) → List ℕ → Map (Option Value) → Option (Map (Option Value))
read_fields fields exts [] values = some values
read_fields fields exts (name ∷ names) values = elim (lookup name fields) [
  | none ↦ read_fields fields exts names (insert name none values)
  | some f ↦ elim (field_value (lookup f.extension exts) f.index) [
    | none ↦ none
    | some v ↦ read_fields fields exts names (insert name (some v) values)
  ]
]
