-- ===== src/Nodes/Blocking.antt =====
-- NewNode of a node whose extension does not load.
use graphvent.Prelude.{ℕ, ◌≡◌, ap, ◌∙◌, true, false, List, [], Option, none, some}
use graphvent.Prelude.Maps.{Map, lookup}
use graphvent.Signal.{NodeId}
use graphvent.Registry.{NodeInfo}
use graphvent.Serialize.{Value}
use graphvent.Serialize.Reading.{if_true}
use graphvent.Database.{
  Fault, Result, done, fails, found, ◌and_then◌, node_not_found, StoredNode, BadgerDb, id_key,
  write_node_init,
}
use graphvent.Database.Loading.{load_node}
use graphvent.Nodes.{
  returned, failed, blocked, database, NodeContext, Nodes, start_node, start_statuses, run,
  add_node, add_loaded, get_node, running_or_loaded, has_all, extension_map, make_node, add_written,
  with_extensions, unless_found, of_known_type, new_node,
}

and_then_fails :
    {A B : Type 0} {r : Result A} {e : Fault} (f : A → Result B)
    → r ≡ fails e
    → (r and_then f) ≡ fails e
and_then_fails f h = ap (λ r. r and_then f) h

module _ (ctx : NodeContext) where
  not_loaded :
      (id : NodeId) (w : Nodes ctx)
      → ctx.badger.get w.db.store (id_key id) ≡ none
      → load_node ctx.badger ctx.db_context ctx.fuel w.db.store id ≡ fails node_not_found
  unfolding load_node
  not_loaded id w missing = and_then_fails _ (ap (found node_not_found) missing)

  not_stored :
      (id : NodeId) (w : Nodes ctx)
      → lookup id w.nodes ≡ none
      → ctx.badger.get w.db.store (id_key id) ≡ none
      → get_node ctx id w ≡ (w, failed (database node_not_found))
  unfolding get_node
  not_stored id w absent missing =
      ap (λ o. running_or_loaded ctx id o w) absent
      ∙ ap (λ r. add_loaded ctx id r w) (not_loaded id w missing)

  -- When Load of an extension fails, NewNode of a new node, which is otherwise as it should be and
  -- which the database takes, never returns: it has stored the node, which does not run, and waits
  -- for a status that is not sent.
  pub new_node-blocks :
      (key type_name : ℕ) (exts : List (Option (ℕ × Map Value))) (info : NodeInfo)
      (made : Map (Map Value)) (w : Nodes ctx) (db : BadgerDb ctx.badger)
      → let node : StoredNode = make_node ctx key (ctx.node_type_for type_name) made in
        lookup (ctx.node_type_for type_name) ctx.node_types ≡ some info
        → lookup node.id w.nodes ≡ none
        → ctx.badger.get w.db.store (id_key node.id) ≡ none
        → extension_map ctx exts [] ≡ returned made
        → has_all ctx info.required_extensions made ≡ true
        → write_node_init ctx.badger ctx.db_context (some node) w.db ≡ done db
        → start_node ctx made ≡ false
        → new_node ctx key type_name exts w ≡ (record { nodes = w.nodes; db = db }, blocked)
  unfolding new_node add_node
  new_node-blocks key type_name exts info made w db known absent missing listed required written
        fails_to_load =
      let node_type : ℕ = ctx.node_type_for type_name in
      let node : StoredNode = make_node ctx key node_type made in
      ap (λ o. of_known_type ctx key node_type exts o w) known
      ∙ ap (unless_found ctx key node_type info exts) (not_stored node.id w absent missing)
      ∙ ap (λ r. with_extensions ctx key node_type info r w) listed
      ∙ if_true _ _ _ required
      ∙ ap (λ r. add_written ctx node r w) written
      ∙ ap (λ b. run ctx node.id node (start_statuses ctx b) (record { nodes = w.nodes; db = db }))
          fails_to_load
