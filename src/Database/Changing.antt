-- ===== src/Database/Changing.antt =====
-- db.go: WriteNodeChanges.
use graphvent.Prelude.{ℕ, false, List, [], ◌∷◌, if◌then◌else◌}
use graphvent.Prelude.Maps.{Map, lookup}
use graphvent.Signal.{NodeId}
use graphvent.Registry.{ExtensionFieldInfo}
use graphvent.Serialize.{Value}
use graphvent.Database.{
  unknown_extension, missing_extension, missing_field, Result, done, ◌and_then◌, found, or_panic,
  Badger, DatabaseContext, StoredNode, sigqueue_key, field_key, Reflected, pointer_to,
  field_by_index, Tx, write_entry, BadgerDb, update,
}

module _ (badger : Badger) (ctx : DatabaseContext) where
  -- The loop over the changed tags of an extension.
  unfoldable pub change_fields :
      NodeId → ℕ → Reflected → Map ExtensionFieldInfo → List ℕ → Tx → Result Tx
  unfolding write_entry
  change_fields id ext_type ext fields [] tx = done tx
  change_fields id ext_type ext fields (tag ∷ tags) tx =
      found missing_field (lookup tag fields) and_then λ info.
      or_panic (field_by_index ext info.index) and_then λ v.
      write_entry badger ctx (field_key id ext_type (ctx.field_tag tag)) v tx and_then λ tx'.
      change_fields id ext_type ext fields tags tx'

  -- The loop over the changed extensions; the value of one is the pointer to its struct.
  unfoldable pub change_extensions : NodeId → Map (Map Value) → List (ℕ × List ℕ) → Tx → Result Tx
  unfolding change_fields
  change_extensions id exts [] tx = done tx
  change_extensions id exts (change ∷ changes) tx =
      found unknown_extension (lookup change.0 ctx.extensions) and_then λ info.
      found missing_extension (lookup change.0 exts) and_then λ ext.
      change_fields id change.0 (pointer_to ext) info.fields change.1 tx and_then λ tx'.
      change_extensions id exts changes tx'

  abbrev pub write_queue : StoredNode → Tx → Result Tx
  write_queue node tx =
      if node.write_signal_queue
      then write_entry badger ctx (sigqueue_key node.id) node.signal_queue tx
      else done tx

  -- `node.writeSignalQueue = false`, if it was set.
  abbrev pub clear_queue_flag : StoredNode → StoredNode
  clear_queue_flag node = record {
    id = node.id;
    fields = node.fields;
    write_signal_queue = false;
    signal_queue = node.signal_queue;
    timeout_chan = node.timeout_chan;
    extensions = node.extensions;
  }

  -- The node as the call leaves it, and how the call ends.
  unfoldable pub write_node_changes :
      StoredNode → List (ℕ × List ℕ) → BadgerDb badger → StoredNode × Result (BadgerDb badger)
  unfolding update change_extensions
  write_node_changes node changes db = (
    clear_queue_flag node,
    update badger
        (λ tx.
          write_queue node tx and_then λ tx'. change_extensions node.id node.extensions changes tx')
        db,
  )
