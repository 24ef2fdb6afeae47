-- ===== src/Database/Loading.antt =====
-- db.go: LoadNode.
use graphvent.Prelude.{ℕ, false, List, [], ◌∷◌, Option, none, some}
use graphvent.Prelude.Maps.{Map, lookup, insert}
use graphvent.Signal.{NodeId}
use graphvent.Node.{no_timeout}
use graphvent.Registry.{ExtensionFieldInfo}
use graphvent.Serialize.{
  uint64, GoType, Value, Values, value, Fields, Outcome, ok, error, panic, out_of_fuel,
}
use graphvent.Serialize.Decode.{deserialize, deserialize_value}
use graphvent.Database.{
  node_not_found, key_not_found, unknown_extension, deserialize_failed, Result, done, panics,
  exhausted, ◌and_then◌, lift, found, Badger, DatabaseContext, StoredNode, id_key, sigqueue_key,
  ext_list_key, field_key,
}

-- The registered fields behind a *Node that is not nil.
abbrev pub node_fields : Value → Option Fields
node_fields (Value.pointer (Value.struct name fs)) = some fs
node_fields v = none

abbrev pub ext_types_of : Values → List ℕ
ext_types_of (value (Value.num kind n) vs) = n ∷ ext_types_of vs
ext_types_of vs = []

-- The ExtTypes of an []ExtType.
abbrev pub ext_types : Value → List ℕ
ext_types (Value.slice t vs) = ext_types_of vs
ext_types v = []

-- `ext_list` behind the call of `Value`, whose error is not looked at.
abbrev pub or_no_extensions : Outcome Value → Result (List ℕ)
or_no_extensions (ok v) = done (ext_types v)
or_no_extensions (error e) = done []
or_no_extensions panic = panics
or_no_extensions out_of_fuel = exhausted

module _ (badger : Badger) (ctx : DatabaseContext) where
  module _ (fuel : ℕ) (store : badger.Store) (id : NodeId) where
    -- The loop over the fields of an extension, which starts from its zero value.
    unfoldable pub load_fields : ℕ → Map ExtensionFieldInfo → Map Value → Result (Map Value)
    load_fields ext_type [] ext = done ext
    load_fields ext_type (f ∷ fs) ext =
        found key_not_found (badger.get store (field_key id ext_type (ctx.field_tag f.0)))
        and_then λ val.
            lift deserialize_failed (deserialize_value ctx.serial fuel f.1.type val) and_then λ r.
            load_fields ext_type fs (insert f.1.index r.0 ext)

    -- The loop over the extension list; the extensions are set one by one in those of the node.
    unfoldable pub load_extensions : List ℕ → Map (Map Value) → Result (Map (Map Value))
    unfolding load_fields
    load_extensions [] exts = done exts
    load_extensions (ext_type ∷ ext_list) exts =
        found unknown_extension (lookup ext_type ctx.extensions) and_then λ info.
        load_fields ext_type info.fields (ctx.zero_extension info.type) and_then λ ext.
        load_extensions ext_list (insert ext_type ext exts)

    -- The queue is assigned to the node, which is a panic if it is nil.
    abbrev pub with_signal_queue : Option Fields → Result Value → Result (Fields × Value)
    with_signal_queue none queue = queue and_then λ v. panics
    with_signal_queue (some fs) queue = queue and_then λ v. done (fs, v)

    -- A nil node has led to a panic when it comes to the end, so the last test for it is left out.
    unfoldable pub load_node : Result StoredNode
    unfolding load_extensions
    load_node = found node_not_found (badger.get store (id_key id)) and_then λ node_val.
        lift deserialize_failed
          (deserialize ctx.serial fuel (GoType.pointer (GoType.struct ctx.node_struct)) node_val)
        and_then λ node.
            found key_not_found (badger.get store (sigqueue_key id)) and_then λ queue_val.
            with_signal_queue (node_fields node)
              (lift deserialize_failed (deserialize ctx.serial fuel ctx.queue_type queue_val))
            and_then λ r.
                found key_not_found (badger.get store (ext_list_key id)) and_then λ list_val.
                or_no_extensions
                  (deserialize ctx.serial fuel (GoType.slice (GoType.num uint64)) list_val)
                and_then λ ext_list. load_extensions ext_list [] and_then λ exts. done (record {
                  id = ctx.key_id r.0;
                  fields = r.0;
                  write_signal_queue = false;
                  signal_queue = r.1;
                  timeout_chan = no_timeout;
                  extensions = exts;
                })
