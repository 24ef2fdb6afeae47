-- ===== src/Database.antt =====
-- db.go: nodes in a key-value store. The store, its transactions and their errors are badger's.
pub mod Changing
pub mod Loading
pub mod Staging
pub mod Entries
pub mod Writing
pub mod Keys
mod Changes
pub mod Samples
mod Tests
mod Defects
pub mod Commit
pub mod Reloading
use graphvent.Prelude.{
  ℕ, ◌+◌, Bool, true, false, List, [], ◌∷◌, ◌++◌, Option, none, some, length, take, drop, leb, ◌==◌,
  if◌then◌else◌,
}
use graphvent.Prelude.Maps.{Map, lookup, insert}
use graphvent.Signal.{NodeId}
use graphvent.Node.{Timeout, no_timeout}
use graphvent.Registry.{ExtensionFieldInfo, ExtensionInfo}
use graphvent.Serialize.{
  uint64, GoType, Value, Values, Fields, no_values, value, Error, Outcome, ok, error, panic,
  out_of_fuel, Context,
}
use graphvent.Serialize.Bytes.{big_endian, within}
use graphvent.Serialize.Encode.{serialize_value}
use graphvent.Serialize.Decode.{deserialize, deserialize_value}

-- The errors that the methods of the database return.
pub data Fault : Type 0 where
  nil_node node_not_found key_not_found set_failed commit_failed : Fault
  unknown_extension missing_extension missing_field : Fault
  serialize_failed deserialize_failed : Error → Fault

-- A method returns, fails, panics, or (in the model only) runs out of fuel for reading.
pub data Result (A : Type 0) : Type 0 where
  done : A → Result A
  fails : Fault → Result A
  panics : Result A
  exhausted : Result A

infixl 5 ◌and_then◌
abbrev pub ◌and_then◌ : {A B : Type 0} → Result A → (A → Result B) → Result B
done a and_then f = f a
fails e and_then f = fails e
panics and_then f = panics
exhausted and_then f = exhausted

-- A call of serialize.go, whose error is passed on.
abbrev pub lift : {A : Type 0} → (Error → Fault) → Outcome A → Result A
lift f (ok a) = done a
lift f (error e) = fails (f e)
lift f panic = panics
lift f out_of_fuel = exhausted

abbrev pub found : {A : Type 0} → Fault → Option A → Result A
found e none = fails e
found e (some a) = done a

abbrev pub or_panic : {A : Type 0} → Option A → Result A
or_panic none = panics
or_panic (some a) = done a

-- An entry that `tx.Set` has taken. Its value is not copied: the transaction keeps the slice of the
-- buffer until the commit.
pub record Pending : Type 0 where
  pub key : List ℕ
  pub start : ℕ
  pub size : ℕ

-- Badger: what a committed store holds, whether a transaction with these entries takes another, and
-- the commit of its entries, in order, or its error.
pub record Badger : Type 1 where
  pub Store : Type 0
  pub get : Store → List ℕ → Option (List ℕ)
  pub accepts : List Pending → List ℕ → ℕ → Bool
  pub commit : List (List ℕ × List ℕ) → Store → Option Store

-- What the methods take from a Context and from Go: SerializedType hashes of tags, the struct of
-- Node, the type of its SignalQueue, zero values of extensions, and KeyID of the Key among the
-- fields of a Node.
pub record DatabaseContext : Type 0 where
  pub serial : Context
  pub extensions : Map ExtensionInfo
  pub field_tag : ℕ → ℕ
  pub node_struct : ℕ
  pub queue_type : GoType
  pub zero_extension : ℕ → Map Value
  pub key_id : Fields → NodeId

-- A Node, as far as it is stored: the registered fields of its struct, its queue, and the fields of
-- each of its extensions by their index. The order of a map is that of a range over it.
pub record StoredNode : Type 0 where
  pub id : NodeId
  pub fields : Fields
  pub write_signal_queue : Bool
  pub signal_queue : Value
  pub timeout_chan : Timeout
  pub extensions : Map (Map Value)

-- `id.MarshalBinary()`, and the keys that append to it.
abbrev pub id_key : NodeId → List ℕ
id_key id = big_endian 16 id

-- " - SIGQUEUE" and " - EXTLIST"
abbrev pub sigqueue_key : NodeId → List ℕ
sigqueue_key id = id_key id ++ 32 ∷ 45 ∷ 32 ∷ 83 ∷ 73 ∷ 71 ∷ 81 ∷ 85 ∷ 69 ∷ 85 ∷ 69 ∷ []

abbrev pub ext_list_key : NodeId → List ℕ
ext_list_key id = id_key id ++ 32 ∷ 45 ∷ 32 ∷ 69 ∷ 88 ∷ 84 ∷ 76 ∷ 73 ∷ 83 ∷ 84 ∷ []

abbrev pub field_key : NodeId → ℕ → ℕ → List ℕ
field_key id ext_type tag = (id_key id ++ big_endian 8 ext_type) ++ big_endian 8 tag

abbrev pub ext_type_values : {A : Type 0} → Map A → Values
ext_type_values [] = no_values
ext_type_values (e ∷ es) = value (Value.num uint64 e.0) (ext_type_values es)

-- `[]ExtType` of the keys of the map.
abbrev pub ext_list : {A : Type 0} → Map A → Value
ext_list es = Value.slice (GoType.num uint64) (ext_type_values es)

-- `ext_value.FieldByIndex(index)`, of a struct or of a pointer to one, of which it panics.
pub data Reflected : Type 0 where
  elem : Map Value → Reflected
  pointer_to : Map Value → Reflected

abbrev pub field_by_index : Reflected → ℕ → Option Value
field_by_index (elem ext) index = lookup index ext
field_by_index (pointer_to ext) index = none

-- The transaction and the buffer within `db.Update`.
pub record Tx : Type 0 where
  pub buffer : List ℕ
  pub cur : ℕ
  pub pending : List Pending

-- What a slice of the buffer holds.
abbrev pub contents : List ℕ → Pending → List ℕ × List ℕ
contents buffer p = (p.key, take p.size (drop p.start buffer))

unfoldable pub resolve : List ℕ → List Pending → List (List ℕ × List ℕ)
resolve buffer [] = []
resolve buffer (p ∷ ps) = contents buffer p ∷ resolve buffer ps

module _ (badger : Badger) where
  -- A BadgerDB. What a call that fails leaves in the buffer is of no effect, and not followed: each
  -- transaction writes the buffer before it refers to it.
  pub record BadgerDb : Type 0 where
    pub store : badger.Store
    pub buffer : List ℕ

  abbrev pub begin : BadgerDb → Tx
  begin db = record { buffer = db.buffer; cur = 0; pending = [] }

  -- The commit of `db.Update`, which reads the slices of the buffer.
  abbrev pub committed : Tx → Option badger.Store → Result BadgerDb
  committed tx none = fails commit_failed
  committed tx (some store) = done (record { store = store; buffer = tx.buffer })

  -- `db.Update(f)`, of a function on the transaction.
  unfoldable pub update : (Tx → Result Tx) → BadgerDb → Result BadgerDb
  unfolding resolve
  update f db = f (begin db) and_then λ tx.
      committed tx (badger.commit (resolve tx.buffer tx.pending) db.store)

-- The value of a *Node.
abbrev pub node_value : DatabaseContext → StoredNode → Value
node_value ctx node = Value.pointer (Value.struct ctx.node_struct node.fields)

module _ (badger : Badger) (ctx : DatabaseContext) where
  -- `tx.Set(key, db.buffer[cur:cur+written])` and `cur += written`
  unfoldable pub set_entry : List ℕ → Tx → List ℕ × ℕ → Result Tx
  set_entry key tx r =
      if leb (tx.cur + r.1) (length r.0)
      then (if badger.accepts tx.pending key r.1
          then done (record {
            buffer = r.0;
            cur = tx.cur + r.1;
            pending = tx.pending ++ (record { key = key; start = tx.cur; size = r.1 }) ∷ [];
          })
          else fails set_failed)
      else panics

  -- A value that is serialized into `db.buffer[cur:]` and set.
  unfoldable pub write_entry : List ℕ → Value → Tx → Result Tx
  unfolding set_entry
  write_entry key v tx =
      lift serialize_failed (within tx.cur (serialize_value ctx.serial v) tx.buffer) and_then λ r.
      set_entry key tx r

  -- The loop over the fields of an extension.
  unfoldable pub write_fields : NodeId → ℕ → Reflected → Map ExtensionFieldInfo → Tx → Result Tx
  unfolding write_entry
  write_fields id ext_type ext [] tx = done tx
  write_fields id ext_type ext (f ∷ fs) tx = or_panic (field_by_index ext f.1.index) and_then λ v.
      write_entry (field_key id ext_type (ctx.field_tag f.0)) v tx and_then λ tx'.
      write_fields id ext_type ext fs tx'

  -- The loop over the extensions of a node.
  unfoldable pub write_extensions : NodeId → Map (Map Value) → Tx → Result Tx
  unfolding write_fields
  write_extensions id [] tx = done tx
  write_extensions id (e ∷ es) tx =
      found unknown_extension (lookup e.0 ctx.extensions) and_then λ info.
      write_fields id e.0 (elem e.1) info.fields tx and_then λ tx'. write_extensions id es tx'

  -- The function that `WriteNodeInit` runs in the transaction.
  unfoldable pub write_node : StoredNode → Tx → Result Tx
  unfolding write_entry write_extensions
  write_node node tx = write_entry (id_key node.id) (node_value ctx node) tx and_then λ tx1.
      write_entry (sigqueue_key node.id) node.signal_queue tx1 and_then λ tx2.
      write_entry (ext_list_key node.id) (ext_list node.extensions) tx2 and_then λ tx3.
      write_extensions node.id node.extensions tx3

  unfoldable pub write_node_init : Option StoredNode → BadgerDb badger → Result (BadgerDb badger)
  unfolding update write_node
  write_node_init none db = fails nil_node
  write_node_init (some node) db = update badger (write_node node) db
