-- ===== src/Database/Writing.antt =====
-- WriteNodeInit on nodes whose values are plain: the entries that it stores.
use graphvent.Prelude.{
  ℕ, ◌+◌, ◌≤◌, ◌≡◌, refl, sym, ap, ◌∙◌, true, List, [], ◌∷◌, ◌++◌, some, length, arith,
}
use graphvent.Prelude.Maps.{Map}
use graphvent.Signal.{NodeId}
use graphvent.Registry.{ExtensionFieldInfo}
use graphvent.Serialize.{Context, Value}
use graphvent.Serialize.Bytes.{overwrite, length-overwrite, le→leb}
use graphvent.Serialize.Encoding.{encode, IsPlain, IsPlainAt, ArePlain}
use graphvent.Serialize.Encoding.Writes.{behind}
use graphvent.Serialize.Encoding.Whole.{serialize_value-encode}
use graphvent.Database.{
  Result, done, ◌and_then◌, lift, found, or_panic, serialize_failed, unknown_extension, Pending,
  Badger, DatabaseContext, StoredNode, id_key, sigqueue_key, ext_list_key, ext_list,
  ext_type_values, elem, Tx, resolve, set_entry, write_entry, write_fields, write_extensions,
  node_value, write_node, BadgerDb, begin, committed, update, write_node_init,
}
use graphvent.Serialize.Reading.{if_true}
use graphvent.Database.Entries.{
  field_entries-one, ext_entries-one, field_entry, field_entries, ext_entries, node_entries,
  HasFields, HasExtensions, PlainField, IsStorable,
}
use graphvent.Database.Staging.{
  KeyBytes, total, total-append, stage, stage_all, stage_all-append, HasRoom, stage-HasRoom,
  stage_all-HasRoom, resolve-stage_all,
}

pub and_then_done :
    {A B : Type 0} {r : Result A} {a : A} (f : A → Result B) {s : Result B}
    → r ≡ done a
    → f a ≡ s
    → (r and_then f) ≡ s
and_then_done f e h = ap (λ r. r and_then f) e ∙ h

-- Badger takes every entry: none is empty or too large, and the transaction is not too big.
abbrev pub TakesAll : Badger → Type 0
TakesAll badger = (ps : List Pending) (key : List ℕ) (n : ℕ) → badger.accepts ps key n ≡ true

ext_type_values-ArePlain :
    {A : Type 0} (ctx : Context) (es : Map A) → ArePlain ctx true (ext_type_values es)
unfolding ArePlain IsPlainAt
ext_type_values-ArePlain ctx [] = tt
ext_type_values-ArePlain ctx (e ∷ es) = (tt, ext_type_values-ArePlain ctx es)

ext_list-IsPlain : {A : Type 0} (ctx : Context) (es : Map A) → IsPlain ctx (ext_list es)
unfolding IsPlainAt
ext_list-IsPlain ctx es = ext_type_values-ArePlain ctx es

pub resolve-begin :
    {badger : Badger} (db : BadgerDb badger) (es : List KeyBytes)
    → total es ≤ length db.buffer
    → resolve (stage_all (begin badger db) es).buffer (stage_all (begin badger db) es).pending ≡ es
unfolding resolve
resolve-begin {badger} db es room = resolve-stage_all (begin badger db) es (omega arith) tt

module _ (badger : Badger) (ctx : DatabaseContext) (takes : TakesAll badger) where
  set_entry_fits :
      (key : List ℕ) (tx : Tx) (buffer : List ℕ) (n : ℕ)
      → tx.cur + n ≤ length buffer
      → set_entry badger ctx key tx (buffer, n)
        ≡ done (record {
          buffer = buffer;
          cur = tx.cur + n;
          pending = tx.pending ++ (record { key = key; start = tx.cur; size = n }) ∷ [];
        })
  unfolding set_entry
  set_entry_fits key tx buffer n h =
      if_true _ _ _ (le→leb (tx.cur + n) (length buffer) h) ∙ if_true _ _ _ (takes tx.pending key n)

  pub write_entry-stage :
      (key : List ℕ) (v : Value) (tx : Tx)
      → IsPlain ctx.serial v
      → tx.cur + length (encode ctx.serial v) ≤ length tx.buffer
      → write_entry badger ctx key v tx ≡ done (stage tx (key, encode ctx.serial v))
  unfolding write_entry
  write_entry-stage key v tx plain room =
      and_then_done _
        (ap (lift serialize_failed) (
          behind ctx.serial true tx.cur v tx.buffer (serialize_value-encode ctx.serial v) plain
            room))
        (set_entry_fits key tx (overwrite tx.cur (encode ctx.serial v) tx.buffer)
          (length (encode ctx.serial v))
          (omega (arith, length-overwrite tx.cur (encode ctx.serial v) tx.buffer room)))

  write_fields-stage :
      (id : NodeId) (ext_type : ℕ) (ext : Map Value) (fs : Map ExtensionFieldInfo) (tx : Tx)
      → HasFields ctx (PlainField ctx) ext fs
      → HasRoom tx (field_entries ctx id ext_type ext fs)
      → write_fields badger ctx id ext_type (elem ext) fs tx
        ≡ done (stage_all tx (field_entries ctx id ext_type ext fs))
  unfolding write_fields field_entries
  write_fields-stage id ext_type ext [] tx h room = refl
  write_fields-stage id ext_type ext (f ∷ fs) tx h room =
      let one : KeyBytes = field_entry ctx id ext_type f.0 h.0.0 in
      let others : List KeyBytes = field_entries ctx id ext_type ext fs in
      let split : field_entries ctx id ext_type ext (f ∷ fs) ≡ one ∷ others =
        field_entries-one ctx id ext_type ext f fs h.0.0 h.0.1 in
      let room' : HasRoom tx (one ∷ others) = omega (arith, ap total split) in
      and_then_done _ (ap or_panic h.0.1) (
        and_then_done _ (write_entry-stage one.0 h.0.0 tx h.0.2 (omega arith)) (
          write_fields-stage id ext_type ext fs (stage tx one) h.1
            (stage-HasRoom tx one others room')))
      ∙ ap (λ es. done (stage_all tx es)) (sym split)

  write_extensions-stage :
      (id : NodeId) (exts : Map (Map Value)) (tx : Tx)
      → HasExtensions ctx (PlainField ctx) exts
      → HasRoom tx (ext_entries ctx id exts)
      → write_extensions badger ctx id exts tx ≡ done (stage_all tx (ext_entries ctx id exts))
  unfolding write_extensions ext_entries
  write_extensions-stage id [] tx h room = refl
  write_extensions-stage id (e ∷ es) tx h room =
      let one : List KeyBytes = field_entries ctx id e.0 e.1 h.0.0.fields in
      let others : List KeyBytes = ext_entries ctx id es in
      let split : ext_entries ctx id (e ∷ es) ≡ one ++ others =
        ext_entries-one ctx id e es h.0.0 h.0.1 in
      let room' : HasRoom tx (one ++ others) = omega (arith, ap total split) in
      and_then_done _ (ap (found unknown_extension) h.0.1) (
        and_then_done _
          (write_fields-stage id e.0 e.1 h.0.0.fields tx h.0.2
            (omega (arith, total-append one others)))
          (write_extensions-stage id es (stage_all tx one) h.1
            (stage_all-HasRoom tx one others room')))
      ∙ ap done (sym (stage_all-append tx one others))
      ∙ ap (λ es. done (stage_all tx es)) (sym split)

  pub write_node-stage :
      (node : StoredNode) (tx : Tx)
      → IsStorable ctx node
      → HasRoom tx (node_entries ctx node)
      → write_node badger ctx node tx ≡ done (stage_all tx (node_entries ctx node))
  unfolding write_node
  write_node-stage node tx h room =
      let e1 : KeyBytes = (id_key node.id, encode ctx.serial (node_value ctx node)) in
      let e2 : KeyBytes = (sigqueue_key node.id, encode ctx.serial node.signal_queue) in
      let e3 : KeyBytes = (ext_list_key node.id, encode ctx.serial (ext_list node.extensions)) in
      let others : List KeyBytes = ext_entries ctx node.id node.extensions in
      let tx1 : Tx = stage tx e1 in
      let tx2 : Tx = stage tx1 e2 in
      let room1 : HasRoom tx1 (e2 ∷ e3 ∷ others) = stage-HasRoom tx e1 (e2 ∷ e3 ∷ others) room in
      let room2 : HasRoom tx2 (e3 ∷ others) = stage-HasRoom tx1 e2 (e3 ∷ others) room1 in
      and_then_done _ (write_entry-stage e1.0 (node_value ctx node) tx h.value (omega arith)) (
        and_then_done _ (write_entry-stage e2.0 node.signal_queue tx1 h.queue (omega arith)) (
          and_then_done _
            (write_entry-stage e3.0 (ext_list node.extensions) tx2
              (ext_list-IsPlain ctx.serial node.extensions) (omega arith))
            (write_extensions-stage node.id node.extensions (stage tx2 e3) h.extensions
              (stage-HasRoom tx2 e3 others room2))))

  -- In a transaction that takes all entries, WriteNodeInit of a node whose values are plain and
  -- whose extensions are registered, with a buffer that has room for all of them, commits exactly
  -- the encodings of its value, its queue, its extension list and its extensions' registered fields,
  -- whatever the buffer held; it is done, or fails if the commit does.
  pub write_node_init-entries :
      (node : StoredNode) (db : BadgerDb badger)
      → IsStorable ctx node
      → total (node_entries ctx node) ≤ length db.buffer
      → write_node_init badger ctx (some node) db
        ≡ committed badger
            (stage_all (begin badger db) (node_entries ctx node))
            (badger.commit (node_entries ctx node) db.store)
  unfolding write_node_init update
  write_node_init-entries node db h room =
      let tx : Tx = begin badger db in
      let es : List KeyBytes = node_entries ctx node in
      and_then_done _ (write_node-stage node tx h (omega arith)) (
        ap (λ l. committed badger (stage_all tx es) (badger.commit l db.store))
          (resolve-begin db es room))
