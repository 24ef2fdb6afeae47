-- ===== src/Database/Defects.antt =====
-- What the lock of the database does not guard, and an error that LoadNode does not look at.
use graphvent.Prelude.{
  ℕ, ◌≤◌, ◌≡◌, refl, sym, ap, ◌∙◌, List, [], ◌∷◌, ◌++◌, Option, none, some, length, take, get_elem?,
  arith,
}
use graphvent.Serialize.{uint64, GoType, Error, error}
use graphvent.Serialize.Bytes.{length-overwrite}
use graphvent.Serialize.Decode.{deserialize}
use graphvent.Serialize.Encoding.{encode}
use graphvent.Serialize.Reading.{IsRegistry}
use graphvent.Database.{
  done, ◌and_then◌, Badger, DatabaseContext, StoredNode, Pending, contents, resolve, id_key,
  sigqueue_key, ext_list_key, node_value, Tx, BadgerDb, begin, write_node,
}
use graphvent.Database.Loading.{or_no_extensions, load_extensions, load_node}
use graphvent.Database.Staging.{KeyBytes, total, stage, stage_all, HasRoom}
use graphvent.Database.Entries.{node_entries, later_entries, IsStorable}
use graphvent.Database.Writing.{TakesAll, and_then_done, write_node-stage, resolve-begin}
use graphvent.Database.Reloading.{HasReadableHead, loaded_with, load_node-parts}

first_pending :
    (tx : Tx) (p : Pending) (ps : List Pending) (es : List KeyBytes)
    → tx.pending ≡ p ∷ ps
    → get_elem? (stage_all tx es).pending 0 ≡ some p
first_pending tx p ps [] e = ap (λ l. get_elem? l 0) e
first_pending tx p ps (x ∷ es) e =
    first_pending (stage tx x) p
      (ps ++ (record { key = x.0; start = tx.cur; size = length x.1 }) ∷ []) es
      (ap (λ l. l ++ (record { key = x.0; start = tx.cur; size = length x.1 }) ∷ []) e)

first_resolved :
    (buffer : List ℕ) (ps : List Pending) (p : Pending)
    → get_elem? ps 0 ≡ some p
    → get_elem? (resolve buffer ps) 0 ≡ some (contents buffer p)
unfolding resolve
first_resolved buffer [] p e = cc
first_resolved buffer (q ∷ ps) p e = ground arith

length-stage_all :
    (tx : Tx) (es : List KeyBytes)
    → HasRoom tx es
    → length (stage_all tx es).buffer ≡ length tx.buffer
length-stage_all tx [] h = refl
length-stage_all tx (e ∷ es) h =
    let same : length (stage tx e).buffer ≡ length tx.buffer =
      length-overwrite tx.cur e.1 tx.buffer (omega arith) in
    length-stage_all (stage tx e) es (omega arith) ∙ same

-- The buffer holds at its start what was written first.
start_of :
    {badger : Badger} (db : BadgerDb badger) (e : KeyBytes) (es : List KeyBytes)
    → total (e ∷ es) ≤ length db.buffer
    → take (length e.1) (stage_all (begin badger db) (e ∷ es)).buffer ≡ e.1
start_of {badger} db e es room =
    let tx : Tx = stage_all (begin badger db) (e ∷ es) in
    let p : Pending = record { key = e.0; start = 0; size = length e.1 } in
    let first : get_elem? (resolve tx.buffer tx.pending) 0 ≡ some (contents tx.buffer p) =
      first_resolved tx.buffer tx.pending p
        (first_pending (stage (begin badger db) e) p [] es refl) in
    let same : get_elem? (resolve tx.buffer tx.pending) 0 ≡ some e =
      ap (λ l. get_elem? l 0) (resolve-begin db (e ∷ es) room) in
    ap (value_or e.1) (sym first ∙ same)
  where
    value_or : List ℕ → Option KeyBytes → List ℕ
    value_or d none = d
    value_or d (some e) = e.1

module _ (badger : Badger) (ctx : DatabaseContext) where
  -- The lock of the database is given up before the commit. When, in between, another WriteNodeInit
  -- has written the buffer, of a node whose value is as long, the first entry that the first call
  -- commits holds the other node's value, under its own node's key.
  pub write_node-late_commit :
      TakesAll badger
      → (node1 node2 : StoredNode) (db : BadgerDb badger) → IsStorable ctx node1
      → IsStorable ctx node2
      → total (node_entries ctx node1) ≤ length db.buffer
      → total (node_entries ctx node2) ≤ length db.buffer
      → length (encode ctx.serial (node_value ctx node1))
        ≡ length (encode ctx.serial (node_value ctx node2))
      → (write_node badger ctx node1 (begin badger db) and_then λ tx1.
          write_node badger ctx node2
            (begin badger (record { store = db.store; buffer = tx1.buffer }))
          and_then λ tx2. done (get_elem? (resolve tx2.buffer tx1.pending) 0))
        ≡ done (some (id_key node1.id, encode ctx.serial (node_value ctx node2)))
  write_node-late_commit takes node1 node2 db h1 h2 room1 room2 long =
      let es1 : List KeyBytes = node_entries ctx node1 in
      let es2 : List KeyBytes = node_entries ctx node2 in
      let v1 : List ℕ = encode ctx.serial (node_value ctx node1) in
      let tx1 : Tx = stage_all (begin badger db) es1 in
      let db2 : BadgerDb badger = record { store = db.store; buffer = tx1.buffer } in
      let tx2 : Tx = stage_all (begin badger db2) es2 in
      let room : total es2 ≤ length tx1.buffer =
        omega (arith, length-stage_all (begin badger db) es1 (omega arith)) in
      let p : Pending = record { key = id_key node1.id; start = 0; size = length v1 } in
      and_then_done _ (write_node-stage badger ctx takes node1 (begin badger db) h1 (omega arith)) (
        and_then_done _
          (write_node-stage badger ctx takes node2 (begin badger db2) h2 (omega arith))
          (ap done (
            first_resolved tx2.buffer tx1.pending p (
              first_pending (stage (begin badger db) (id_key node1.id, v1)) p []
                (later_entries ctx node1) refl)
            ∙ ap (λ n. some (id_key node1.id, take n tx2.buffer)) long
            ∙ ap (λ bs. some (id_key node1.id, bs))
                (start_of db2 (id_key node2.id, encode ctx.serial (node_value ctx node2))
                  (later_entries ctx node2) room))))

  -- LoadNode does not look at the error of the extension list: with a list that Deserialize fails on,
  -- a node whose value and queue can be read is loaded without its extensions, and without an error.
  pub load_node-bad_list :
      IsRegistry ctx.serial
      → (node : StoredNode) (fuel : ℕ) (store : badger.Store) (bytes : List ℕ) (e : Error)
      → HasReadableHead ctx fuel node
      → badger.get store (id_key node.id) ≡ some (encode ctx.serial (node_value ctx node))
      → badger.get store (sigqueue_key node.id) ≡ some (encode ctx.serial node.signal_queue)
      → badger.get store (ext_list_key node.id) ≡ some bytes
      → deserialize ctx.serial fuel (GoType.slice (GoType.num uint64)) bytes ≡ error e
      → load_node badger ctx fuel store node.id ≡ done (loaded_with ctx fuel node [])
  unfolding load_extensions
  load_node-bad_list registry node fuel store bytes e h value queue list bad =
      load_node-parts ctx fuel registry badger store node bytes [] [] h value queue list
        (ap or_no_extensions bad) refl
