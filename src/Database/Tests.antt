-- ===== src/Database/Tests.antt =====
-- The theorems on the database applied to a store in a list.
use graphvent.Prelude.{◌≤◌, ◌≡◌, refl, true, [], ◌∷◌, some, All, get_elem?, arith}
use graphvent.Node.{no_timeout}
use graphvent.Serialize.Bytes.{big_endian}
use graphvent.Serialize.Encoding.{encode, stack}
use graphvent.Serialize.Samples.{test_context, test_context-IsRegistry, some_fields, some_value}
use graphvent.Prelude.Maps.{lookup}
use graphvent.Database.{
  StoredNode, BadgerDb, done, resolve, update, begin, committed, id_key, sigqueue_key, node_value,
  write_node, write_node_init, ◌and_then◌,
}
use graphvent.Database.Changing.{write_node_changes, change_extensions, change_fields}
use graphvent.Database.Loading.{load_node}
use graphvent.Database.Staging.{KeyBytes, total, stage_all}
use graphvent.Database.Entries.{ext_entries, node_entries, IsStorable}
use graphvent.Database.Writing.{write_node_init-entries}
use graphvent.Database.Reloading.{asleep}
use graphvent.Database.Changes.{NoTags, write_node_changes-NoTags}
use graphvent.Database.Defects.{write_node-late_commit}
use graphvent.Database.Commit.{load_node-write_node_init}
use graphvent.Database.Samples.{
  memory, some_node, some_db, db_context, memory-IsLawful, some_node-IsStorable, some_node-total,
  db_context-IsHashed, some_node-IsLoadable,
}

write_node_init-entries_example :
    write_node_init memory db_context (some some_node) some_db
    ≡ committed memory
        (stage_all (begin memory some_db) (node_entries db_context some_node))
        (memory.commit (node_entries db_context some_node) some_db.store)
write_node_init-entries_example =
    write_node_init-entries memory db_context (λ ps key n. refl) some_node some_db
      some_node-IsStorable some_node-total

abbrev written_db : BadgerDb memory
written_db = record {
  store = node_entries db_context some_node;
  buffer = (stage_all (begin memory some_db) (node_entries db_context some_node)).buffer;
}

load_node-write_node_init_example :
    load_node memory db_context 20 written_db.store 5 ≡ done (asleep db_context 20 some_node)
load_node-write_node_init_example =
    load_node-write_node_init memory db_context memory-IsLawful (λ ps key n. refl)
      test_context-IsRegistry db_context-IsHashed some_node 20 some_db written_db
      some_node-IsStorable some_node-IsLoadable some_node-total write_node_init-entries_example

write_node_changes_done :
    (write_node_changes memory db_context (asleep db_context 20 some_node) ((7, []) ∷ []) some_db).1
    ≡ done some_db
unfolding write_node_changes update change_extensions change_fields lookup resolve
write_node_changes_done = refl

write_node_changes-NoTags_example : All (NoTags memory db_context) ((7, []) ∷ [])
write_node_changes-NoTags_example =
    write_node_changes-NoTags memory db_context (asleep db_context 20 some_node) ((7, []) ∷ [])
      some_db some_db write_node_changes_done

abbrev queue_entry : KeyBytes
queue_entry = (sigqueue_key 5, encode test_context some_value)

-- The same node under another ID.
abbrev other_node : StoredNode
other_node = record {
  id = 6;
  fields = some_fields;
  write_signal_queue = true;
  signal_queue = some_value;
  timeout_chan = no_timeout;
  extensions = [];
}

other_node-IsStorable : IsStorable db_context other_node
other_node-IsStorable = record {
  value = some_node-IsStorable.value;
  queue = some_node-IsStorable.queue;
  extensions = tt;
}

other_node-total : total (node_entries db_context other_node) ≤ 300
unfolding encode stack big_endian ext_entries
other_node-total = omega arith

write_node-late_commit_example :
    (write_node memory db_context some_node (begin memory some_db) and_then λ tx1.
    write_node memory db_context other_node
      (begin memory (record { store = some_db.store; buffer = tx1.buffer }))
    and_then λ tx2. done (get_elem? (resolve tx2.buffer tx1.pending) 0))
    ≡ done (some (id_key 5, encode test_context (node_value db_context other_node)))
write_node-late_commit_example =
    write_node-late_commit memory db_context (λ ps key n. refl) some_node other_node some_db
      some_node-IsStorable other_node-IsStorable some_node-total other_node-total refl
