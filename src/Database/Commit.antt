-- ===== src/Database/Commit.antt =====
-- The commit of a node's entries, and LoadNode behind it.
use graphvent.Prelude.{
  ℕ, ◌≤◌, ◌<◌, ◌≡◌, refl, sym, ap, ◌∙◌, true, false, List, [], ◌∷◌, Option, none, some, length, All,
  All-mono, if◌then◌else◌, length-append, arith,
}
use graphvent.Prelude.Maps.{has, IsUnique}
use graphvent.Registry.{ExtensionFieldInfo}
use graphvent.Serialize.{Value}
use graphvent.Serialize.Reading.{IsRegistry, if_true}
use graphvent.Database.{
  Badger, DatabaseContext, StoredNode, Result, done, id_key, sigqueue_key, ext_list_key, BadgerDb,
  Tx, begin, committed, write_node_init,
}
use graphvent.Database.Loading.{load_node}
use graphvent.Database.Staging.{KeyBytes, total, stage_all}
use graphvent.Database.Entries.{ext_entries, node_entries, HasExtensions, IsStorable}
use graphvent.Database.Writing.{TakesAll, write_node_init-entries}
use graphvent.Database.Reloading.{ReadableField, IsLoadable, asleep, load_node-Holds}
use graphvent.Database.Keys.{
  bytes_eq, bytes_eq_refl, bytes_ne, Lacks, HasDistinctKeys, ext_of, length-id_key, IsHashed,
}
use graphvent.Database.Keys.Extensions.{exts_of, exts-HasDistinctKeys}

-- The value of the last entry with the key, or the one from before.
abbrev pub newest : List ℕ → List KeyBytes → Option (List ℕ) → Option (List ℕ)
newest k [] old = old
newest k (e ∷ es) old = newest k es (if bytes_eq k e.0 then some e.1 else old)

-- A commit that succeeds stores its entries, and changes no other key.
pub record IsLawful (badger : Badger) : Type 0 where
  pub get-commit :
      (es : List KeyBytes) (s s' : badger.Store) (k : List ℕ)
      → badger.commit es s ≡ some s'
      → badger.get s' k ≡ newest k es (badger.get s k)

newest_other :
    (k : List ℕ) (es : List KeyBytes) (old : Option (List ℕ)) → Lacks k es → newest k es old ≡ old
newest_other k [] old h = refl
newest_other k (e ∷ es) old h =
    ap (λ b. newest k es (if b then some e.1 else old)) h.0 ∙ newest_other k es old h.1

newest-HasDistinctKeys :
    (es : List KeyBytes)
    → HasDistinctKeys es
    → All (λ e. (old : Option (List ℕ)) → newest e.0 es old ≡ some e.1) es
newest-HasDistinctKeys [] d = tt
newest-HasDistinctKeys (e ∷ es) d = (
  λ old. newest_other e.0 es _ d.0 ∙ if_true _ _ _ (bytes_eq_refl e.0),
  All-mono (λ e'. (old : Option (List ℕ)) → newest e'.0 es old ≡ some e'.1)
      (λ e'. (old : Option (List ℕ)) → newest e'.0 (e ∷ es) old ≡ some e'.1) es
      (λ e' h old. h (if bytes_eq e'.0 e.0 then some e.1 else old)) (newest-HasDistinctKeys es d.1),
)

module _ (ctx : DatabaseContext) (hashed : IsHashed ctx)
    (P : ExtensionFieldInfo → Value → Type 0) where
  node-HasDistinctKeys :
      (node : StoredNode)
      → HasExtensions ctx P node.extensions
      → IsUnique node.extensions
      → HasDistinctKeys (node_entries ctx node)
  node-HasDistinctKeys node h u =
      let sixteen : length (id_key node.id) ≡ 16 = length-id_key node.id in
      let queue : length (sigqueue_key node.id) ≡ 27 = omega (
        arith,
        sixteen,
        length-append (id_key node.id) (32 ∷ 45 ∷ 32 ∷ 83 ∷ 73 ∷ 71 ∷ 81 ∷ 85 ∷ 69 ∷ 85 ∷ 69 ∷ []),
      ) in
      let list : length (ext_list_key node.id) ≡ 26 = omega (
        arith,
        sixteen,
        length-append (id_key node.id) (32 ∷ 45 ∷ 32 ∷ 69 ∷ 88 ∷ 84 ∷ 76 ∷ 73 ∷ 83 ∷ 84 ∷ []),
      ) in
      let ids : Lacks (id_key node.id) (ext_entries ctx node.id node.extensions) =
        shorter (id_key node.id) (omega arith) in
      let queues : Lacks (sigqueue_key node.id) (ext_entries ctx node.id node.extensions) =
        shorter (sigqueue_key node.id) (omega arith) in
      let lists : Lacks (ext_list_key node.id) (ext_entries ctx node.id node.extensions) =
        shorter (ext_list_key node.id) (omega arith) in
      (
        (
          bytes_ne length (id_key node.id) (sigqueue_key node.id) (λ e. omega arith),
          (bytes_ne length (id_key node.id) (ext_list_key node.id) (λ e. omega arith), ids),
        ),
        (
          (
            bytes_ne length (sigqueue_key node.id) (ext_list_key node.id) (λ e. omega arith),
            queues,
          ),
          (lists, exts-HasDistinctKeys ctx hashed P node.id node.extensions h u),
        ),
      )
    where
      shorter : (k : List ℕ) → length k < 32 → Lacks k (ext_entries ctx node.id node.extensions)
      shorter k l =
          All-mono (λ e. (length e.0 ≡ 32) × (has (ext_of e.0) node.extensions ≡ true))
            (λ e. bytes_eq k e.0 ≡ false) (ext_entries ctx node.id node.extensions)
            (λ e b. bytes_ne length k e.0 (λ s. omega (arith, b.0)))
            (exts_of ctx hashed P node.id node.extensions h)

module _ {badger : Badger} where
  abbrev store_of : Result (BadgerDb badger) → Option badger.Store
  store_of (done db) = some db.store
  store_of r = none

  commit_done :
      (tx : Tx) (o : Option badger.Store) (db' : BadgerDb badger)
      → committed badger tx o ≡ done db'
      → o ≡ some db'.store
  commit_done tx none db' e = ap store_of e
  commit_done tx (some s) db' e = ap store_of e

module _ (badger : Badger) (ctx : DatabaseContext) where
  -- Let the store be lawful and its transactions take every entry, the registry be sound and the hashes
  -- apart; let the value, queue and registered extension fields of a node be plain and readable, with
  -- no id by value in an interface and with fuel for their sizes, and let every extension be registered
  -- and have its zero value in all other fields. If WriteNodeInit is done, in a buffer with room for the
  -- node, LoadNode of the node's ID gives the same node back, with the same queue and extensions. Its
  -- timeout is unset, whatever the queue holds.
  pub load_node-write_node_init :
      IsLawful badger
      → TakesAll badger
      → IsRegistry ctx.serial
      → IsHashed ctx
      → (node : StoredNode) (fuel : ℕ) (db db' : BadgerDb badger) → IsStorable ctx node
      → IsLoadable ctx fuel node
      → total (node_entries ctx node) ≤ length db.buffer
      → write_node_init badger ctx (some node) db ≡ done db'
      → load_node badger ctx fuel db'.store node.id ≡ done (asleep ctx fuel node)
  load_node-write_node_init lawful takes registry hashed node fuel db db' storable loadable room
        returned =
      let es : List KeyBytes = node_entries ctx node in
      let stored : badger.commit es db.store ≡ some db'.store =
        commit_done (stage_all (begin badger db) es) (badger.commit es db.store) db'
          (sym (write_node_init-entries badger ctx takes node db storable room) ∙ returned) in
      load_node-Holds ctx fuel registry badger db'.store node loadable (
        All-mono (λ e. (old : Option (List ℕ)) → newest e.0 es old ≡ some e.1)
          (λ e. badger.get db'.store e.0 ≡ some e.1) es
          (λ e h. lawful.get-commit es db.store db'.store e.0 stored ∙ h (badger.get db.store e.0))
          (newest-HasDistinctKeys es (
            node-HasDistinctKeys ctx hashed (ReadableField ctx fuel) node loadable.extensions
              loadable.unique)))
