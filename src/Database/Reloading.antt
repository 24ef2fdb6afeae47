-- ===== src/Database/Reloading.antt =====
-- LoadNode from a store that holds the entries of a node.
use mathlib.Core.Path.{subst}
use graphvent.Prelude.{
  ℕ, ◌≤◌, ◌≡◌, refl, sym, ap, ap₂, ◌∙◌, false, ◌||◌, List, [], ◌∷◌, ◌++◌, none, some, All,
  append_assoc, append-nil, arith, ==_iff,
}
use graphvent.Prelude.Maps.{Map, lookup, insert, has, IsUnique, keys}
use graphvent.Signal.{NodeId}
use graphvent.Node.{no_timeout}
use graphvent.Registry.{ExtensionFieldInfo, ExtensionInfo}
use graphvent.Serialize.{uint64, GoType, Value, type_of, ok}
use graphvent.Serialize.Decode.{deserialize, deserialize_value}
use graphvent.Serialize.Encoding.{encode}
use graphvent.Serialize.Reading.{IsRegistry, IsReadable, size}
use graphvent.Serialize.Reading.RoundTrip.{deserialize_value-encode}
use graphvent.Serialize.Contract.{deserialize-encode}
use graphvent.Database.{
  done, lift, found, node_not_found, key_not_found, unknown_extension, deserialize_failed, Badger,
  DatabaseContext, StoredNode, id_key, sigqueue_key, ext_list_key, ext_list, node_value,
}
use graphvent.Database.Loading.{
  ext_types, or_no_extensions, load_fields, load_extensions, with_signal_queue, load_node,
}
use graphvent.Database.Staging.{KeyBytes}
use graphvent.Database.Entries.{
  field_entries-one, ext_entries-one, field_entry, field_entries, ext_entries, node_entries,
  HasFields, HasExtensions,
}
use graphvent.Database.Writing.{and_then_done}

pub insert-append :
    {V : Type 0} (k : ℕ) (v : V) (m : Map V) → has k m ≡ false → insert k v m ≡ m ++ (k, v) ∷ []
unfolding has insert
insert-append k v [] h = refl
insert-append k v ((j, w) ∷ m) h = ground (arith, insert-append k v m)

has-append : {V : Type 0} (k : ℕ) (m n : Map V) → has k (m ++ n) ≡ has k m || has k n
unfolding has
has-append k [] n = refl
has-append k ((j, w) ∷ m) n = ground (arith, has-append k m n)

unique_middle : {V : Type 0} (e : ℕ × V) (m n : Map V) → IsUnique (m ++ e ∷ n) → has e.0 m ≡ false
unfolding has
unique_middle e [] n u = refl
unique_middle e ((j, w) ∷ m) n u =
    ground (arith, unique_middle e m n u.1, has-append j m (e ∷ n), ==_iff e.0 j, u.0)

ext_types-list : {A : Type 0} (es : Map A) → ext_types (ext_list es) ≡ keys es
ext_types-list [] = refl
ext_types-list (e ∷ es) = ap (◌∷◌ e.0) (ext_types-list es)

pub All-left {ℓ κ} : {A : Type ℓ} (P : A → Type κ) (xs ys : List A) → All P (xs ++ ys) → All P xs
All-left P [] ys h = tt
All-left P (x ∷ xs) ys h = (h.0, All-left P xs ys h.1)

pub All-right {ℓ κ} : {A : Type ℓ} (P : A → Type κ) (xs ys : List A) → All P (xs ++ ys) → All P ys
All-right P [] ys h = h
All-right P (x ∷ xs) ys h = All-right P xs ys h.1

module _ (ctx : DatabaseContext) (fuel : ℕ) where
  -- A value of the field's type that can be read.
  abbrev pub ReadableField : ExtensionFieldInfo → Value → Type 0
  ReadableField info v = (type_of v ≡ info.type) × IsReadable ctx.serial v × (size v ≤ fuel)

  -- An extension's fields, set one by one in another.
  unfoldable pub set_fields : Map ExtensionFieldInfo → Map Value → Map Value → Map Value
  set_fields [] ext acc = acc
  set_fields (f ∷ fs) ext acc = elim (lookup f.1.index ext) [
    | none ↦ set_fields fs ext acc
    | some v ↦ set_fields fs ext (insert f.1.index v acc)
  ]

  -- The fields that are not registered have their zero values.
  abbrev pub ArePersistent : Map (Map Value) → Type 0
  ArePersistent exts =
      All
        (λ e.
          (info : ExtensionInfo)
          → lookup e.0 ctx.extensions ≡ some info
          → set_fields info.fields e.1 (ctx.zero_extension info.type) ≡ e.1)
        exts

  -- Its value and its queue can be read back.
  pub record HasReadableHead (node : StoredNode) : Type 0 where
    pub id : ctx.key_id node.fields ≡ node.id
    pub value : IsReadable ctx.serial (node_value ctx node)
    pub value_size : size (node_value ctx node) ≤ fuel
    pub queue : IsReadable ctx.serial node.signal_queue
    pub queue_type : type_of node.signal_queue ≡ ctx.queue_type
    pub queue_size : size node.signal_queue ≤ fuel

  -- So can its extensions, which are registered.
  pub record IsLoadable (node : StoredNode) : Type 0 where
    pub head : HasReadableHead node
    pub list : IsReadable ctx.serial (ext_list node.extensions)
    pub list_size : size (ext_list node.extensions) ≤ fuel
    pub extensions : HasExtensions ctx ReadableField node.extensions
    pub persistent : ArePersistent node.extensions
    pub unique : IsUnique node.extensions

  -- A node as it is loaded, with these extensions: nothing is to be written, and no timeout waits for
  -- its queue.
  abbrev pub loaded_with : StoredNode → Map (Map Value) → StoredNode
  loaded_with node exts = record {
    id = node.id;
    fields = node.fields;
    write_signal_queue = false;
    signal_queue = node.signal_queue;
    timeout_chan = no_timeout;
    extensions = exts;
  }

  abbrev pub asleep : StoredNode → StoredNode
  asleep node = loaded_with node node.extensions

  module _ (registry : IsRegistry ctx.serial) (badger : Badger) (store : badger.Store) where
    abbrev pub Holds : KeyBytes → Type 0
    Holds e = badger.get store e.0 ≡ some e.1

    set_fields-one :
        (f : ℕ × ExtensionFieldInfo) (fs : Map ExtensionFieldInfo) (ext acc : Map Value) (v : Value)
        → lookup f.1.index ext ≡ some v
        → set_fields (f ∷ fs) ext acc ≡ set_fields fs ext (insert f.1.index v acc)
    unfolding set_fields
    set_fields-one f fs ext acc v e =
        ap
          (λ o. elim o [
            | none ↦ set_fields fs ext acc
            | some v ↦ set_fields fs ext (insert f.1.index v acc)
          ])
          e

    read_field_value :
        (info : ExtensionFieldInfo) (v : Value)
        → ReadableField info v
        → deserialize_value ctx.serial fuel info.type (encode ctx.serial v) ≡ ok (v, [])
    read_field_value info v h =
        ap₂ (deserialize_value ctx.serial fuel) (sym h.0) (sym (append-nil (encode ctx.serial v)))
        ∙ deserialize_value-encode ctx.serial registry v fuel h.2 h.1 []

    load_fields-set :
        (id : NodeId) (ext_type : ℕ) (fs : Map ExtensionFieldInfo) (ext acc : Map Value)
        → HasFields ctx ReadableField ext fs
        → All Holds (field_entries ctx id ext_type ext fs)
        → load_fields badger ctx fuel store id ext_type fs acc ≡ done (set_fields fs ext acc)
    unfolding load_fields set_fields
    load_fields-set id ext_type [] ext acc h holds = refl
    load_fields-set id ext_type (f ∷ fs) ext acc h holds =
        let split = field_entries-one ctx id ext_type ext f fs h.0.0 h.0.1 in
        let holds' : All Holds
            (field_entry ctx id ext_type f.0 h.0.0 ∷ field_entries ctx id ext_type ext fs) =
          subst {A = List KeyBytes} (λ es. All Holds es) split holds in
        and_then_done _ (ap (found key_not_found) holds'.0) (
          and_then_done _ (ap (lift deserialize_failed) (read_field_value f.1 h.0.0 h.0.2))
            (load_fields-set id ext_type fs ext (insert f.1.index h.0.0 acc) h.1 holds'.1))
        ∙ ap done (sym (set_fields-one f fs ext acc h.0.0 h.0.1))

    load_extensions-keys :
        (id : NodeId) (acc exts : Map (Map Value))
        → HasExtensions ctx ReadableField exts
        → ArePersistent exts
        → IsUnique (acc ++ exts)
        → All Holds (ext_entries ctx id exts)
        → load_extensions badger ctx fuel store id (keys exts) acc ≡ done (acc ++ exts)
    unfolding load_extensions
    load_extensions-keys id acc [] h persistent unique holds = ap done (sym (append-nil acc))
    load_extensions-keys id acc (e ∷ es) h persistent unique holds =
        let info : ExtensionInfo = h.0.0 in
        let one : List KeyBytes = field_entries ctx id e.0 e.1 info.fields in
        let holds' : All Holds (one ++ ext_entries ctx id es) =
          subst {A = List KeyBytes} (λ es. All Holds es) (ext_entries-one ctx id e es info h.0.1)
            holds in
        let next : acc ++ e ∷ es ≡ (acc ++ e ∷ []) ++ es = sym (append_assoc acc (e ∷ []) es) in
        and_then_done _ (ap (found unknown_extension) h.0.1) (
          and_then_done _
            (load_fields-set id e.0 info.fields e.1 (ctx.zero_extension info.type) h.0.2
                (All-left Holds one (ext_entries ctx id es) holds')
              ∙ ap done (persistent.0 info h.0.1))
            (ap (load_extensions badger ctx fuel store id (keys es))
                (insert-append e.0 e.1 acc (unique_middle e acc es unique))
              ∙ load_extensions-keys id (acc ++ e ∷ []) es h.1 persistent.1
                  (subst {A = Map (Map Value)} (λ m. IsUnique m) next unique)
                  (All-right Holds one (ext_entries ctx id es) holds')))
        ∙ ap done (sym next)

    pub load_node-parts :
        (node : StoredNode) (list_val : List ℕ) (ext_list : List ℕ) (exts : Map (Map Value))
        → HasReadableHead node
        → Holds (id_key node.id, encode ctx.serial (node_value ctx node))
        → Holds (sigqueue_key node.id, encode ctx.serial node.signal_queue)
        → Holds (ext_list_key node.id, list_val)
        → or_no_extensions (deserialize ctx.serial fuel (GoType.slice (GoType.num uint64)) list_val)
          ≡ done ext_list
        → load_extensions badger ctx fuel store node.id ext_list [] ≡ done exts
        → load_node badger ctx fuel store node.id ≡ done (loaded_with node exts)
    unfolding load_node
    load_node-parts node list_val ext_list exts h value queue list listed loaded =
        let read_value =
          deserialize-encode ctx.serial registry (node_value ctx node) fuel h.value h.value_size in
        let read_queue : deserialize ctx.serial fuel ctx.queue_type
              (encode ctx.serial node.signal_queue)
            ≡ ok node.signal_queue =
          ap (λ t. deserialize ctx.serial fuel t (encode ctx.serial node.signal_queue))
            (sym h.queue_type)
          ∙ deserialize-encode ctx.serial registry node.signal_queue fuel h.queue h.queue_size in
        and_then_done _ (ap (found node_not_found) value) (
          and_then_done _ (ap (lift deserialize_failed) read_value) (
            and_then_done _ (ap (found key_not_found) queue) (
              and_then_done _
                (ap
                  (λ o.
                    with_signal_queue badger ctx fuel store node.id (some node.fields)
                      (lift deserialize_failed o))
                  read_queue)
                (and_then_done _ (ap (found key_not_found) list) (
                  and_then_done _ listed (
                    and_then_done _ loaded (
                      ap
                        (λ id. done (record {
                          id = id;
                          fields = node.fields;
                          write_signal_queue = false;
                          signal_queue = node.signal_queue;
                          timeout_chan = no_timeout;
                          extensions = exts;
                        }))
                        h.id)))))))

    pub load_node-Holds :
        (node : StoredNode)
        → IsLoadable node
        → All Holds (node_entries ctx node)
        → load_node badger ctx fuel store node.id ≡ done (asleep node)
    load_node-Holds node h holds =
        load_node-parts node (encode ctx.serial (ext_list node.extensions)) (keys node.extensions)
          node.extensions h.head holds.0 holds.1.0 holds.1.1.0
          (ap or_no_extensions (
              deserialize-encode ctx.serial registry (ext_list node.extensions) fuel h.list
                h.list_size)
            ∙ ap done (ext_types-list node.extensions))
          (load_extensions-keys node.id [] node.extensions h.extensions h.persistent h.unique
            holds.1.1.1)
