-- ===== src/Database/Entries.antt =====
-- The entries that stand for a node in the store.
use graphvent.Prelude.{ℕ, ◌≡◌, ap, List, [], ◌∷◌, ◌++◌, none, some}
use graphvent.Prelude.Maps.{Map, lookup}
use graphvent.Signal.{NodeId}
use graphvent.Registry.{ExtensionFieldInfo, ExtensionInfo}
use graphvent.Serialize.{Value}
use graphvent.Serialize.Encoding.{encode, IsPlain}
use graphvent.Database.{
  DatabaseContext, StoredNode, id_key, sigqueue_key, ext_list_key, field_key, ext_list, node_value,
}
use graphvent.Database.Staging.{KeyBytes}

module _ (ctx : DatabaseContext) where
  abbrev pub field_entry : NodeId → ℕ → ℕ → Value → KeyBytes
  field_entry id ext_type tag v = (field_key id ext_type (ctx.field_tag tag), encode ctx.serial v)

  -- The entries of an extension's fields, and those of all extensions.
  unfoldable pub field_entries : NodeId → ℕ → Map Value → Map ExtensionFieldInfo → List KeyBytes
  field_entries id ext_type ext [] = []
  field_entries id ext_type ext (f ∷ fs) =
      let rest = field_entries id ext_type ext fs in
      elim (lookup f.1.index ext) [ none ↦ rest | some v ↦ field_entry id ext_type f.0 v ∷ rest ]

  unfoldable pub ext_entries : NodeId → Map (Map Value) → List KeyBytes
  unfolding field_entries
  ext_entries id [] = []
  ext_entries id (e ∷ es) =
      let rest = ext_entries id es in
      elim (lookup e.0 ctx.extensions) [
        | none ↦ rest
        | some info ↦ field_entries id e.0 e.1 info.fields ++ rest
      ]

  pub field_entries-one :
      (id : NodeId) (ext_type : ℕ) (ext : Map Value) (f : ℕ × ExtensionFieldInfo)
      (fs : Map ExtensionFieldInfo) (v : Value)
      → lookup f.1.index ext ≡ some v
      → field_entries id ext_type ext (f ∷ fs)
        ≡ field_entry id ext_type f.0 v ∷ field_entries id ext_type ext fs
  unfolding field_entries
  field_entries-one id ext_type ext f fs v e =
      ap
        (λ o. elim o [
          | none ↦ field_entries id ext_type ext fs
          | some v ↦ field_entry id ext_type f.0 v ∷ field_entries id ext_type ext fs
        ])
        e

  pub ext_entries-one :
      (id : NodeId) (e : ℕ × Map Value) (es : Map (Map Value)) (info : ExtensionInfo)
      → lookup e.0 ctx.extensions ≡ some info
      → ext_entries id (e ∷ es) ≡ field_entries id e.0 e.1 info.fields ++ ext_entries id es
  unfolding ext_entries
  ext_entries-one id e es info known =
      ap
        (λ o. elim o [
          | none ↦ ext_entries id es
          | some info ↦ field_entries id e.0 e.1 info.fields ++ ext_entries id es
        ])
        known

  -- Those behind the value of the node.
  abbrev pub later_entries : StoredNode → List KeyBytes
  later_entries node =
      (sigqueue_key node.id, encode ctx.serial node.signal_queue)
      ∷ (ext_list_key node.id, encode ctx.serial (ext_list node.extensions))
      ∷ ext_entries node.id node.extensions

  abbrev pub node_entries : StoredNode → List KeyBytes
  node_entries node = (id_key node.id, encode ctx.serial (node_value ctx node)) ∷ later_entries node

  -- The extension has every field that is registered for it, with a value that has the property.
  abbrev pub HasFields :
      (ExtensionFieldInfo → Value → Type 0) → Map Value → Map ExtensionFieldInfo → Type 0
  HasFields P ext [] = Unit
  HasFields P ext (f ∷ fs) =
      ((v : Value) × (lookup f.1.index ext ≡ some v) × P f.1 v) × HasFields P ext fs

  -- Every extension is registered.
  abbrev pub HasExtensions : (ExtensionFieldInfo → Value → Type 0) → Map (Map Value) → Type 0
  HasExtensions P [] = Unit
  HasExtensions P (e ∷ es) =
      ((info : ExtensionInfo) × (lookup e.0 ctx.extensions ≡ some info)
        × HasFields P e.1 info.fields)
      × HasExtensions P es

  abbrev pub PlainField : ExtensionFieldInfo → Value → Type 0
  PlainField info v = IsPlain ctx.serial v

  pub record IsStorable (node : StoredNode) : Type 0 where
    pub value : IsPlain ctx.serial (node_value ctx node)
    pub queue : IsPlain ctx.serial node.signal_queue
    pub extensions : HasExtensions PlainField node.extensions
