-- ===== src/Database/Changes.antt =====
-- What WriteNodeChanges stores, and what it does not.
use graphvent.Prelude.{ℕ, ◌≡◌, refl, List, [], ◌∷◌, All}
use graphvent.Prelude.Maps.{Map, lookup}
use graphvent.Signal.{NodeId}
use graphvent.Registry.{ExtensionFieldInfo}
use graphvent.Serialize.{Value}
use graphvent.Database.{
  Result, done, fails, panics, exhausted, ◌and_then◌, found, missing_field, unknown_extension,
  missing_extension, Badger, DatabaseContext, StoredNode, Tx, pointer_to, BadgerDb, begin, update,
}
use graphvent.Database.Changing.{change_fields, change_extensions, write_queue, write_node_changes}

-- A call that returned, of which the first part returned.
abbrev IsDone : {A : Type 0} → Result A → Type 0
IsDone (done a) = Unit
IsDone r = ⊥

and_then-IsDone :
    {A B : Type 0} (r : Result A) (f : A → Result B)
    → IsDone (r and_then f)
    → (a : A) × (r ≡ done a) × IsDone (f a)
and_then-IsDone (done a) f h = (a, refl, h)
and_then-IsDone (fails e) f h = absurd h
and_then-IsDone panics f h = absurd h
and_then-IsDone exhausted f h = absurd h

pub done-IsDone : {A : Type 0} (r : Result A) (a : A) → r ≡ done a → IsDone r
done-IsDone (done b) a e = tt
done-IsDone (fails x) a e = cc
done-IsDone panics a e = cc
done-IsDone exhausted a e = cc

module _ (badger : Badger) (ctx : DatabaseContext) where
  abbrev pub NoTags : ℕ × List ℕ → Type 0
  NoTags change = change.1 ≡ []

  fields_panic :
      (id : NodeId) (ext_type : ℕ) (ext : Map Value) (fields : Map ExtensionFieldInfo)
      (tags : List ℕ) (tx : Tx)
      → IsDone (change_fields badger ctx id ext_type (pointer_to ext) fields tags tx)
      → tags ≡ []
  unfolding change_fields
  fields_panic id ext_type ext fields [] tx h = refl
  fields_panic id ext_type ext fields (tag ∷ tags) tx h =
      absurd ((and_then-IsDone (found missing_field (lookup tag fields)) _ h).2)

  extensions_panic :
      (id : NodeId) (exts : Map (Map Value)) (changes : List (ℕ × List ℕ)) (tx : Tx)
      → IsDone (change_extensions badger ctx id exts changes tx)
      → All NoTags changes
  unfolding change_extensions
  extensions_panic id exts [] tx h = tt
  extensions_panic id exts (change ∷ changes) tx h =
      let info = and_then-IsDone (found unknown_extension (lookup change.0 ctx.extensions)) _ h in
      let ext = and_then-IsDone (found missing_extension (lookup change.0 exts)) _ info.2 in
      let fields =
        and_then-IsDone
          (change_fields badger ctx id change.0 (pointer_to ext.0) info.0.fields change.1 tx) _
          ext.2 in
      (
        fields_panic id change.0 ext.0 info.0.fields change.1 tx (done-IsDone _ fields.0 fields.1),
        extensions_panic id exts changes fields.0 fields.2,
      )

  -- WriteNodeChanges stores no field: when it is done, no extension had a changed tag.
  pub write_node_changes-NoTags :
      (node : StoredNode) (changes : List (ℕ × List ℕ)) (db db' : BadgerDb badger)
      → (write_node_changes badger ctx node changes db).1 ≡ done db'
      → All NoTags changes
  unfolding write_node_changes update
  write_node_changes-NoTags node changes db db' e =
      let body =
        and_then-IsDone
          (write_queue badger ctx node (begin badger db) and_then λ tx'.
            change_extensions badger ctx node.id node.extensions changes tx')
          _ (done-IsDone _ db' e) in
      let queue =
        and_then-IsDone (write_queue badger ctx node (begin badger db))
          (λ tx'. change_extensions badger ctx node.id node.extensions changes tx')
          (done-IsDone _ body.0 body.1) in
      extensions_panic node.id node.extensions changes queue.0 queue.2
