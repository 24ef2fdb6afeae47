-- ===== src/Database/Keys.antt =====
-- The keys of a node's entries, no two of which are the same.
pub mod Extensions
use graphvent.Prelude.{
  ℕ, ◌+◌, ◌<◌, ◌^◌, ◌≡◌, ◌≢◌, refl, sym, ap, ap₂, ◌∙◌, Bool, true, false, ◌&&◌, ◌||◌, List, [], ◌∷◌,
  ◌++◌, Option, none, some, length, take, drop, All, All-append, All-mono, ◌==◌, if◌then◌else◌,
  ==_iff, ==_refl, ==_ne, append_assoc, length-append, take-length-append, drop-length-append,
  Option-cases, Bool-cases, inl, inr, arith,
}
use mathlib.Core.Path.{subst}
use graphvent.Prelude.Maps.{Map, lookup, has, IsUnique}
use graphvent.Signal.{NodeId}
use graphvent.Registry.{ExtensionFieldInfo, ExtensionInfo}
use graphvent.Serialize.{Value}
use graphvent.Serialize.Bytes.{big_endian, from_big_endian, length-big_endian, read-big_endian}
use graphvent.Database.{DatabaseContext, StoredNode, id_key, sigqueue_key, ext_list_key, field_key}
use graphvent.Database.Staging.{KeyBytes}
use graphvent.Database.Entries.{
  field_entry, field_entries, field_entries-one, ext_entries, ext_entries-one, node_entries,
  HasFields, HasExtensions,
}

abbrev pub bytes_eq : List ℕ → List ℕ → Bool
bytes_eq [] [] = true
bytes_eq (x ∷ xs) (y ∷ ys) = x == y && bytes_eq xs ys
bytes_eq xs ys = false

pub bytes_eq_refl : (xs : List ℕ) → bytes_eq xs xs ≡ true
bytes_eq_refl [] = refl
bytes_eq_refl (x ∷ xs) = ground (arith, bytes_eq_refl xs)

bytes_eq→≡ : (xs ys : List ℕ) → bytes_eq xs ys ≡ true → xs ≡ ys
bytes_eq→≡ [] [] h = refl
bytes_eq→≡ [] (y ∷ ys) h = cc
bytes_eq→≡ (x ∷ xs) [] h = cc
bytes_eq→≡ (x ∷ xs) (y ∷ ys) h = ap₂ (◌∷◌) (ground arith) (bytes_eq→≡ xs ys (ground arith))

-- Two keys of which something differs are not the same.
pub bytes_ne : (f : List ℕ → ℕ) (xs ys : List ℕ) → f xs ≢ f ys → bytes_eq xs ys ≡ false
bytes_ne f xs ys h = elim (Bool-cases (bytes_eq xs ys)) [
  | inl e ↦ absurd (h (ap f (bytes_eq→≡ xs ys e)))
  | inr e ↦ e
]

-- No entry has the key.
abbrev pub Lacks : List ℕ → List KeyBytes → Type 0
Lacks k es = All (λ e. bytes_eq k e.0 ≡ false) es

abbrev pub HasDistinctKeys : List KeyBytes → Type 0
HasDistinctKeys [] = Unit
HasDistinctKeys (e ∷ es) = Lacks e.0 es × HasDistinctKeys es

pub HasDistinctKeys-append :
    (xs ys : List KeyBytes)
    → HasDistinctKeys xs
    → HasDistinctKeys ys
    → All (λ e. Lacks e.0 ys) xs
    → HasDistinctKeys (xs ++ ys)
HasDistinctKeys-append [] ys hx hy h = hy
HasDistinctKeys-append (x ∷ xs) ys hx hy h = (
  All-append (λ e. bytes_eq x.0 e.0 ≡ false) xs ys hx.0 h.0,
  HasDistinctKeys-append xs ys hx.1 hy h.1,
)

take_append : (n : ℕ) (xs ys : List ℕ) → length xs ≡ n → take n (xs ++ ys) ≡ xs
take_append n xs ys h = ap (λ n. take n (xs ++ ys)) (sym h) ∙ take-length-append xs ys

drop_append : (n : ℕ) (xs ys : List ℕ) → length xs ≡ n → drop n (xs ++ ys) ≡ ys
drop_append n xs ys h = ap (λ n. drop n (xs ++ ys)) (sym h) ∙ drop-length-append xs ys

-- The extension and the tag in the key of a field.
pub ext_of : List ℕ → ℕ
ext_of key = from_big_endian 0 (take 8 (drop 16 key))

tag_of : List ℕ → ℕ
tag_of key = from_big_endian 0 (drop 24 key)

pub length-id_key : (id : NodeId) → length (id_key id) ≡ 16
length-id_key id = length-big_endian 16 id

length-ext_key : (id : NodeId) (ext_type : ℕ) → length (id_key id ++ big_endian 8 ext_type) ≡ 24
length-ext_key id ext_type = omega (
  arith,
  length-append (id_key id) (big_endian 8 ext_type),
  length-id_key id,
  length-big_endian 8 ext_type,
)

length-field_key : (id : NodeId) (ext_type tag : ℕ) → length (field_key id ext_type tag) ≡ 32
length-field_key id ext_type tag = omega (
  arith,
  length-append (id_key id ++ big_endian 8 ext_type) (big_endian 8 tag),
  length-ext_key id ext_type,
  length-big_endian 8 tag,
)

ext_of-field_key :
    (id : NodeId) (ext_type tag : ℕ)
    → ext_type < 256 ^ 8
    → ext_of (field_key id ext_type tag) ≡ ext_type
unfolding ext_of
ext_of-field_key id ext_type tag small =
    ap (λ bs. from_big_endian 0 (take 8 (drop 16 bs)))
      (append_assoc (id_key id) (big_endian 8 ext_type) (big_endian 8 tag))
    ∙ ap (λ bs. from_big_endian 0 (take 8 bs)) (drop_append 16 (id_key id) _ (length-id_key id))
    ∙ ap (from_big_endian 0)
        (take_append 8 (big_endian 8 ext_type) _ (length-big_endian 8 ext_type))
    ∙ read-big_endian 8 ext_type small

tag_of-field_key :
    (id : NodeId) (ext_type tag : ℕ) → tag < 256 ^ 8 → tag_of (field_key id ext_type tag) ≡ tag
unfolding tag_of
tag_of-field_key id ext_type tag small =
    ap (from_big_endian 0)
      (drop_append 24 (id_key id ++ big_endian 8 ext_type) _ (length-ext_key id ext_type))
    ∙ read-big_endian 8 tag small

-- No two of the tags have one hash.
abbrev pub HasDistinctTags : (ℕ → ℕ) → Map ExtensionFieldInfo → Type 0
HasDistinctTags hash [] = Unit
HasDistinctTags hash (f ∷ fs) = All (λ g. hash f.0 ≢ hash g.0) fs × HasDistinctTags hash fs

-- SHA-512 digests are cut to eight bytes, and no two tags of an extension have the same.
pub record IsHashed (ctx : DatabaseContext) : Type 0 where
  pub small_tag : (tag : ℕ) → ctx.field_tag tag < 256 ^ 8
  pub small_type :
      (ext_type : ℕ) (info : ExtensionInfo)
      → lookup ext_type ctx.extensions ≡ some info
      → ext_type < 256 ^ 8
  pub distinct :
      (ext_type : ℕ) (info : ExtensionInfo)
      → lookup ext_type ctx.extensions ≡ some info
      → HasDistinctTags ctx.field_tag info.fields

module _ (ctx : DatabaseContext) (hashed : IsHashed ctx)
    (P : ExtensionFieldInfo → Value → Type 0) where
  -- The keys of an extension's fields are of its type, and have the hashes of the tags.
  pub fields_of :
      (id : NodeId) (ext_type : ℕ) (ext : Map Value) (fs : Map ExtensionFieldInfo)
      → ext_type < 256 ^ 8
      → HasFields ctx P ext fs
      → All
          (λ e. (length e.0 ≡ 32) × (ext_of e.0 ≡ ext_type))
          (field_entries ctx id ext_type ext fs)
  unfolding field_entries
  fields_of id ext_type ext [] small h = tt
  fields_of id ext_type ext (f ∷ fs) small h =
      subst {A = List KeyBytes} (λ es. All (λ e. (length e.0 ≡ 32) × (ext_of e.0 ≡ ext_type)) es)
        (sym (field_entries-one ctx id ext_type ext f fs h.0.0 h.0.1))
        (
          (
            length-field_key id ext_type (ctx.field_tag f.0),
            ext_of-field_key id ext_type (ctx.field_tag f.0) small,
          ),
          fields_of id ext_type ext fs small h.1,
        )

  other_tags :
      (id : NodeId) (ext_type tag : ℕ) (ext : Map Value) (fs : Map ExtensionFieldInfo)
      → HasFields ctx P ext fs
      → All (λ g. ctx.field_tag tag ≢ ctx.field_tag g.0) fs
      → Lacks (field_key id ext_type (ctx.field_tag tag)) (field_entries ctx id ext_type ext fs)
  unfolding field_entries
  other_tags id ext_type tag ext [] h d = tt
  other_tags id ext_type tag ext (f ∷ fs) h d =
      subst {A = List KeyBytes} (λ es. Lacks (field_key id ext_type (ctx.field_tag tag)) es)
        (sym (field_entries-one ctx id ext_type ext f fs h.0.0 h.0.1))
        (
          bytes_ne tag_of _ _ (λ e. d.0 (
              sym (tag_of-field_key id ext_type (ctx.field_tag tag) (hashed.small_tag tag))
              ∙ e
              ∙ tag_of-field_key id ext_type (ctx.field_tag f.0) (hashed.small_tag f.0))),
          other_tags id ext_type tag ext fs h.1 d.1,
        )

  pub fields-HasDistinctKeys :
      (id : NodeId) (ext_type : ℕ) (ext : Map Value) (fs : Map ExtensionFieldInfo)
      → HasFields ctx P ext fs
      → HasDistinctTags ctx.field_tag fs
      → HasDistinctKeys (field_entries ctx id ext_type ext fs)
  unfolding field_entries
  fields-HasDistinctKeys id ext_type ext [] h d = tt
  fields-HasDistinctKeys id ext_type ext (f ∷ fs) h d =
      subst {A = List KeyBytes} (λ es. HasDistinctKeys es)
        (sym (field_entries-one ctx id ext_type ext f fs h.0.0 h.0.1))
        (
          other_tags id ext_type f.0 ext fs h.1 d.0,
          fields-HasDistinctKeys id ext_type ext fs h.1 d.1,
        )
