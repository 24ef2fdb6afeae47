-- ===== src/Database/Keys/Extensions.antt =====
-- The keys of the entries of all extensions of a node.
use graphvent.Prelude.{
  ℕ, ◌≡◌, sym, true, false, List, [], ◌∷◌, length, All, All-append, All-mono, ==_iff, arith,
}
use mathlib.Core.Path.{subst}
use graphvent.Prelude.Maps.{Map, has, IsUnique}
use graphvent.Signal.{NodeId}
use graphvent.Registry.{ExtensionFieldInfo, ExtensionInfo}
use graphvent.Serialize.{Value}
use graphvent.Database.{DatabaseContext}
use graphvent.Database.Staging.{KeyBytes}
use graphvent.Database.Entries.{field_entries, ext_entries, ext_entries-one, HasExtensions}
use graphvent.Database.Keys.{
  bytes_eq, bytes_ne, Lacks, HasDistinctKeys, HasDistinctKeys-append, ext_of, IsHashed, fields_of,
  fields-HasDistinctKeys,
}

module _ (ctx : DatabaseContext) (hashed : IsHashed ctx)
    (P : ExtensionFieldInfo → Value → Type 0) where
  pub exts_of :
      (id : NodeId) (es : Map (Map Value))
      → HasExtensions ctx P es
      → All (λ e. (length e.0 ≡ 32) × (has (ext_of e.0) es ≡ true)) (ext_entries ctx id es)
  unfolding ext_entries has
  exts_of id [] h = tt
  exts_of id ((x, ext) ∷ es) h =
      let Q : KeyBytes → Type 0 =
        λ e. (length e.0 ≡ 32) × (has (ext_of e.0) ((x, ext) ∷ es) ≡ true) in
      subst {A = List KeyBytes} (λ l. All Q l)
        (sym (ext_entries-one ctx id (x, ext) es h.0.0 h.0.1))
        (All-append Q (field_entries ctx id x ext h.0.0.fields) (ext_entries ctx id es)
          (All-mono (λ e. (length e.0 ≡ 32) × (ext_of e.0 ≡ x)) Q
            (field_entries ctx id x ext h.0.0.fields)
            (λ e b. (b.0, ground (arith, b.1, ==_iff (ext_of e.0) x)))
            (fields_of ctx hashed P id x ext h.0.0.fields (hashed.small_type x h.0.0 h.0.1) h.0.2))
          (All-mono (λ e. (length e.0 ≡ 32) × (has (ext_of e.0) es ≡ true)) Q
            (ext_entries ctx id es) (λ e b. (b.0, ground (arith, b.1))) (exts_of id es h.1)))

  pub exts-HasDistinctKeys :
      (id : NodeId) (es : Map (Map Value))
      → HasExtensions ctx P es
      → IsUnique es
      → HasDistinctKeys (ext_entries ctx id es)
  unfolding ext_entries
  exts-HasDistinctKeys id [] h u = tt
  exts-HasDistinctKeys id ((x, ext) ∷ es) h u =
      let info : ExtensionInfo = h.0.0 in
      subst {A = List KeyBytes} (λ l. HasDistinctKeys l)
        (sym (ext_entries-one ctx id (x, ext) es info h.0.1))
        (HasDistinctKeys-append (field_entries ctx id x ext info.fields) (ext_entries ctx id es)
          (fields-HasDistinctKeys ctx hashed P id x ext info.fields h.0.2
            (hashed.distinct x info h.0.1))
          (exts-HasDistinctKeys id es h.1 u.1)
          (All-mono (λ e. (length e.0 ≡ 32) × (ext_of e.0 ≡ x))
            (λ e. Lacks e.0 (ext_entries ctx id es)) (field_entries ctx id x ext info.fields)
            (λ e b.
              All-mono (λ e'. (length e'.0 ≡ 32) × (has (ext_of e'.0) es ≡ true))
                (λ e'. bytes_eq e.0 e'.0 ≡ false) (ext_entries ctx id es)
                (λ e' b'. bytes_ne ext_of e.0 e'.0 (λ s. absurd (differ b.1 u.0 b'.1 s)))
                (exts_of id es h.1))
            (fields_of ctx hashed P id x ext info.fields (hashed.small_type x info h.0.1) h.0.2)))
    where
      differ : {y z : ℕ} → y ≡ x → has x es ≡ false → has z es ≡ true → y ≡ z → ⊥
      differ {y} {z} e f t s = cc
