-- ===== src/Serialize/Reading/Stored.antt =====
-- Fields and entries that are set one after another.
use graphvent.Prelude.{
  ℕ, ◌≡◌, ◌≢◌, ap, sym, refl, ◌∙◌, ==_ne, ◌==◌, Bool-cases, inl, inr, if◌then◌else◌,
}
use graphvent.Serialize.{Value, Entries, Fields, no_entries, entry, no_fields, field, Context}
use graphvent.Serialize.Decode.{remove_field, append_fields, set_field, remove_key, append_entry}
use graphvent.Serialize.Reading.{remove_fields, LacksKey, LacksTag, if_true, if_false}

abbrev pub append_entries : Entries → Entries → Entries
append_entries no_entries es = es
append_entries (entry k v acc) es = entry k v (append_entries acc es)

pub append_entries-append_entry :
    (acc : Entries) (k v : Value) (es : Entries)
    → append_entries (append_entry k v acc) es ≡ append_entries acc (entry k v es)
append_entries-append_entry no_entries k v es = refl
append_entries-append_entry (entry k' v' acc) k v es =
    ap (entry k' v') (append_entries-append_entry acc k v es)

pub remove_key_fresh :
    (ctx : Context) (k : Value) (acc : Entries)
    → LacksKey ctx.same_key k acc
    → remove_key ctx k acc ≡ acc
remove_key_fresh ctx k no_entries h = refl
remove_key_fresh ctx k (entry k' v acc) h =
    if_false (ctx.same_key k k') (remove_key ctx k acc) (entry k' v (remove_key ctx k acc)) h.0
    ∙ ap (entry k' v) (remove_key_fresh ctx k acc h.1)

append_fields-append_fields :
    (gs : Fields) (t : ℕ) (v : Value) (fs : Fields)
    → append_fields (append_fields gs (field t v no_fields)) fs ≡ append_fields gs (field t v fs)
append_fields-append_fields no_fields t v fs = refl
append_fields-append_fields (field t' v' gs) t v fs =
    ap (field t' v') (append_fields-append_fields gs t v fs)

remove_field-append_fields :
    (u t : ℕ) (v : Value) (gs : Fields)
    → u ≢ t
    → remove_field u (append_fields gs (field t v no_fields))
      ≡ append_fields (remove_field u gs) (field t v no_fields)
remove_field-append_fields u t v no_fields h = if_false _ _ _ (==_ne u t h)
remove_field-append_fields u t v (field t' v' gs) h = elim (Bool-cases (u == t')) [
  | inl same ↦
      if_true _ _ _ same
      ∙ remove_field-append_fields u t v gs h
      ∙ ap
          (λ b.
            append_fields (if b then remove_field u gs else field t' v' (remove_field u gs))
              (field t v no_fields))
          (sym same)
  | inr differ ↦
      if_false _ _ _ differ
      ∙ ap (field t' v') (remove_field-append_fields u t v gs h)
      ∙ ap
          (λ b.
            append_fields (if b then remove_field u gs else field t' v' (remove_field u gs))
              (field t v no_fields))
          (sym differ)
]

remove_fields-append_fields :
    (t : ℕ) (v : Value) (fs gs : Fields)
    → LacksTag t fs
    → remove_fields fs (append_fields gs (field t v no_fields))
      ≡ append_fields (remove_fields fs gs) (field t v no_fields)
remove_fields-append_fields t v no_fields gs h = refl
remove_fields-append_fields t v (field u w fs) gs h =
    ap (remove_fields fs) (remove_field-append_fields u t v gs h.0)
    ∙ remove_fields-append_fields t v fs (remove_field u gs) h.1

-- A field that is set, and then those behind it.
pub set_field-fields :
    (t : ℕ) (v : Value) (fs acc : Fields)
    → LacksTag t fs
    → append_fields (remove_fields fs (set_field t v acc)) fs
      ≡ append_fields (remove_fields (field t v fs) acc) (field t v fs)
set_field-fields t v fs acc h =
    ap (λ gs. append_fields gs fs) (remove_fields-append_fields t v fs (remove_field t acc) h)
    ∙ append_fields-append_fields (remove_fields fs (remove_field t acc)) t v fs
