-- ===== src/Serialize/Unaddressed/Plain.antt =====
-- Values that hold ids by value, and plain values that hold none.
use mathlib.Core.Bool.{false≢true}
use graphvent.Prelude.{◌≡◌, refl, sym, Bool, true, false, ◌||◌}
use graphvent.Serialize.{Value, Values, Fields, no_values, value, no_fields, field, Context}
use graphvent.Serialize.Encoding.{IsPlain, IsPlainAt, ArePlain, FieldsArePlain}

-- An id, or a struct or an array with one, by value.
unfoldable mutual
  pub holds_id : Value → Bool
  holds_id (Value.id s) = true
  holds_id (Value.array t vs) = some_hold_id vs
  holds_id (Value.struct name fs) = fields_hold_id fs
  holds_id v = false

  pub some_hold_id : Values → Bool
  some_hold_id no_values = false
  some_hold_id (value v vs) = holds_id v || some_hold_id vs

  pub fields_hold_id : Fields → Bool
  fields_hold_id no_fields = false
  fields_hold_id (field tag v fs) = holds_id v || fields_hold_id fs

or_false : (b c : Bool) → (b || c) ≡ false → (b ≡ false) × (c ≡ false)
or_false true c h = absurd (false≢true (sym h))
or_false false c h = (refl, h)

pub or_rest : (b c : Bool) → (b || c) ≡ true → b ≡ false → c ≡ true
or_rest true c h e = absurd (false≢true (sym e))
or_rest false c h e = h

module _ (ctx : Context) where
  mutual
    unfolding holds_id IsPlainAt

    pub plain_without : (v : Value) → IsPlain ctx v → holds_id v ≡ false → IsPlainAt ctx false v
    plain_without (Value.bool b) h e = tt
    plain_without (Value.num k n) h e = tt
    plain_without (Value.string s) h e = tt
    plain_without (Value.id s) h e = absurd (false≢true (sym e))
    plain_without (Value.nil_pointer t) h e = tt
    plain_without (Value.pointer v) h e = h
    plain_without (Value.nil_slice t) h e = absurd h
    plain_without (Value.slice t vs) h e = h
    plain_without (Value.array t vs) h e = values_without vs h e
    plain_without (Value.nil_map k t) h e = tt
    plain_without (Value.map k t es) h e = h
    plain_without (Value.struct name fs) h e = (h.0, fields_without fs h.1 e)
    plain_without (Value.nil_interface name) h e = absurd h
    plain_without (Value.interface name v) h e = h
    plain_without (Value.other name) h e = absurd h

    values_without :
        (vs : Values) → ArePlain ctx true vs → some_hold_id vs ≡ false → ArePlain ctx false vs
    values_without no_values h e = tt
    values_without (value v vs) h e =
        let both = or_false (holds_id v) (some_hold_id vs) e in
        (plain_without v h.0 both.0, values_without vs h.1 both.1)

    fields_without :
        (fs : Fields)
        → FieldsArePlain ctx true fs
        → fields_hold_id fs ≡ false
        → FieldsArePlain ctx false fs
    fields_without no_fields h e = tt
    fields_without (field tag v fs) h e =
        let both = or_false (holds_id v) (fields_hold_id fs) e in
        (plain_without v h.0 both.0, fields_without fs h.1 both.1)
