-- ===== src/Serialize/Termination/Cases.antt =====
-- Each case of DeserializeValue ends, if the reading of its parts does.
use graphvent.Prelude.{
  ℕ, zero, suc, ◌+◌, ◌*◌, ◌≤◌, ◌≡◌, refl, not, List, Option, none, some, length, ltb, ◌==◌,
  if◌then◌else◌, length-drop, arith,
}
use graphvent.Serialize.{
  width, GoType, Value, Fields, TypeInfo, Context, Outcome, ok, panic, ◌>>=◌, no_entries,
}
use graphvent.Serialize.Decode.{
  split, read, iterations, unless_negative, address, read_values, called, post_deserialize,
  read_field, read_fields, read_struct, read_type, field_type, addressable, into_interface,
}
use graphvent.Serialize.Reading.{type_size}
use graphvent.Serialize.Termination.{
  mul_step, mul_le, Ends, bind-Ends, if-Ends, Leaves, weaken-Ends, split-Ends, read-Ends,
  unless_negative-Ends, HasBoundedTypes, Sized, Steps, read_values-Ends, read_entries-Ends,
}

module _ (ctx : Context) (m : ℕ) (bounded : HasBoundedTypes ctx m) (most : ℕ) where
  -- What a byte may cost: the size of the largest type that can be read from as many bytes.
  abbrev pub cost : ℕ
  cost = most * m + m

  abbrev pub Enough : ℕ → GoType → List ℕ → Type 0
  Enough fuel t bytes = 2 + type_size t + length bytes * cost ≤ fuel

  abbrev pub Reader : ℕ → (GoType → List ℕ → Outcome (Value × List ℕ)) → Type 0
  Reader fuel read_value =
      (t : GoType) (bytes : List ℕ)
      → length bytes ≤ most
      → Enough fuel t bytes
      → Ends (Leaves 0 bytes) (read_value t bytes)

  -- A part of a type is read, as often as it is, within what the type may cost.
  part-Steps :
      (fuel : ℕ) (read_value : GoType → List ℕ → Outcome (Value × List ℕ)) (t : GoType) (n k : ℕ)
      → Reader fuel read_value
      → n ≤ most
      → 2 + type_size t + n * cost ≤ fuel
      → Steps ctx m bounded n (read_value t)
  part-Steps fuel read_value t n k r h enough bs l =
      r t bs (omega arith) (omega (arith, mul_le (length bs) n cost l))

  post_deserialize-Ends :
      (name : ℕ) (o : Option ℕ) (fs : Fields)
      → Ends (λ fs. Unit {0}) (post_deserialize ctx name o fs)
  post_deserialize-Ends name none fs = tt
  post_deserialize-Ends name (some index) fs = called-Ends (ctx.call_method name index fs)
    where
      called-Ends : (o : Option Fields) → Ends (λ fs. Unit {0}) (called o)
      called-Ends none = tt
      called-Ends (some fs) = tt

  module _ (fuel : ℕ) (read_value : GoType → List ℕ → Outcome (Value × List ℕ))
      (r : Reader fuel read_value) where
    read_field-Ends :
        (tag : ℕ) (o : Option GoType) (fs : Fields) (bytes : List ℕ)
        → length bytes ≤ most
        → ((t : GoType) → o ≡ some t → Enough fuel t bytes)
        → Ends (Leaves 0 bytes) (read_field ctx read_value tag o fs bytes)
    read_field-Ends tag none fs bytes h e = tt
    read_field-Ends tag (some t) fs bytes h e =
        bind-Ends (Leaves 0 bytes) (Leaves 0 bytes) (read_value t bytes) _ (r t bytes h (e t refl))
          (λ v l. l)

    read_fields-Ends :
        (infos : List (ℕ × GoType)) (n : ℕ) (fs : Fields) (bytes : List ℕ)
        → ((tag : ℕ) (t : GoType) → field_type tag infos ≡ some t → type_size t ≤ m)
        → length bytes ≤ most
        → 2 + m + length bytes * cost ≤ fuel
        → Ends (Leaves 0 bytes) (read_fields ctx read_value infos n fs bytes)
    unfolding read_fields
    read_fields-Ends infos zero fs bytes small h enough = omega arith
    read_fields-Ends infos (suc n) fs bytes small h enough =
        bind-Ends (Leaves 8 bytes) (Leaves 0 bytes) (read 8 bytes) _ (read-Ends 8 bytes) λ tag l.
          bind-Ends (Leaves 0 tag.1) (Leaves 0 bytes)
            (read_field ctx read_value tag.0 (field_type tag.0 infos) fs tag.1) _
            (read_field-Ends tag.0 (field_type tag.0 infos) fs tag.1 (omega (arith, l)) (λ t e.
              omega (
                arith,
                small tag.0 t e,
                mul_le (length tag.1) (length bytes) cost (omega (arith, l)),
              )))
            λ v hv. weaken-Ends v.1 bytes _ (omega (arith, l, hv)) (
              read_fields-Ends infos n v.0 v.1 small (omega (arith, l, hv))
                (omega (arith, mul_le (length v.1) (length bytes) cost (omega (arith, l, hv)))))

    read_struct-Ends :
        (name : ℕ) (o : Option TypeInfo) (bytes : List ℕ)
        → ctx.types (GoType.struct name) ≡ o
        → length bytes ≤ most
        → 2 + length bytes * cost ≤ fuel
        → Ends (Leaves 0 bytes) (read_struct ctx read_value name o bytes)
    read_struct-Ends name none bytes known h enough = tt
    read_struct-Ends name (some info) bytes known h enough =
        bind-Ends (Leaves 8 bytes) (Leaves 0 bytes) (read 8 bytes) _ (read-Ends 8 bytes) λ n l.
          bind-Ends (Leaves 0 n.1) (Leaves 0 bytes)
            (read_fields ctx read_value info.fields (iterations n.0) (ctx.zero_fields name) n.1) _
            (read_fields-Ends info.fields (iterations n.0) (ctx.zero_fields name) n.1
              (λ tag t e. bounded.fields (GoType.struct name) info tag t known e) (omega (arith, l))
              (omega (arith, mul_step (length n.1) (length bytes) cost (omega (arith, l)))))
            λ fs hf.
              bind-Ends (λ fs. Unit {0}) (Leaves 0 bytes)
                (post_deserialize ctx name info.post_deserialize fs.0) _
                (post_deserialize-Ends name info.post_deserialize fs.0)
                (λ gs u. omega (arith, l, hf))

    address-Ends : (v : Value) → Ends (λ p. Unit {0}) (address v)
    address-Ends v = if-Ends (λ p. Unit {0}) (addressable v) _ _ (λ e. tt) (λ e. tt)

    -- `f` reads a value, and what is made of it leaves the same rest.
    then_made :
        {A : Type 0} (bytes : List ℕ) (n : ℕ) (o : Outcome (A × List ℕ)) (f : A → Value)
        → Ends (Leaves n bytes) o
        → Ends (Leaves 0 bytes) (o >>= λ a. ok (f a.0, a.1))
    then_made bytes n o f h = bind-Ends (Leaves n bytes) (Leaves 0 bytes) o _ h (λ a l. omega arith)

    interface-Ends :
        (name : ℕ) (unwrap : List ℕ → Outcome (GoType × List ℕ)) (bytes : List ℕ)
        → Ends (Sized ctx m bounded bytes) (unwrap bytes)
        → length bytes ≤ most
        → 3 + length bytes * cost ≤ suc fuel
        → Ends (Leaves 0 bytes) (
            unwrap bytes >>= λ t. read_value t.0 t.1 >>= λ v.
            if ctx.implements name t.0 then ok (into_interface name v.0, v.1) else panic)
    interface-Ends name unwrap bytes u h enough =
        bind-Ends (Sized ctx m bounded bytes) (Leaves 0 bytes) (unwrap bytes) _ u λ t ht.
          bind-Ends (Leaves 0 t.1) (Leaves 0 bytes) (read_value t.0 t.1) _
            (r t.0 t.1 (omega (arith, ht.1)) (
              omega (
                arith,
                ht.0,
                mul_le (length bytes) most m h,
                mul_step (length t.1) (length bytes) cost (omega (arith, ht.1)),
              )))
            λ v hv.
              if-Ends (Leaves 0 bytes) (ctx.implements name t.0) _ _ (λ e. omega (arith, hv, ht.1))
                (λ e. tt)

    pub read_type-Ends :
        (unwrap : List ℕ → Outcome (GoType × List ℕ)) (t : GoType) (bytes : List ℕ)
        → Ends (Sized ctx m bounded bytes) (unwrap bytes)
        → length bytes ≤ most
        → Enough (suc fuel) t bytes
        → Ends (Leaves 0 bytes) (read_type ctx read_value unwrap t bytes)
    unfolding read_type
    read_type-Ends unwrap GoType.bool bytes u h enough =
        then_made bytes 1 (read 1 bytes) (λ n. Value.bool (not (n == 0))) (read-Ends 1 bytes)
    read_type-Ends unwrap (GoType.num k) bytes u h enough =
        then_made bytes (width k) (read (width k) bytes) (Value.num k) (read-Ends (width k) bytes)
    read_type-Ends unwrap GoType.string bytes u h enough =
        bind-Ends (Leaves 8 bytes) (Leaves 0 bytes) (read 8 bytes) _ (read-Ends 8 bytes) λ n l.
          bind-Ends (Leaves n.0 n.1) (Leaves 0 bytes) (unless_negative n.0 (split n.1 n.0)) _
            (unless_negative-Ends (Leaves n.0 n.1) n.0 (split n.1 n.0) (split-Ends n.1 n.0))
            (λ s k. omega (arith, l, k))
    read_type-Ends unwrap GoType.id bytes u h enough =
        if-Ends (Leaves 0 bytes) (ltb (length bytes) 16) _ _ (λ e. tt)
          (λ e. omega (arith, length-drop 16 bytes))
    read_type-Ends unwrap (GoType.pointer t) bytes u h enough =
        bind-Ends (Leaves 1 bytes) (Leaves 0 bytes) (read 1 bytes) _ (read-Ends 1 bytes) λ flag l.
          if-Ends (Leaves 0 bytes) (flag.0 == 0) _ _ (λ e. omega (arith, l))
            λ e.
              bind-Ends (Leaves 0 flag.1) (Leaves 0 bytes) (read_value t flag.1) _
                (r t flag.1 (omega (arith, l))
                  (omega (arith, mul_le (length flag.1) (length bytes) cost (omega (arith, l)))))
                λ v hv.
                  bind-Ends (λ p. Unit {0}) (Leaves 0 bytes) (address v.0) _ (address-Ends v.0)
                    (λ p x. omega (arith, l, hv))
    read_type-Ends unwrap (GoType.slice t) bytes u h enough =
        bind-Ends (Leaves 1 bytes) (Leaves 0 bytes) (read 1 bytes) _ (read-Ends 1 bytes) λ flag l.
          if-Ends (Leaves 0 bytes) (flag.0 == 0) _ _ (λ e. omega (arith, l))
            λ e.
              bind-Ends (Leaves 8 flag.1) (Leaves 0 bytes) (read 8 flag.1) _ (read-Ends 8 flag.1)
                λ n k. then_made bytes 0 _ (Value.slice t) (
                  unless_negative-Ends (Leaves 0 bytes) n.0 (read_values (read_value t) n.0 n.1) (
                    weaken-Ends n.1 bytes _ (omega (arith, l, k)) (
                      read_values-Ends ctx m bounded (read_value t) (length bytes) n.0 n.1
                        (part-Steps fuel read_value t (length bytes) 0 r h (omega arith))
                        (omega (arith, l, k)))))
    read_type-Ends unwrap (GoType.array n t) bytes u h enough =
        then_made bytes 0 (read_values (read_value t) n bytes) (Value.array t) (
          read_values-Ends ctx m bounded (read_value t) (length bytes) n bytes
            (part-Steps fuel read_value t (length bytes) 0 r h (omega arith)) (omega arith))
    read_type-Ends unwrap (GoType.map k t) bytes u h enough =
        bind-Ends (Leaves 1 bytes) (Leaves 0 bytes) (read 1 bytes) _ (read-Ends 1 bytes) λ flag l.
          if-Ends (Leaves 0 bytes) (flag.0 == 0) _ _ (λ e. omega (arith, l))
            λ e.
              bind-Ends (Leaves 8 flag.1) (Leaves 0 bytes) (read 8 flag.1) _ (read-Ends 8 flag.1)
                λ n j. then_made bytes 0 _ (Value.map k t) (
                  weaken-Ends n.1 bytes _ (omega (arith, l, j)) (
                    read_entries-Ends ctx m bounded (read_value k) (read_value t) (length bytes)
                      (iterations n.0) no_entries n.1
                      (part-Steps fuel read_value k (length bytes) 0 r h (omega arith))
                      (part-Steps fuel read_value t (length bytes) 0 r h (omega arith))
                      (omega (arith, l, j))))
    read_type-Ends unwrap (GoType.struct name) bytes u h enough =
        read_struct-Ends name (ctx.types (GoType.struct name)) bytes refl h (omega arith)
    read_type-Ends unwrap (GoType.interface name) bytes u h enough =
        interface-Ends name unwrap bytes u h (omega arith)
    read_type-Ends unwrap (GoType.other name) bytes u h enough = tt
