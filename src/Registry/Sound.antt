-- ===== src/Registry/Sound.antt =====
-- What registrations keep of the registries.
pub mod Entries
pub mod Types
use graphvent.Prelude.{
  ℕ, ◌≡◌, refl, sym, ap, ◌∙◌, true, List, [], ◌∷◌, Option, none, some, ◌==◌, if◌then◌else◌, ==_iff,
  Bool-cases, inl, inr, Bool, false,
}
use mathlib.Core.Option.{some-injective}
use mathlib.Core.Path.{subst}
use graphvent.Prelude.Maps.{lookup, visits, has}
use graphvent.Serialize.{GoType, GoType-discrete}
use graphvent.Registry.{
  list, interface_type, node_object, unknown_node_type, gql_node_id, TypeEntry, NodeFieldInfo,
  NodeInfo, Registry, RegistryFault, valid, invalid, Registering, ◌then_with◌, or_fault,
  invalid_node_tag, already_registered, GqlType, VisibleField, Naming, enter_type, map_tags,
  map_entry, gql_or, gql_list, gql_type, unless_registered, register_scalar, field_types,
  register_object, register_object_no_gql,
}
use graphvent.Registry.Types.{reject}
use graphvent.Registry.Fitting.{
  EntryFits, own, untyped, pairs_of, Fits, registered, interface, object, slice_of, array_of,
  pointer_to,
}
use graphvent.Serialize.Reading.{if_true, if_false}

-- Every field of a node type is of an extension that it requires.
abbrev pub CoversFields : NodeInfo → Type 0
CoversFields info =
    (name : ℕ) (f : NodeFieldInfo)
    → lookup name info.fields ≡ some f
    → visits f.extension info.required_extensions ≡ true

abbrev pub Any : {A : Type 0} → A → Type 0
Any a = Unit

module _ (names : Naming) where
  abbrev pub IsRegistered : GoType → Registry → Type 0
  IsRegistered t reg = (entry : TypeEntry) × (reg.types t ≡ some entry)

  -- The entry of every type has the hash of its name as its code. The code of a registered type leads
  -- to a type, and one that leads to a type is its hash and leads to a registered one.
  pub record IsSound (reg : Registry) : Type 0 where
    pub coded :
        (t : GoType) (entry : TypeEntry)
        → reg.types t ≡ some entry
        → entry.info.serialized ≡ names.serialize_type t
    pub reversed :
        (t : GoType) (entry : TypeEntry)
        → reg.types t ≡ some entry
        → (u : GoType) × (reg.types_reverse entry.info.serialized ≡ some u)
    pub origin :
        (code : ℕ) (t : GoType)
        → reg.types_reverse code ≡ some t
        → (names.serialize_type t ≡ code) × IsRegistered t reg
    pub fitting :
        (t : GoType) (entry : TypeEntry) → reg.types t ≡ some entry → EntryFits t entry.gql
    pub covered :
        (x : ℕ) (info : NodeInfo) → lookup x reg.node_types ≡ some info → CoversFields info

  -- Sound registries, and what was returned, if it was, has the property.
  abbrev pub Ensures : {A : Type 0} → (A → Type 0) → Registering A → Type 0
  Ensures P (reg, valid a) = IsSound reg × P a
  Ensures P (reg, invalid e) = IsSound reg

  pub then_with-Ensures :
      {A B : Type 0} (P : A → Type 0) (Q : B → Type 0) (r : Registering A)
      (f : A → Registry → Registering B)
      → Ensures P r
      → ((a : A) (reg : Registry) → IsSound reg → P a → Ensures Q (f a reg))
      → Ensures Q (r then_with f)
  then_with-Ensures P Q (reg, valid a) f h k = k a reg h.0 h.1
  then_with-Ensures P Q (reg, invalid e) f h k = h

  pub Ensures-IsSound :
      {A : Type 0} (P : A → Type 0) (r : Registering A) → Ensures P r → IsSound r.0
  Ensures-IsSound P (reg, valid a) h = h.0
  Ensures-IsSound P (reg, invalid e) h = h

  pub or_fault-Ensures :
      {A : Type 0} (e : RegistryFault) (o : Option A) (reg : Registry)
      → IsSound reg
      → Ensures Any (or_fault e o reg)
  or_fault-Ensures e none reg h = h
  or_fault-Ensures e (some a) reg h = (h, tt)

  pub reject-Ensures :
      {A : Type 0} (P : A → Type 0) (b : Bool) (e : RegistryFault) (reg : Registry)
      (r : Registering A)
      → IsSound reg
      → Ensures P r
      → Ensures P (reject b e reg r)
  reject-Ensures P true e reg r h k = h
  reject-Ensures P false e reg r h k = k

  own_type :
      (t : GoType) (entry : TypeEntry) (reg : Registry) (d : Dec (t ≡ t))
      → elim d [ yes same ↦ some entry | no differ ↦ reg.types t ] ≡ some entry
  own_type t entry reg (yes same) = refl
  own_type t entry reg (no differ) = absurd (differ refl)

  -- What is registered stays so.
  stays_registered :
      (t : GoType) (entry : TypeEntry) (reg : Registry) (u : GoType) (d : Dec (u ≡ t))
      → IsRegistered u reg
      → (e : TypeEntry) × (elim d [ yes same ↦ some entry | no differ ↦ reg.types u ] ≡ some e)
  stays_registered t entry reg u (yes same) h = (entry, refl)
  stays_registered t entry reg u (no differ) h = h

  pub enter_type-IsSound :
      (t : GoType) (entry : TypeEntry) (reg : Registry)
      → entry.info.serialized ≡ names.serialize_type t
      → EntryFits t entry.gql
      → IsSound reg
      → IsSound (enter_type names t entry reg)
  unfolding enter_type
  enter_type-IsSound t entry reg code fits h = record {
    fitting = λ u e known. fitting_at u e (GoType-discrete u t) known;
    coded = λ u e known. coded_at u e (GoType-discrete u t) known;
    reversed = λ u e known. reversed_at u e (GoType-discrete u t) known;
    origin = λ c u leads. elim (Bool-cases (c == entry.info.serialized)) [
      | inl y ↦
          let one : t ≡ u = some-injective t u (sym (if_true _ _ _ y) ∙ leads) in
          subst {A = GoType}
            (λ u. (names.serialize_type u ≡ c) × IsRegistered u (enter_type names t entry reg)) one
            (
              sym code ∙ sym ((==_iff c entry.info.serialized).0 y),
              (entry, own_type t entry reg (GoType-discrete t t)),
            )
      | inr n ↦
          let old = h.origin c u (sym (if_false _ _ _ n) ∙ leads) in
          (old.0, stays_registered t entry reg u (GoType-discrete u t) old.1)
    ];
    covered = h.covered;
  }
    where
      fitting_at :
          (u : GoType) (e : TypeEntry) (d : Dec (u ≡ t))
          → elim d [ yes same ↦ some entry | no differ ↦ reg.types u ] ≡ some e
          → EntryFits u e.gql
      fitting_at u e (yes same) known =
          subst {A = GoType} (λ v. EntryFits v e.gql) (sym same)
            (subst {A = TypeEntry} (λ x. EntryFits t x.gql) (some-injective entry e known) fits)
      fitting_at u e (no differ) known = h.fitting u e known

      coded_at :
          (u : GoType) (e : TypeEntry) (d : Dec (u ≡ t))
          → elim d [ yes same ↦ some entry | no differ ↦ reg.types u ] ≡ some e
          → e.info.serialized ≡ names.serialize_type u
      coded_at u e (yes same) known = cc
      coded_at u e (no differ) known = h.coded u e known

      leads_on :
          (c : ℕ) (o : Option GoType)
          → (w : GoType) × (o ≡ some w)
          → (w : GoType) × ((if c == entry.info.serialized then some t else o) ≡ some w)
      leads_on c o w = elim (Bool-cases (c == entry.info.serialized)) [
        | inl y ↦ (t, if_true _ _ _ y)
        | inr n ↦ (w.0, if_false _ _ _ n ∙ w.1)
      ]

      reversed_at :
          (u : GoType) (e : TypeEntry) (d : Dec (u ≡ t))
          → elim d [ yes same ↦ some entry | no differ ↦ reg.types u ] ≡ some e
          → (w : GoType) × ((if e.info.serialized == entry.info.serialized
                then some t
                else reg.types_reverse e.info.serialized)
              ≡ some w)
      reversed_at u e (yes same) known =
          let one : e.info.serialized ≡ entry.info.serialized =
            ap (λ x. x.info.serialized) (sym (some-injective entry e known)) in
          (t, if_true _ _ _ ((==_iff e.info.serialized entry.info.serialized).1 one))
      reversed_at u e (no differ) known =
          leads_on e.info.serialized (reg.types_reverse e.info.serialized) (h.reversed u e known)
