-- ===== src/Registry/Sound/Entries.antt =====
-- Registrations of types keep the registries sound.
use graphvent.Prelude.{
  ℕ, ◌≡◌, refl, true, List, [], ◌∷◌, Option, none, some, ◌==◌, if◌then◌else◌, Bool, false,
}
use graphvent.Prelude.Maps.{has}
use graphvent.Registry.Fitting.{
  IsNoId, EntryFits, own, untyped, pairs_of, Fits, registered, interface, object, slice_of,
  array_of, pointer_to,
}
use graphvent.Serialize.{GoType}
use graphvent.Registry.{
  list, interface_type, node_object, unknown_node_type, gql_node_id, TypeEntry, Registry, valid,
  invalid, Registering, ◌then_with◌, or_fault, invalid_node_tag, already_registered, GqlType,
  VisibleField, Naming, map_tags, map_entry, gql_or, gql_list, gql_type, unless_registered,
  register_scalar, field_types, register_object, register_object_no_gql,
}
use graphvent.Registry.Sound.{
  Any, IsSound, Ensures, then_with-Ensures, Ensures-IsSound, or_fault-Ensures, enter_type-IsSound,
}

module _ (names : Naming) where
  gql_list-Ensures :
      (t whole : GoType) (reg : Registry)
      → IsSound names reg
      → ((gql : GqlType) → EntryFits t gql → Fits whole (list gql))
      → Ensures names (Fits whole) (gql_list names (reg.types t) reg)
  gql_list-Ensures t whole reg h lists = by_entry (reg.types t) (h.fitting t)
    where
      by_entry :
          (o : Option TypeEntry)
          → ((e : TypeEntry) → o ≡ some e → EntryFits t e.gql)
          → Ensures names (Fits whole) (gql_list names o reg)
      by_entry none k = h
      by_entry (some e) k = (h, lists e.gql (k e refl))

  gql_or-Ensures :
      (t : GoType) (r : Registering GqlType) (reg : Registry)
      → IsNoId t
      → IsSound names reg
      → Ensures names (Fits t) r
      → Ensures names (Fits t) (gql_or names (reg.types t) r reg)
  gql_or-Ensures t r reg n h k = by_entry (reg.types t) (h.fitting t)
    where
      by_entry :
          (o : Option TypeEntry)
          → ((e : TypeEntry) → o ≡ some e → EntryFits t e.gql)
          → Ensures names (Fits t) (gql_or names o r reg)
      by_entry none f = k
      by_entry (some e) f = (h, registered n (f e refl))

  gql_node_id-Ensures :
      (tag : ℕ) (reg : Registry)
      → IsSound names reg
      → Ensures names (Fits GoType.id) (reg, gql_node_id names tag reg)
  unfolding gql_node_id
  gql_node_id-Ensures tag reg h = by_name (if tag == names.no_tag then names.base else tag)
    where
      or_node :
          (name : ℕ) (b : Bool)
          → Ensures names
              (Fits GoType.id)
              (reg, if b then valid (node_object name) else invalid unknown_node_type)
      or_node name true = (h, object name)
      or_node name false = h

      or_interface :
          (name : ℕ) (b c : Bool)
          → Ensures names (Fits GoType.id) (
            reg,
            if b
                then valid (interface_type name)
                else if c
                then valid (node_object (names.node_type_for name))
                else invalid unknown_node_type,
          )
      or_interface name true c = (h, interface name)
      or_interface name false c = or_node (names.node_type_for name) c

      by_name :
          (name : ℕ)
          → Ensures names (Fits GoType.id) (
            reg,
            if has name reg.interfaces
                then valid (interface_type name)
                else if has (names.node_type_for name) reg.node_types
                then valid (node_object (names.node_type_for name))
                else invalid unknown_node_type,
          )
      by_name name =
          or_interface name (has name reg.interfaces)
            (has (names.node_type_for name) reg.node_types)

  pub gql_type-Ensures :
      (t : GoType) (tag : ℕ) (reg : Registry)
      → IsSound names reg
      → Ensures names (Fits t) (gql_type names t tag reg)
  unfolding gql_type
  gql_type-Ensures GoType.id tag reg h = gql_node_id-Ensures tag reg h
  gql_type-Ensures (GoType.array n t) tag reg h =
      gql_or-Ensures (GoType.array n t) _ reg tt h
        (gql_list-Ensures t (GoType.array n t) reg h (λ g f. array_of n f))
  gql_type-Ensures (GoType.slice t) tag reg h =
      gql_or-Ensures (GoType.slice t) _ reg tt h
        (gql_list-Ensures t (GoType.slice t) reg h (λ g f. slice_of f))
  gql_type-Ensures (GoType.map k t) tag reg h = gql_or-Ensures (GoType.map k t) _ reg tt h (
      then_with-Ensures names Any (Fits (GoType.map k t))
        (or_fault invalid_node_tag (map_tags names tag) reg) _
        (or_fault-Ensures names invalid_node_tag (map_tags names tag) reg h)
        λ tags reg1 h1 any.
          then_with-Ensures names (Fits k) (Fits (GoType.map k t)) (gql_type names k tags.0 reg1) _
            (gql_type-Ensures k tags.0 reg1 h1)
            λ key reg2 h2 f.
              then_with-Ensures names (Fits t) (Fits (GoType.map k t))
                (gql_type names t tags.1 reg2) _ (gql_type-Ensures t tags.1 reg2 h2)
                λ val reg3 h3 g. (
                  enter_type-IsSound names (GoType.map k t)
                      (map_entry names (GoType.map k t) key val) reg3 refl (pairs_of f g) h3,
                  registered tt (pairs_of f g),
                ))
  gql_type-Ensures (GoType.pointer t) tag reg h =
      gql_or-Ensures (GoType.pointer t) _ reg tt h
        (through (gql_type names t tag reg) (gql_type-Ensures t tag reg h))
    where
      through :
          (r : Registering GqlType)
          → Ensures names (Fits t) r
          → Ensures names (Fits (GoType.pointer t)) r
      through (reg, valid g) h = (h.0, pointer_to h.1)
      through (reg, invalid e) h = h
  gql_type-Ensures GoType.bool tag reg h = gql_or-Ensures GoType.bool _ reg tt h h
  gql_type-Ensures (GoType.num k) tag reg h = gql_or-Ensures (GoType.num k) _ reg tt h h
  gql_type-Ensures GoType.string tag reg h = gql_or-Ensures GoType.string _ reg tt h h
  gql_type-Ensures (GoType.struct n) tag reg h = gql_or-Ensures (GoType.struct n) _ reg tt h h
  gql_type-Ensures (GoType.interface n) tag reg h = gql_or-Ensures (GoType.interface n) _ reg tt h h
  gql_type-Ensures (GoType.other n) tag reg h = gql_or-Ensures (GoType.other n) _ reg tt h h

  pub gql_type-IsSound :
      (t : GoType) (tag : ℕ) (reg : Registry)
      → IsSound names reg
      → IsSound names (gql_type names t tag reg).0
  gql_type-IsSound t tag reg h =
      Ensures-IsSound names (Fits t) (gql_type names t tag reg) (gql_type-Ensures t tag reg h)

  unless_registered-IsSound :
      (t : GoType) (reg : Registry) (f : Registering (Unit {0}))
      → IsSound names reg
      → IsSound names f.0
      → IsSound names (unless_registered names t reg f).0
  unless_registered-IsSound t reg f h k = by_entry (reg.types t)
    where
      by_entry :
          (o : Option TypeEntry)
          → IsSound names
              (elim o as (λ x. Registering (Unit {0})) [
                | none ↦ f
                | some entry ↦ (reg, invalid already_registered)
              ]).0
      by_entry none = k
      by_entry (some e) = h

  field_types-Ensures :
      (fs : List VisibleField) (reg : Registry)
      → IsSound names reg
      → Ensures names Any (field_types names fs reg)
  unfolding field_types
  field_types-Ensures [] reg h = (h, tt)
  field_types-Ensures (f ∷ fs) reg h = by_tag (field_types-Ensures fs) f.gv
    where
      by_tag :
          ((reg : Registry) → IsSound names reg → Ensures names Any (field_types names fs reg))
          → (o : Option ℕ)
          → Ensures names Any (elim o as (λ x. Registering (Unit {0})) [
            | none ↦ field_types names fs reg
            | some gv ↦
                gql_type names f.type f.node reg then_with λ gql reg'. field_types names fs reg'
          ])
      by_tag rest none = rest reg h
      by_tag rest (some gv) =
          then_with-Ensures names (Fits f.type) Any (gql_type names f.type f.node reg) _
            (gql_type-Ensures f.type f.node reg h) (λ gql reg' h' g. rest reg' h')

  pub register_scalar-IsSound :
      (t : GoType) (reg : Registry)
      → IsSound names reg
      → IsSound names (register_scalar names t reg).0
  unfolding register_scalar
  register_scalar-IsSound t reg h =
      unless_registered-IsSound t reg _ h (enter_type-IsSound names t _ reg refl (own t) h)

  pub register_object-IsSound :
      (t : GoType) (fs : List VisibleField) (post : Option ℕ) (reg : Registry)
      → IsSound names reg
      → IsSound names (register_object names t fs post reg).0
  unfolding register_object
  register_object-IsSound t fs post reg h = unless_registered-IsSound t reg _ h (
      Ensures-IsSound names Any _ (
        then_with-Ensures names Any Any (field_types names fs reg) _ (field_types-Ensures fs reg h)
          (λ u reg' h' any. (enter_type-IsSound names t _ reg' refl (own t) h', tt))))

  pub register_object_no_gql-IsSound :
      (t : GoType) (fs : List VisibleField) (post : Option ℕ) (reg : Registry)
      → IsSound names reg
      → IsSound names (register_object_no_gql names t fs post reg).0
  unfolding register_object_no_gql
  register_object_no_gql-IsSound t fs post reg h =
      unless_registered-IsSound t reg _ h (enter_type-IsSound names t _ reg refl (untyped t) h)
