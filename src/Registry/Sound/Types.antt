-- ===== src/Registry/Sound/Types.antt =====
-- Registrations of extensions, interfaces and node types keep the registries sound.
use mathlib.Core.Path.{subst}
use graphvent.Prelude.{
  ℕ, ◌≡◌, refl, sym, ap, ◌∙◌, Bool, true, false, ◌||◌, List, [], ◌∷◌, some, ◌==◌, ==_iff,
  Bool-cases, inl, inr,
}
use mathlib.Core.Option.{some-injective, none-ne-some}
use graphvent.Prelude.Maps.{Map, lookup, has, insert, visits-keys, lookup-insert, has-insert}
use graphvent.Serialize.Reading.{if_true, if_false}
use graphvent.Registry.{
  NodeFieldInfo, NodeInfo, FieldMapping, Registry, or_fault, unknown_extension, missing_field,
  duplicate_field, already_registered, nil_type, GqlType, VisibleField, Naming, gql_type,
}
use graphvent.Registry.Types.{
  register_extension, lacks_types, with_node_type, has_reserved, register_node_interface, Mapped,
  reverse_with, map_fields, register_node_type,
}
use graphvent.Registry.Fitting.{Fits}
use graphvent.Registry.Sound.{
  CoversFields, IsSound, Ensures, then_with-Ensures, Ensures-IsSound, Any, or_fault-Ensures,
  reject-Ensures,
}
use graphvent.Registry.Sound.Entries.{gql_type-Ensures}

abbrev Covered : Mapped → Type 0
Covered m =
    (name : ℕ) (f : NodeFieldInfo)
    → lookup name m.fields ≡ some f
    → has f.extension m.reverse_fields ≡ true

insert-Covered :
    (name : ℕ) (f : NodeFieldInfo) (mapping : FieldMapping) (m : Mapped)
    → f.extension ≡ mapping.extension
    → Covered m
    → Covered (record {
      fields = insert name f m.fields;
      reverse_fields = reverse_with mapping name m.reverse_fields;
    })
insert-Covered name f mapping m same h j g known = elim (Bool-cases (j == name)) [
  | inl t ↦
      let one : f ≡ g =
        some-injective f g
          (sym (if_true _ _ _ t) ∙ sym (lookup-insert name j f m.fields) ∙ known) in
      has-insert mapping.extension g.extension _ m.reverse_fields
      ∙ ap (λ b. b || has g.extension m.reverse_fields)
          ((==_iff g.extension mapping.extension).1 (ap (λ x. x.extension) (sym one) ∙ same))
  | inr n ↦
      has-insert mapping.extension g.extension _ m.reverse_fields
      ∙ ap (λ b. g.extension == mapping.extension || b)
          (h j g (sym (if_false _ _ _ n) ∙ sym (lookup-insert name j f m.fields) ∙ known))
      ∙ or_true (g.extension == mapping.extension)
]
  where
    or_true : (b : Bool) → (b || true) ≡ true
    or_true true = refl
    or_true false = refl

module _ (names : Naming) where
  map_fields-Covered :
      (mappings : Map FieldMapping) (m : Mapped) (reg : Registry)
      → IsSound names reg
      → Covered m
      → Ensures names Covered (map_fields names mappings m reg)
  unfolding map_fields
  map_fields-Covered [] m reg h c = (h, c)
  map_fields-Covered ((name, mapping) ∷ mappings) m reg h c =
      reject-Ensures names Covered (has name m.fields) duplicate_field reg _ h (
        then_with-Ensures names Any Covered
          (or_fault unknown_extension (lookup mapping.extension reg.extensions) reg) _
          (or_fault-Ensures names unknown_extension (lookup mapping.extension reg.extensions) reg h)
          λ ext_info reg1 h1 u1.
            then_with-Ensures names Any Covered
              (or_fault missing_field (lookup mapping.tag ext_info.fields) reg1) _
              (or_fault-Ensures names missing_field (lookup mapping.tag ext_info.fields) reg1 h1)
              λ ext_field reg2 h2 u2.
                then_with-Ensures names (Fits ext_field.type) Covered
                  (gql_type names ext_field.type ext_field.node_tag reg2) _
                  (gql_type-Ensures names ext_field.type ext_field.node_tag reg2 h2)
                  λ gql reg3 h3 u3.
                    map_fields-Covered mappings _ reg3 h3 (insert-Covered name _ mapping m refl c))

  empty_Covered : Covered (record { fields = []; reverse_fields = [] })
  unfolding lookup
  empty_Covered name f known = absurd (none-ne-some f known)

  with_node_type-IsSound :
      (info : NodeInfo) (reg : Registry)
      → CoversFields info
      → IsSound names reg
      → IsSound names (with_node_type info reg)
  with_node_type-IsSound info reg c h = record {
    coded = h.coded;
    reversed = h.reversed;
    origin = h.origin;
    fitting = h.fitting;
    covered = λ x other known. elim (Bool-cases (x == info.node_type)) [
      | inl t ↦
          subst {A = NodeInfo} (λ i. CoversFields i)
            (some-injective info other (
              sym (if_true _ _ _ t)
              ∙ sym (lookup-insert info.node_type x info reg.node_types)
              ∙ known))
            c
      | inr n ↦ h.covered x other (
          sym (if_false _ _ _ n) ∙ sym (lookup-insert info.node_type x info reg.node_types) ∙ known)
    ];
  }

  pub register_node_type-IsSound :
      (name : ℕ) (mappings : Map FieldMapping) (reg : Registry)
      → IsSound names reg
      → IsSound names (register_node_type names name mappings reg).0
  unfolding register_node_type
  register_node_type-IsSound name mappings reg h = Ensures-IsSound names Any _ (
      reject-Ensures names Any (has (names.node_type_for name) reg.node_types) already_registered
        reg _ h
        (reject-Ensures names Any (lacks_types names reg) nil_type reg _ h (
          then_with-Ensures names Covered Any
            (map_fields names mappings (record { fields = []; reverse_fields = [] }) reg) _
            (map_fields-Covered mappings _ reg h empty_Covered)
            λ m reg' h' c. (
              with_node_type-IsSound _ reg'
                  (λ field f known. visits-keys f.extension m.reverse_fields ∙ c field f known) h',
              tt,
            ))))

  pub register_extension-IsSound :
      (ext_type type : ℕ) (fs : List VisibleField) (reg : Registry)
      → IsSound names reg
      → IsSound names (register_extension ext_type type fs reg).0
  unfolding register_extension
  register_extension-IsSound ext_type type fs reg h = Ensures-IsSound names Any _ (
      reject-Ensures names Any (has ext_type reg.extensions) already_registered reg _ h (
        record {
          coded = h.coded;
          reversed = h.reversed;
          origin = h.origin;
          covered = h.covered;
          fitting = h.fitting;
        },
        tt,
      ))

  pub register_node_interface-IsSound :
      (reserved : List ℕ) (name : ℕ) (fields : Map GqlType) (reg : Registry)
      → IsSound names reg
      → IsSound names (register_node_interface names reserved name fields reg).0
  unfolding register_node_interface
  register_node_interface-IsSound reserved name fields reg h = Ensures-IsSound names Any _ (
      reject-Ensures names Any (has name reg.interfaces) already_registered reg _ h (
        reject-Ensures names Any (lacks_types names reg) nil_type reg _ h (
          reject-Ensures names Any (has_reserved reserved fields) duplicate_field reg _ h (
            record {
              coded = h.coded;
              reversed = h.reversed;
              origin = h.origin;
              covered = h.covered;
              fitting = h.fitting;
            },
            tt,
          ))))
