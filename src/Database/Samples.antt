-- ===== src/Database/Samples.antt =====
-- A store in a list, and a node with one extension.
use graphvent.Prelude.{
  ℕ, ◌≤◌, ◌≡◌, refl, sym, ap, ◌∙◌, true, List, [], ◌∷◌, ◌++◌, Option, none, some, replicate,
  Bool-cases, inl, inr, ◌==◌, ==_iff, min, if◌then◌else◌, arith,
}
use mathlib.Core.Option.{some-injective, none-ne-some}
use mathlib.Core.Path.{subst}
use graphvent.Prelude.Maps.{Map, lookup, has, insert}
use graphvent.Node.{at_time}
use graphvent.Registry.{ExtensionInfo}
use graphvent.Serialize.{uint8, GoType, Value, type_of}
use graphvent.Serialize.Bytes.{big_endian}
use graphvent.Serialize.Encoding.{encode, IsPlainAt, stack, HasStack}
use graphvent.Serialize.Reading.{IsReadable, size, if_true, if_false}
use graphvent.Serialize.Samples.{
  struct_info, test_context, some_fields, some_value, some_value-IsReadable,
}
use graphvent.Database.{Badger, DatabaseContext, StoredNode, BadgerDb, node_value}
use graphvent.Database.Staging.{KeyBytes, total}
use graphvent.Database.Entries.{field_entries, ext_entries, node_entries, IsStorable}
use graphvent.Database.Reloading.{IsLoadable, HasReadableHead, set_fields}
use graphvent.Database.Keys.{bytes_eq, IsHashed, HasDistinctTags}
use graphvent.Database.Commit.{newest, IsLawful}

abbrev pub memory : Badger
memory = record {
  Store = List KeyBytes;
  get = λ s k. newest k s none;
  accepts = λ ps key n. true;
  commit = λ es s. some (s ++ es);
}

newest-append :
    (k : List ℕ) (xs ys : List KeyBytes) (old : Option (List ℕ))
    → newest k (xs ++ ys) old ≡ newest k ys (newest k xs old)
newest-append k [] ys old = refl
newest-append k (x ∷ xs) ys old = newest-append k xs ys (if bytes_eq k x.0 then some x.1 else old)

pub memory-IsLawful : IsLawful memory
memory-IsLawful = record {
  get-commit = λ es s s' k e.
      ap (λ s. newest k s none) (sym (some-injective (s ++ es) s' e)) ∙ newest-append k s es none;
}

abbrev some_extension : ExtensionInfo
some_extension = record {
  ext_type = 7;
  type = 1;
  fields =
      (100, record { index = 0; type = GoType.string; node_tag = 0 })
      ∷ (101, record { index = 2; type = GoType.num uint8; node_tag = 0 })
      ∷ [];
}

abbrev pub db_context : DatabaseContext
db_context = record {
  serial = test_context;
  extensions = (7, some_extension) ∷ [];
  field_tag = λ tag. min tag 4096;
  node_struct = 0;
  queue_type = type_of some_value;
  zero_extension =
      λ type. (0, Value.string []) ∷ (1, Value.string []) ∷ (2, Value.num uint8 0) ∷ [];
  key_id = λ fs. 5;
}

abbrev pub some_ext : Map Value
some_ext = (0, Value.string (104 ∷ [])) ∷ (1, Value.string []) ∷ (2, Value.num uint8 200) ∷ []

abbrev pub some_node : StoredNode
some_node = record {
  id = 5;
  fields = some_fields;
  write_signal_queue = true;
  signal_queue = some_value;
  timeout_chan = at_time 3;
  extensions = (7, some_ext) ∷ [];
}

abbrev pub some_db : BadgerDb memory
some_db = record { store = []; buffer = replicate 300 9 }

pub some_node-IsStorable : IsStorable db_context some_node
unfolding IsPlainAt HasStack lookup
some_node-IsStorable = record {
  value = ((struct_info, refl, refl), (tt, ((tt, tt, (tt, tt, tt)), (tt, tt))));
  queue =
      ((tt, ((struct_info, refl, refl), (tt, ((tt, tt, (tt, tt, tt)), (tt, tt))))), ((tt, tt), tt));
  extensions = (
    (
      some_extension,
      refl,
      ((Value.string (104 ∷ []), refl, tt), ((Value.num uint8 200, refl, tt), tt)),
    ),
    tt,
  );
}

pub some_node-total : total (node_entries db_context some_node) ≤ 300
unfolding encode stack big_endian ext_entries field_entries lookup
some_node-total = omega arith

only_extension :
    (x : ℕ) (info : ExtensionInfo)
    → lookup x db_context.extensions ≡ some info
    → (x ≡ 7) × (some_extension ≡ info)
unfolding lookup
only_extension x info e = elim (Bool-cases (x == 7)) [
  | inl t ↦ ((==_iff x 7).0 t, some-injective some_extension info (sym (if_true _ _ _ t) ∙ e))
  | inr f ↦ absurd (none-ne-some info (sym (if_false _ _ _ f) ∙ e))
]

pub db_context-IsHashed : IsHashed db_context
db_context-IsHashed = record {
  small_tag = λ tag. omega arith;
  small_type = λ x info e. omega (arith, (only_extension x info e).0);
  distinct = λ x info e.
      subst {A = ExtensionInfo} (λ info. HasDistinctTags db_context.field_tag info.fields)
        (only_extension x info e).1 (((λ e. omega arith), tt), (tt, tt));
}

some_fields-IsReadable : IsReadable test_context (node_value db_context some_node)
unfolding IsReadable
some_fields-IsReadable = (
  refl,
  (
    struct_info,
    refl,
    refl,
    omega arith,
    refl,
    (
      omega arith,
      refl,
      (refl, omega arith),
      (omega arith, (omega arith, tt)),
      (
        omega arith,
        refl,
        (
          omega arith,
          (tt, ((refl, tt), tt)),
          (
            refl,
            refl,
            omega arith,
            omega arith,
            refl,
            (refl, refl, omega arith, omega arith, refl, tt),
          ),
        ),
        (omega arith, tt),
        (omega arith, refl, omega arith, tt, tt),
      ),
    ),
  ),
)

pub some_node-HasReadableHead : HasReadableHead db_context 20 some_node
unfolding size
some_node-HasReadableHead = record {
  id = refl;
  value = some_fields-IsReadable;
  value_size = omega arith;
  queue = some_value-IsReadable;
  queue_type = refl;
  queue_size = omega arith;
}

pub some_node-IsLoadable : IsLoadable db_context 20 some_node
unfolding IsReadable size lookup has set_fields insert
some_node-IsLoadable = record {
  head = some_node-HasReadableHead;
  list = (omega arith, (refl, omega arith, tt));
  list_size = omega arith;
  extensions = (
    (
      some_extension,
      refl,
      (
        (Value.string (104 ∷ []), refl, (refl, omega arith, omega arith)),
        ((Value.num uint8 200, refl, (refl, omega arith, omega arith)), tt),
      ),
    ),
    tt,
  );
  persistent = (
    (λ info e.
        ap
          (λ info.
            set_fields db_context 20 info.fields some_ext (db_context.zero_extension info.type))
          (sym (only_extension 7 info e).1)),
    tt,
  );
  unique = (refl, tt);
}
