-- ===== src/Gql/Tests.antt =====
-- The theorems on response channels and on resolved nodes applied to some.
use mathlib.Core.Option.{some-injective, none-ne-some}
use mathlib.Core.Path.{subst}
use graphvent.Prelude.{
  ℕ, ◌≡◌, refl, sym, ◌∙◌, ◌⊎◌, false, List, [], ◌∷◌, none, some, String, str_eq, eq_iff,
  if◌then◌else◌, Bool-cases, inl, inr, arith,
}
use graphvent.Prelude.Maps.{lookup, insert}
use graphvent.Signal.{FieldValue, value, Signal, success, error, read_result}
use graphvent.Serialize.Reading.{if_true, if_false}
use graphvent.Gql.{GqlExt, get_response_channel}
use graphvent.Gql.Channels.{first_answer, process_signals}
use graphvent.Gql.Channels.First.{gql_process-first_answer}
use graphvent.Gql.Resolve.{
  Data, get_field, put_field, drop_field, drop_fields, missing_fields, merge, NodeResult, NodeCache,
  Source, Response, resolve_node, get_fields, selected, field, inline_fragment, selection,
  no_selections,
}
use graphvent.Gql.Resolve.Fresh.{IsCached}
use graphvent.Gql.Resolve.Current.{Answers, IsRead, resolve_node-IsCurrent}

abbrev some_ext : GqlExt
some_ext = record { subscriptions = []; resolver_response = []; channels = []; next_channel = 4 }

abbrev some_signals : List Signal
some_signals = success 20 8 ∷ error 21 7 "late" ∷ read_result 22 7 5 9 [] ∷ []

gql_process-first_answer_example :
    lookup
      (get_response_channel 7 some_ext).1
      (process_signals
        (λ cache node. false)
        some_signals
        (get_response_channel 7 some_ext).0).channels
    ≡ some (first_answer 7 some_signals)
unfolding lookup
gql_process-first_answer_example =
    gql_process-first_answer (λ cache node. false) 7 some_signals some_ext
      (λ q c e. absurd (none-ne-some c e))

first_answer_is : first_answer 7 some_signals ≡ error 21 7 "late" ∷ []
first_answer_is = refl

-- ID and Type are left out, and an inline fragment counts with its fields.
selected_names :
    get_fields (
      selection (field "ID" no_selections) (
        selection
          (inline_fragment (selection (field "state" no_selections) no_selections))
          (selection (field "owner" no_selections) no_selections)))
    ≡ "state" ∷ "owner" ∷ []
unfolding get_fields selected
selected_names = refl

abbrev some_cache : NodeCache
some_cache =
    (
      5,
      record {
        node_id = 5;
        node_type = 9;
        data_map = ("state", value 1) ∷ ("owner", value 2) ∷ [];
      },
    )
    ∷ []

-- A node that answers a read of its state alone.
abbrev state_only : List String → Response
state_only (name ∷ []) = if str_eq name "state" then some (9, ("state", value 3) ∷ []) else none
state_only asked = none

abbrev state_data : ℕ × Data
state_data = (9, ("state", value 3) ∷ [])

state_only-Answers :
    (asked : List String) (response : ℕ × Data)
    → state_only asked ≡ some response
    → Answers asked response.1
unfolding get_field
state_only-Answers [] response e = absurd (none-ne-some response e)
state_only-Answers (name ∷ []) response e = elim (Bool-cases (str_eq name "state")) [
  | inl t ↦
      subst {A = ℕ × Data} (λ r. Answers (name ∷ []) r.1)
        (some-injective state_data response (sym (if_true _ _ _ t) ∙ e))
        ((refl, tt), λ k. ground (arith, t, eq_iff name "state", eq_iff k "state", eq_iff k name))
  | inr f ↦ absurd (none-ne-some response (sym (if_false _ _ _ f) ∙ e))
]
state_only-Answers (name ∷ other ∷ asked) response e = absurd (none-ne-some response e)

abbrev current_node : NodeResult
current_node = record {
  node_id = 5;
  node_type = 9;
  data_map = ("owner", value 2) ∷ ("state", value 3) ∷ [];
}

abbrev status_of_5 : Source
status_of_5 = some (5, "state" ∷ [])

resolved_current :
    (resolve_node status_of_5 5 ("owner" ∷ "state" ∷ []) state_only some_cache).result
    ≡ some current_node
unfolding resolve_node lookup insert get_field put_field drop_field drop_fields missing_fields merge
resolved_current = refl

resolve_node-IsCurrent_example :
    (v : FieldValue) × (get_field "state" current_node.data_map ≡ some v)
    × (IsRead "state" v state_only
          (resolve_node status_of_5 5 ("owner" ∷ "state" ∷ []) state_only some_cache)
        ⊎ IsCached status_of_5 5 "state" v some_cache)
resolve_node-IsCurrent_example =
    resolve_node-IsCurrent status_of_5 5 "state" ("owner" ∷ "state" ∷ []) state_only some_cache
      current_node state_only-Answers refl resolved_current
