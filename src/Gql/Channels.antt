-- ===== src/Gql/Channels.antt =====
-- A response channel that waits, and one that has an answer.
pub mod First
use mathlib.Core.Path.{subst}
use graphvent.Prelude.{
  ℕ, suc, ◌<◌, ◌≡◌, ◌≢◌, refl, sym, ap, ap₂, ◌∙◌, Bool, true, false, List, [], ◌∷◌, ◌++◌, Option,
  none, some, length, ltb, ◌==◌, if◌then◌else◌, ==_iff, ==_ne, ==_refl, Bool-cases, Option-cases,
  inl, inr, arith,
}
use mathlib.Core.Option.{some-injective, none-ne-some}
use graphvent.Prelude.Maps.{Map, lookup, insert, delete, lookup-insert, lookup-delete}
use graphvent.Signal.{
  NodeId, Uuid, Signal, timeout, success, error, acl_timeout, status, link, lock, unlock, read,
  read_result, loaded, unloaded,
}
use graphvent.Serialize.Reading.{if_true, if_false}
use graphvent.Gql.{
  GqlExt, find_response_channel, get_response_channel, without_response, free_response_channel,
  offer, or_empty_channel, forward, gql_process,
}

-- The signals that are forwarded to the resolver that waits for a request.
abbrev pub forwarded_to : Uuid → Signal → Bool
forwarded_to req (success id r) = r == req
forwarded_to req (error id r text) = r == req
forwarded_to req (read_result id r node type fields) = r == req
forwarded_to req _ = false

abbrev pub first_answer : Uuid → List Signal → List Signal
first_answer req [] = []
first_answer req (s ∷ ss) = if forwarded_to req s then s ∷ [] else first_answer req ss

abbrev pub process_signals : (ℕ → NodeId → Bool) → List Signal → GqlExt → GqlExt
process_signals cached [] ext = ext
process_signals cached (s ∷ ss) ext = process_signals cached ss (gql_process cached s ext)

module _ (req : Uuid) (c : ℕ) where
  -- No other request has the channel.
  abbrev pub Alone : GqlExt → Type 0
  Alone ext = (q : Uuid) → lookup q ext.resolver_response ≡ some c → q ≡ req

  -- The channel is empty and still registered, or holds an answer.
  pub record IsWaiting (ext : GqlExt) : Type 0 where
    pub empty : lookup c ext.channels ≡ some []
    pub registered : lookup req ext.resolver_response ≡ some c
    pub alone : Alone ext

  pub record IsAnswered (s : Signal) (ext : GqlExt) : Type 0 where
    pub full : lookup c ext.channels ≡ some (s ∷ [])
    pub alone : Alone ext

  pub without_response-lookup :
      (r q : Uuid) (o : Option ℕ) (ext : GqlExt)
      → lookup q (without_response r o ext).resolver_response ≡ some c
      → lookup q ext.resolver_response ≡ some c
  without_response-lookup r q none ext h = h
  without_response-lookup r q (some d) ext h = elim (Bool-cases (q == r)) [
    | inl t ↦
        absurd
          (none-ne-some c (sym (lookup-delete r q ext.resolver_response ∙ if_true _ _ _ t) ∙ h))
    | inr f ↦ sym (lookup-delete r q ext.resolver_response ∙ if_false _ _ _ f) ∙ h
  ]

  pub without_response-channels :
      (r : Uuid) (o : Option ℕ) (ext : GqlExt) → (without_response r o ext).channels ≡ ext.channels
  without_response-channels r none ext = refl
  without_response-channels r (some d) ext = refl

  pub without_response-other :
      (r : Uuid) (o : Option ℕ) (ext : GqlExt)
      → (req == r) ≡ false
      → lookup req ext.resolver_response ≡ some c
      → lookup req (without_response r o ext).resolver_response ≡ some c
  without_response-other r none ext n h = h
  without_response-other r (some d) ext n h =
      lookup-delete r req ext.resolver_response ∙ if_false _ _ _ n ∙ h

  pub forward_resolver :
      (s : Signal) (o : Option ℕ) (ext : GqlExt)
      → (forward s o ext).resolver_response ≡ ext.resolver_response
  forward_resolver s none ext = refl
  forward_resolver s (some d) ext = refl

  -- A signal for another channel, and one for a channel that is full.
  pub forward_other :
      (s : Signal) (o : Option ℕ) (ext : GqlExt)
      → o ≢ some c
      → lookup c (forward s o ext).channels ≡ lookup c ext.channels
  forward_other s none ext n = refl
  forward_other s (some d) ext n =
      lookup-insert d c _ ext.channels ∙ if_false _ _ _ (==_ne c d (λ e. n (ap some (sym e))))

  pub forward_to :
      (s : Signal) (buffer : List Signal) (ext : GqlExt)
      → lookup c ext.channels ≡ some buffer
      → lookup c (forward s (some c) ext).channels ≡ some (offer 1 s buffer)
  forward_to s buffer ext h =
      lookup-insert c c _ ext.channels
      ∙ if_true _ _ _ (==_refl c)
      ∙ ap (λ o. some (offer 1 s (or_empty_channel o))) h

  forward_full :
      (t s : Signal) (o : Option ℕ) (ext : GqlExt)
      → lookup c ext.channels ≡ some (s ∷ [])
      → lookup c (forward t o ext).channels ≡ some (s ∷ [])
  forward_full t s none ext h = h
  forward_full t s (some d) ext h = elim (Bool-cases (c == d)) [
    | inl e ↦
        lookup-insert d c _ ext.channels
        ∙ if_true _ _ _ e
        ∙ ap (λ o. some (offer 1 t (or_empty_channel o)))
            (ap (λ i. lookup i ext.channels) (sym ((==_iff c d).0 e)) ∙ h)
    | inr n ↦ lookup-insert d c _ ext.channels ∙ if_false _ _ _ n ∙ h
  ]

  -- A forward, behind which the request may have been freed.
  forward-IsAnswered :
      (t s : Signal) (o : Option ℕ) (ext old : GqlExt)
      → ext.channels ≡ old.channels
      → ((q : Uuid)
          → lookup q ext.resolver_response ≡ some c
          → lookup q old.resolver_response ≡ some c)
      → IsAnswered s old
      → IsAnswered s (forward t o ext)
  forward-IsAnswered t s o ext old same fewer h = record {
    full = forward_full t s o ext (ap (lookup c) same ∙ h.full);
    alone = λ q e. h.alone q (fewer q (ap (lookup q) (sym (forward_resolver t o ext)) ∙ e));
  }

  freed-IsAnswered :
      (t s : Signal) (r : Uuid) (ext : GqlExt)
      → IsAnswered s ext
      → IsAnswered s (forward t (free_response_channel r ext).1 (free_response_channel r ext).0)
  unfolding free_response_channel
  freed-IsAnswered t s r ext h =
      let o : Option ℕ = find_response_channel r ext in
      forward-IsAnswered t s o (without_response r o ext) ext (without_response-channels r o ext)
        (λ q. without_response-lookup r q o ext) h

  pub gql_process-IsAnswered :
      (cached : ℕ → NodeId → Bool) (t s : Signal) (ext : GqlExt)
      → IsAnswered s ext
      → IsAnswered s (gql_process cached t ext)
  unfolding gql_process
  gql_process-IsAnswered cached (success id r) s ext h = freed-IsAnswered (success id r) s r ext h
  gql_process-IsAnswered cached (error id r text) s ext h =
      freed-IsAnswered (error id r text) s r ext h
  gql_process-IsAnswered cached (read_result id r node type fields) s ext h =
      forward-IsAnswered (read_result id r node type fields) s (find_response_channel r ext) ext ext
        refl (λ q e. e) h
  gql_process-IsAnswered cached (status id source fields) s ext h = record {
    full = h.full;
    alone = h.alone;
  }
  gql_process-IsAnswered cached (timeout id r) s ext h = h
  gql_process-IsAnswered cached (acl_timeout id r) s ext h = h
  gql_process-IsAnswered cached (link id node action) s ext h = h
  gql_process-IsAnswered cached (lock id) s ext h = h
  gql_process-IsAnswered cached (unlock id) s ext h = h
  gql_process-IsAnswered cached (read id fields) s ext h = h
  gql_process-IsAnswered cached (loaded id) s ext h = h
  gql_process-IsAnswered cached (unloaded id) s ext h = h
