-- ===== src/Gql/Channels/First.antt =====
-- What a resolver finds in its response channel.
use mathlib.Core.Path.{subst}
use graphvent.Prelude.{
  ℕ, ◌<◌, ◌≡◌, ◌≢◌, refl, sym, ap, ◌∙◌, Bool, true, false, List, [], ◌∷◌, Option, some, ◌==◌,
  if◌then◌else◌, ==_iff, ==_ne, ==_refl, Bool-cases, inl, inr, arith,
}
use graphvent.Prelude.Maps.{lookup, lookup-insert}
use graphvent.Signal.{
  NodeId, Uuid, Signal, timeout, success, error, acl_timeout, status, link, lock, unlock, read,
  read_result, loaded, unloaded,
}
use graphvent.Serialize.Reading.{if_true, if_false}
use graphvent.Gql.{
  GqlExt, find_response_channel, get_response_channel, without_response, free_response_channel,
  forward, gql_process,
}
use graphvent.Gql.Channels.{
  forwarded_to, first_answer, process_signals, IsWaiting, IsAnswered, without_response-lookup,
  without_response-channels, without_response-other, forward_resolver, forward_other, forward_to,
  gql_process-IsAnswered,
}

module _ (req : Uuid) (c : ℕ) where
  -- Behind a signal that was forwarded, or was not.
  abbrev After : Bool → Signal → GqlExt → Type 0
  After true s ext = IsAnswered req c s ext
  After false s ext = IsWaiting req c ext

  along_eq :
      (b : Bool) (b' : Bool) (s : Signal) (ext : GqlExt) → b ≡ b' → After b' s ext → After b s ext
  along_eq b b' s ext e h = subst {A = Bool} (λ x. After x s ext) (sym e) h

  -- The channel of another request is another channel.
  other_channel :
      (r : Uuid) (ext : GqlExt)
      → IsWaiting req c ext
      → (r == req) ≡ false
      → lookup r ext.resolver_response ≢ some c
  other_channel r ext h n e = ground (arith, h.alone r e, n)

  forward_waiting :
      (t : Signal) (r : Uuid) (ext old : GqlExt)
      → IsWaiting req c old
      → ext.channels ≡ old.channels
      → ((q : Uuid)
          → lookup q ext.resolver_response ≡ some c
          → lookup q old.resolver_response ≡ some c)
      → ((req == r) ≡ false → lookup req ext.resolver_response ≡ some c)
      → After (r == req) t (forward t (lookup r old.resolver_response) ext)
  forward_waiting t r ext old h same fewer kept = elim (Bool-cases (r == req)) [
    | inl e ↦
        let mine : lookup r old.resolver_response ≡ some c =
          ap (λ q. lookup q old.resolver_response) ((==_iff r req).0 e) ∙ h.registered in
        along_eq (r == req) true t _ e (
          subst {A = Option ℕ} (λ o. IsAnswered req c t (forward t o ext)) (sym mine)
            (record {
              full = forward_to req c t [] ext (ap (lookup c) same ∙ h.empty);
              alone = λ q k. h.alone q (fewer q k);
            }))
    | inr n ↦ along_eq (r == req) false t _ n (record {
      empty =
          forward_other req c t (lookup r old.resolver_response) ext (other_channel r old h n)
          ∙ ap (lookup c) same
          ∙ h.empty;
      registered =
          ap (lookup req) (forward_resolver req c t (lookup r old.resolver_response) ext)
          ∙ kept (==_ne req r (λ e. ground (arith, n, ==_iff r req)));
      alone = λ q k. h.alone q (
          fewer q (
            ap (lookup q) (sym (forward_resolver req c t (lookup r old.resolver_response) ext))
            ∙ k));
    })
  ]

  freed_waiting :
      (t : Signal) (r : Uuid) (ext : GqlExt)
      → IsWaiting req c ext
      → After
          (r == req)
          t
          (forward t (free_response_channel r ext).1 (free_response_channel r ext).0)
  unfolding free_response_channel
  freed_waiting t r ext h =
      let o : Option ℕ = find_response_channel r ext in
      forward_waiting t r (without_response r o ext) ext h (without_response-channels req c r o ext)
        (λ q. without_response-lookup req c r q o ext)
        (λ n. without_response-other req c r o ext n h.registered)

  waiting_goes_on :
      (cached : ℕ → NodeId → Bool) (t : Signal) (ext : GqlExt)
      → IsWaiting req c ext
      → After (forwarded_to req t) t (gql_process cached t ext)
  unfolding gql_process
  waiting_goes_on cached (success id r) ext h = freed_waiting (success id r) r ext h
  waiting_goes_on cached (error id r text) ext h = freed_waiting (error id r text) r ext h
  waiting_goes_on cached (read_result id r node type fields) ext h =
      forward_waiting (read_result id r node type fields) r ext ext h refl (λ q e. e)
        (λ n. h.registered)
  waiting_goes_on cached (status id source fields) ext h = record {
    empty = h.empty;
    registered = h.registered;
    alone = h.alone;
  }
  waiting_goes_on cached (timeout id r) ext h = h
  waiting_goes_on cached (acl_timeout id r) ext h = h
  waiting_goes_on cached (link id node action) ext h = h
  waiting_goes_on cached (lock id) ext h = h
  waiting_goes_on cached (unlock id) ext h = h
  waiting_goes_on cached (read id fields) ext h = h
  waiting_goes_on cached (loaded id) ext h = h
  waiting_goes_on cached (unloaded id) ext h = h

  all_answered :
      (cached : ℕ → NodeId → Bool) (ss : List Signal) (s : Signal) (ext : GqlExt)
      → IsAnswered req c s ext
      → lookup c (process_signals cached ss ext).channels ≡ some (s ∷ [])
  all_answered cached [] s ext h = h.full
  all_answered cached (t ∷ ss) s ext h =
      all_answered cached ss s (gql_process cached t ext)
        (gql_process-IsAnswered req c cached t s ext h)

  all_waiting :
      (cached : ℕ → NodeId → Bool) (ss : List Signal) (ext : GqlExt)
      → IsWaiting req c ext
      → lookup c (process_signals cached ss ext).channels ≡ some (first_answer req ss)
  all_waiting cached [] ext h = h.empty
  all_waiting cached (t ∷ ss) ext h =
      by_first (forwarded_to req t) (waiting_goes_on cached t ext h)
        (λ w. all_waiting cached ss (gql_process cached t ext) w)
    where
      by_first :
          (b : Bool)
          → After b t (gql_process cached t ext)
          → (IsWaiting req c (gql_process cached t ext)
              → lookup c (process_signals cached ss (gql_process cached t ext)).channels
                ≡ some (first_answer req ss))
          → lookup c (process_signals cached ss (gql_process cached t ext)).channels
            ≡ some (if b then t ∷ [] else first_answer req ss)
      by_first true a k = all_answered cached ss t (gql_process cached t ext) a
      by_first false a k = k a

-- Channels are numbered in the order in which they are made.
abbrev pub IsNumbered : GqlExt → Type 0
IsNumbered ext = (q : Uuid) (c : ℕ) → lookup q ext.resolver_response ≡ some c → c < ext.next_channel

-- Whatever signals Process gets behind GetResponseChannel of a request, the channel holds the first of
-- them that is a success, an error or a read result for the request, and nothing else: no later one
-- takes its place, and none for another request comes into it.
pub gql_process-first_answer :
    (cached : ℕ → NodeId → Bool) (req : Uuid) (ss : List Signal) (ext : GqlExt)
    → IsNumbered ext
    → lookup
        (get_response_channel req ext).1
        (process_signals cached ss (get_response_channel req ext).0).channels
      ≡ some (first_answer req ss)
unfolding get_response_channel
gql_process-first_answer cached req ss ext numbered =
    let c : ℕ = ext.next_channel in
    all_waiting req c cached ss (get_response_channel req ext).0 (record {
      empty = lookup-insert c c [] ext.channels ∙ if_true _ _ _ (==_refl c);
      registered = lookup-insert req req c ext.resolver_response ∙ if_true _ _ _ (==_refl req);
      alone = λ q e. elim (Bool-cases (q == req)) [
        | inl t ↦ (==_iff q req).0 t
        | inr n ↦
            let old : lookup q ext.resolver_response ≡ some c =
              sym (if_false _ _ _ n) ∙ sym (lookup-insert req q c ext.resolver_response) ∙ e in
            absurd (omega (arith, numbered q c old))
      ];
    })
