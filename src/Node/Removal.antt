-- ===== src/Node/Removal.antt =====
-- The removal of a signal from the queue, which its last takes the place of.
use graphvent.Prelude.{
  ℕ, zero, suc, ◌-◌, ◌≡◌, ◌≢◌, refl, ap, ap₂, sym, ◌∙◌, ◌⊎◌, inl, inr, true, false, List, [], ◌∷◌,
  ◌++◌, Option, none, some, length, get_elem?, set, take, All, ◌==◌, if◌then◌else◌, Bool-cases,
  ==_iff, length-append, length-set, take-length-append, arith,
}
use mathlib.Core.Option.{none-ne-some, some-injective}
use mathlib.Core.Path.{subst}
use mathlib.Core.List.{Permᴰ}
use graphvent.Signal.{Uuid}
use graphvent.Node.{
  QueuedSignal, Node, queued_id, index_of, swap_remove, dequeue_signal, dequeue_at, with_queue,
  shifted, reschedule,
}

module _ {A : Type 0} where
  pub All-Perm : (P : A → Type 0) {xs ys : List A} → Permᴰ xs ys → All P xs → All P ys
  All-Perm P Permᴰ.nil h = h
  All-Perm P (Permᴰ.cons e p) h = (subst P e h.0, All-Perm P p h.1)
  All-Perm P (Permᴰ.swap e e') h = (subst P e' h.1.0, (subst P e h.0, h.1.1))
  All-Perm P (Permᴰ.trans p p') h = All-Perm P p' (All-Perm P p h)

  pub length-Perm : {xs ys : List A} → Permᴰ xs ys → length xs ≡ length ys
  length-Perm Permᴰ.nil = refl
  length-Perm (Permᴰ.cons e p) = ap suc (length-Perm p)
  length-Perm (Permᴰ.swap e e') = refl
  length-Perm (Permᴰ.trans p p') = length-Perm p ∙ length-Perm p'

  pub All-get_elem :
      (P : A → Type 0) (xs : List A) (i : ℕ) (x : A) → All P xs → get_elem? xs i ≡ some x → P x
  All-get_elem P [] i x h e = absurd (none-ne-some x e)
  All-get_elem P (y ∷ xs) zero x h e = subst P (some-injective _ _ e) h.0
  All-get_elem P (y ∷ xs) (suc i) x h e = All-get_elem P xs i x h.1 e

  set-Perm :
      (init : List A) (i : ℕ) (x last : A)
      → get_elem? init i ≡ some x
      → Permᴰ (last ∷ init) (x ∷ set init i last)
  set-Perm [] i x last e = absurd (none-ne-some x e)
  set-Perm (y ∷ init) zero x last e = Permᴰ.swap refl (some-injective _ _ e)
  set-Perm (y ∷ init) (suc i) x last e =
      Permᴰ.trans (Permᴰ.swap refl refl)
        (Permᴰ.trans (Permᴰ.cons refl (set-Perm init i x last e)) (Permᴰ.swap refl refl))

  -- The place of an element is the last or stands before it.
  place :
      (init : List A) (i : ℕ) (x last : A)
      → get_elem? (init ++ last ∷ []) i ≡ some x
      → ((x ≡ last) × (set (init ++ last ∷ []) i last ≡ init ++ last ∷ []))
        ⊎ ((get_elem? init i ≡ some x)
            × (set (init ++ last ∷ []) i last ≡ set init i last ++ last ∷ []))
  place [] zero x last e = inl (sym (some-injective _ _ e), refl)
  place [] (suc i) x last e = absurd (none-ne-some x e)
  place (y ∷ init) zero x last e = inr (e, refl)
  place (y ∷ init) (suc i) x last e = elim (place init i x last e) [
    | inl h ↦ inl (h.0, ap (◌∷◌ y) h.1)
    | inr h ↦ inr (h.0, ap (◌∷◌ y) h.1)
  ]

  last_view : (x : A) (xs : List A) → (init : List A) × (last : A) × (x ∷ xs ≡ init ++ last ∷ [])
  last_view x [] = ([], x, refl)
  last_view x (y ∷ xs) =
      let v : (init : List A) × (last : A) × (y ∷ xs ≡ init ++ last ∷ []) = last_view y xs in
      (x ∷ v.0, v.1, ap (◌∷◌ x) v.2)

  get_elem-last :
      (init : List A) (last : A) → get_elem? (init ++ last ∷ []) (length init) ≡ some last
  get_elem-last [] last = refl
  get_elem-last (x ∷ init) last = get_elem-last init last

  last-Perm : (init : List A) (last : A) → Permᴰ (init ++ last ∷ []) (last ∷ init)
  last-Perm [] last = Permᴰ.cons refl Permᴰ.nil
  last-Perm (x ∷ init) last =
      Permᴰ.trans (Permᴰ.cons refl (last-Perm init last)) (Permᴰ.swap refl refl)

  -- The cut, once the length and the last element are known.
  cut :
      (init : List A) (last : A) (i : ℕ) (xs : List A)
      → xs ≡ init ++ last ∷ []
      → swap_remove i xs ≡ some (take (length init) (set (init ++ last ∷ []) i last))
  unfolding swap_remove
  cut init last i xs e =
      let whole : List A = init ++ last ∷ [] in
      let same : length whole - 1 ≡ length init = omega (arith, length-append init (last ∷ [])) in
      ap (swap_remove i) e
      ∙ ap
          (λ n. elim (get_elem? whole n) as (λ o. Option (List A)) [
            | none ↦ none
            | some l ↦ some (take n (set whole i l))
          ])
          same
      ∙ ap
          (λ o. elim o as (λ o'. Option (List A)) [
            | none ↦ none
            | some l ↦ some (take (length init) (set whole i l))
          ])
          (get_elem-last init last)

  pub swap_remove-Perm :
      (xs : List A) (i : ℕ) (x : A)
      → get_elem? xs i ≡ some x
      → (ys : List A) × (swap_remove i xs ≡ some ys) × Permᴰ xs (x ∷ ys)
  swap_remove-Perm [] i x e = absurd (none-ne-some x e)
  swap_remove-Perm (y ∷ xs) i x e =
      let v : (init : List A) × (last : A) × (y ∷ xs ≡ init ++ last ∷ []) = last_view y xs in
      elim (place v.0 i x v.1 (ap (λ l. get_elem? l i) (sym v.2) ∙ e)) [
        | inl h ↦ (
          v.0,
          cut v.0 v.1 i (y ∷ xs) v.2
              ∙ ap some (ap (take (length v.0)) h.1 ∙ take-length-append v.0 (v.1 ∷ [])),
          subst (λ l. Permᴰ l (x ∷ v.0)) (sym v.2)
              (subst (λ z. Permᴰ (v.0 ++ v.1 ∷ []) (z ∷ v.0)) (sym h.0) (last-Perm v.0 v.1)),
        )
        | inr h ↦ (
          set v.0 i v.1,
          cut v.0 v.1 i (y ∷ xs) v.2
              ∙ ap some (
                  ap₂ take (sym (length-set v.0 i v.1)) h.1
                  ∙ take-length-append (set v.0 i v.1) (v.1 ∷ [])),
          subst (λ l. Permᴰ l (x ∷ set v.0 i v.1)) (sym v.2)
              (Permᴰ.trans (last-Perm v.0 v.1) (set-Perm v.0 i x v.1 h.0)),
        )
      ]

-- What `index_of` finds.
abbrev pub Lookup : Uuid → List QueuedSignal → Type 0
Lookup id qs =
    ((index_of id qs ≡ none) × All (λ q. queued_id q ≢ id) qs)
    ⊎ ((i : ℕ) × (q : QueuedSignal) × (index_of id qs ≡ some i)
        × (get_elem? qs i ≡ some q)
        × (queued_id q ≡ id))

true-ne-false : true ≡ false → ⊥
true-ne-false e = ground arith

pub index_of-Lookup : (id : Uuid) (qs : List QueuedSignal) → Lookup id qs
unfolding index_of
index_of-Lookup id [] = inl (refl, tt)
index_of-Lookup id (q ∷ qs) = elim (Bool-cases (queued_id q == id)) [
  | inl same ↦ inr (
    0,
    q,
    ap (λ b. if b then some 0 else shifted (index_of id qs)) same,
    refl,
    (==_iff (queued_id q) id).0 same,
  )
  | inr differ ↦ elim (index_of-Lookup id qs) [
    | inl h ↦ inl (
      ap (λ b. if b then some 0 else shifted (index_of id qs)) differ ∙ ap shifted h.0,
      (λ e. absurd (true-ne-false (sym ((==_iff (queued_id q) id).1 e) ∙ differ)), h.1),
    )
    | inr h ↦ inr (
      suc h.0,
      h.1,
      ap (λ b. if b then some 0 else shifted (index_of id qs)) differ ∙ ap shifted h.2,
      h.3,
      h.4,
    )
  ]
]

-- DequeueSignal of an id that no queued signal has changes nothing and is an error; of another it
-- takes one signal with that id out of the queue and keeps the others, in some order, and never
-- panics.
pub dequeue_signal-cases :
    (now : ℕ) (id : Uuid) (node : Node)
    → ((dequeue_signal now id node ≡ some (false, node))
        × All (λ q. queued_id q ≢ id) node.signal_queue)
      ⊎ ((q : QueuedSignal) × (left : List QueuedSignal) × (dequeue_signal now id node
            ≡ some (true, reschedule now left))
          × (queued_id q ≡ id)
          × Permᴰ node.signal_queue (q ∷ left))
unfolding dequeue_signal
dequeue_signal-cases now id node = elim (index_of-Lookup id node.signal_queue) [
  | inl h ↦ inl (ap (dequeue_at now node) h.0, h.1)
  | inr h ↦
      let r : (ys : List QueuedSignal) × (swap_remove h.0 node.signal_queue ≡ some ys)
          × Permᴰ node.signal_queue (h.1 ∷ ys) =
        swap_remove-Perm node.signal_queue h.0 h.1 h.3 in
      inr (h.1, r.0, ap (dequeue_at now node) h.2 ∙ ap (with_queue now true) r.1, h.4, r.2)
]
