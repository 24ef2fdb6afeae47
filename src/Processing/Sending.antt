-- ===== src/Processing/Sending.antt =====
-- What Send has sent when it ends.
use graphvent.Prelude.{
  ◌≡◌, refl, ap, ap₂, sym, ◌⊎◌, inl, inr, Bool, true, false, List, [], ◌∷◌, ◌++◌, map, All, ◌==◌,
  if◌then◌else◌, Bool-cases,
}
use mathlib.Core.Path.{subst}
use graphvent.Signal.{NodeId, Message}
use graphvent.Processing.{Status, fine, failed, panicked, send}

-- The message as it lies in its receiver's channel.
abbrev pub delivered : NodeId → Message → NodeId × Message
delivered self message = (message.node, record { node = self; signal = message.signal })

-- The first messages were sent, and `left` is what the end has left.
abbrev pub Stops : NodeId → (NodeId → Bool) → List Message → Status → Type 0
Stops null_id get_node left result =
    ((result ≡ fine) × (left ≡ []))
    ⊎ ((next : Message) × (others : List Message) × (left ≡ next ∷ others)
        × (((result ≡ panicked) × ((next.node == null_id) ≡ true))
            ⊎ ((result ≡ failed)
                × ((next.node == null_id) ≡ false)
                × (get_node next.node ≡ false))))

abbrev pub Sends :
    NodeId → (NodeId → Bool) → NodeId → List Message → List (NodeId × Message) × Status → Type 0
Sends null_id get_node self messages r =
    (first : List Message) × (left : List Message) × (messages ≡ first ++ left)
    × (r.0 ≡ map (delivered self) first)
    × All (λ m. ((m.node == null_id) ≡ false) × (get_node m.node ≡ true)) first
    × Stops null_id get_node left r.1

-- Send puts the messages into their receivers' channels in order, each as from the sending node, up
-- to the first that it cannot send: to the zero id, which is a panic, or to a node that getNode does
-- not return, which is an error. It ends as it should only when all are sent.
pub send-Sends :
    (null_id : NodeId) (get_node : NodeId → Bool) (self : NodeId) (messages : List Message)
    → Sends null_id get_node self messages (send null_id get_node self messages)
unfolding send
send-Sends null_id get_node self [] = ([], [], refl, refl, tt, inl (refl, refl))
send-Sends null_id get_node self (m ∷ messages) =
    let rest : List (NodeId × Message) × Status = send null_id get_node self messages in
    let more : List (NodeId × Message) × Status = (delivered self m ∷ rest.0, rest.1) in
    elim (Bool-cases (m.node == null_id)) [
      | inl null ↦
          subst (Sends null_id get_node self (m ∷ messages))
            (sym (
              ap (λ b. if b then ([], panicked) else if get_node m.node then more else ([], failed))
                null))
            ([], m ∷ messages, refl, refl, tt, inr (m, messages, refl, inl (refl, null)))
      | inr real ↦ elim (Bool-cases (get_node m.node)) [
        | inl known ↦
            let s : Sends null_id get_node self messages rest =
              send-Sends null_id get_node self messages in
            subst (Sends null_id get_node self (m ∷ messages))
              (sym (
                ap₂ (λ b c. if b then ([], panicked) else if c then more else ([], failed)) real
                  known))
              (
                m ∷ s.0,
                s.1,
                ap (◌∷◌ m) s.2,
                ap (◌∷◌ (delivered self m)) s.3,
                ((real, known), s.4),
                s.5,
              )
        | inr missing ↦
            subst (Sends null_id get_node self (m ∷ messages))
              (sym (
                ap₂ (λ b c. if b then ([], panicked) else if c then more else ([], failed)) real
                  missing))
              ([], m ∷ messages, refl, refl, tt, inr (m, messages, refl, inr (refl, real, missing)))
      ]
    ]
