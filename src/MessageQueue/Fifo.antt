-- ===== src/MessageQueue/Fifo.antt =====
-- What message.go promises of its queue: first in, first out, with no bound on its length.
use graphvent.Prelude.{
  ◌≡◌, ap, ◌∙◌, List, [], ◌∷◌, ◌++◌, Option, none, some, append_assoc, append-nil, sym,
}
use graphvent.MessageQueue.{Event, incoming, outgoing}

module _ {A : Type 0} where
  -- The queue's messages, oldest first, and one operation on it.
  unfoldable pub round : List A → Event A → Option A × List A
  round xs (incoming m) = (none, xs ++ m ∷ [])
  round [] outgoing = (none, [])
  round (x ∷ xs) outgoing = (some x, xs)

  abbrev pub push_front : Option A → List A → List A
  push_front none xs = xs
  push_front (some x) xs = x ∷ xs

  -- The messages delivered, in order, and those left.
  unfoldable pub run : List A → List (Event A) → List A × List A
  run xs [] = ([], xs)
  run xs (e ∷ es) =
      let (out, ys) = round xs e in let (rest, zs) = run ys es in (push_front out rest, zs)

  -- The messages that come in over a sequence of operations.
  pub sends : List (Event A) → List A
  sends [] = []
  sends (incoming m ∷ es) = m ∷ sends es
  sends (outgoing ∷ es) = sends es

  pub run-conserves :
      (xs : List A) (es : List (Event A)) → (run xs es).0 ++ (run xs es).1 ≡ xs ++ sends es
  unfolding run round sends
  run-conserves xs [] = sym (append-nil xs)
  run-conserves xs (incoming m ∷ es) =
      run-conserves (xs ++ m ∷ []) es ∙ append_assoc xs (m ∷ []) (sends es)
  run-conserves [] (outgoing ∷ es) = run-conserves [] es
  run-conserves (x ∷ xs) (outgoing ∷ es) = ap (◌∷◌ x) (run-conserves xs es)
