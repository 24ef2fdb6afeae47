-- ===== src/Lockable/Counting.antt =====
-- The counts of lockable.go: all requirements counted as unlocked are all requirements.
use graphvent.Prelude.{◌≤◌, ◌≡◌, refl, true, [], ◌∷◌, arith, length}
use graphvent.Prelude.Maps.{Map, lookup}
use graphvent.Signal.{NodeId}
use graphvent.Lockable.{ReqState, unlocked}
use graphvent.Lockable.Reply.{count_unlocked, state_or_zero}
use graphvent.Lockable.Responses.{all_unlocked}

count_unlocked-le : (m : Map ReqState) → count_unlocked m ≤ length m
unfolding count_unlocked
count_unlocked-le [] = omega arith
count_unlocked-le ((id, s) ∷ m) = ground (arith, count_unlocked-le m)

pub all_unlocked-lookup :
    (m : Map ReqState) (k : NodeId) → all_unlocked m ≡ true → state_or_zero (lookup k m) ≡ unlocked
unfolding count_unlocked lookup
all_unlocked-lookup [] k h = refl
all_unlocked-lookup ((id, s) ∷ m) k h = ground (arith, count_unlocked-le m, all_unlocked-lookup m k)
