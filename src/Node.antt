-- ===== src/Node.antt =====
-- node.go: a node's queue of delayed signals, and the timeout that nodeLoop waits for.
pub mod Removal
pub mod Soonest
pub mod Drain
mod Tests
use graphvent.Prelude.{
  ℕ, zero, suc, ◌+◌, ◌-◌, Bool, true, false, ◌||◌, List, [], ◌∷◌, ◌++◌, Option, none, some, length,
  get_elem?, set, take, ltb, ◌==◌, if◌then◌else◌,
}
use graphvent.Signal.{Uuid, Signal, signal_id}

-- A time.Time is a number, time.Time{} is 0.
pub record QueuedSignal : Type 0 where
  pub signal : Signal
  pub time : ℕ

-- A TimeoutChan: nil, holding its time from the start, or getting one when the clock reaches it.
pub data Timeout : Type 0 where
  no_timeout : Timeout
  ready : ℕ → Timeout
  at_time : ℕ → Timeout

-- The part of a Node that the queue is. NextSignal points into SignalQueue; since it is set anew
-- after every write to the queue, it is what it points to.
pub record Node : Type 0 where
  pub write_signal_queue : Bool
  pub signal_queue : List QueuedSignal
  pub next_signal : Option QueuedSignal
  pub timeout_chan : Timeout

unfoldable pub queued_id : QueuedSignal → Uuid
unfolding signal_id
queued_id q = signal_id q.signal

abbrev pub is_nil : Option QueuedSignal → Bool
is_nil none = true
is_nil (some q) = false

-- The loop of `SoonestSignal`, with `soonest_signal` and `soonest_time`.
unfoldable pub soonest_loop : List QueuedSignal → Option QueuedSignal → ℕ → Option QueuedSignal
soonest_loop [] soonest time = soonest
soonest_loop (q ∷ qs) soonest time =
    let next : Option QueuedSignal × ℕ =
      if ltb q.time time || is_nil soonest then (some q, q.time) else (soonest, time) in
    soonest_loop qs next.0 next.1

abbrev pub timeout_of : ℕ → Option QueuedSignal → Timeout
timeout_of now none = no_timeout
timeout_of now (some q) = if ltb now q.time then at_time q.time else ready q.time

-- `SoonestSignal` at the time `now`.
unfoldable pub soonest_signal : ℕ → List QueuedSignal → Option QueuedSignal × Timeout
soonest_signal now qs =
    let soonest : Option QueuedSignal = soonest_loop qs none 0 in (soonest, timeout_of now soonest)

-- The queue, and what follows from it.
unfoldable pub reschedule : ℕ → List QueuedSignal → Node
unfolding soonest_signal
reschedule now qs =
    let soonest : Option QueuedSignal × Timeout = soonest_signal now qs in
    record {
      write_signal_queue = true;
      signal_queue = qs;
      next_signal = soonest.0;
      timeout_chan = soonest.1;
    }

unfoldable pub queue_signal : ℕ → ℕ → Signal → Node → Node
unfolding reschedule
queue_signal now time signal node =
    reschedule now (node.signal_queue ++ (record { signal = signal; time = time }) ∷ [])

-- A place in the rest of a list.
abbrev pub shifted : Option ℕ → Option ℕ
shifted none = none
shifted (some i) = some (suc i)

-- The first place in the queue of a signal with the id.
unfoldable pub index_of : Uuid → List QueuedSignal → Option ℕ
unfolding queued_id
index_of id [] = none
index_of id (q ∷ qs) =
    let rest = index_of id qs in if queued_id q == id then some 0 else shifted rest

-- `SignalQueue[i] = SignalQueue[l-1]` and the cut by one.
unfoldable pub swap_remove : {A : Type 0} → ℕ → List A → Option (List A)
swap_remove i qs = elim (get_elem? qs (length qs - 1)) [
  | none ↦ none
  | some last ↦ some (take (length qs - 1) (set qs i last))
]

-- `r` and the node with the queue that is left.
abbrev pub with_queue : {A : Type 0} → ℕ → A → Option (List QueuedSignal) → Option (A × Node)
with_queue now r none = none
with_queue now r (some qs) = some (r, reschedule now qs)

abbrev pub dequeue_at : ℕ → Node → Option ℕ → Option (Bool × Node)
dequeue_at now node none = some (false, node)
dequeue_at now node (some i) = with_queue now true (swap_remove i node.signal_queue)

-- `DequeueSignal`: false is the error that the id is not in the queue.
unfoldable pub dequeue_signal : ℕ → Uuid → Node → Option (Bool × Node)
unfolding index_of swap_remove
dequeue_signal now id node = dequeue_at now node (index_of id node.signal_queue)

abbrev pub fire_at : ℕ → QueuedSignal → Node → Option ℕ → Option (QueuedSignal × Node)
fire_at now next node none = none
fire_at now next node (some i) = with_queue now next (swap_remove i node.signal_queue)

abbrev pub fire_next : ℕ → Node → Option QueuedSignal → Option (QueuedSignal × Node)
unfolding index_of
fire_next now node none = none
fire_next now node (some next) = fire_at now next node (index_of (queued_id next) node.signal_queue)

-- The case of `nodeLoop` for the timeout: the signal that is processed next. It is a panic if there
-- is none, or if it is not in the queue.
unfoldable pub timeout_fires : ℕ → Node → Option (QueuedSignal × Node)
unfolding fire_next
timeout_fires now node = fire_next now node node.next_signal

abbrev pub fired_first :
    QueuedSignal → Option (List QueuedSignal × Node) → Option (List QueuedSignal × Node)
fired_first q none = none
fired_first q (some rest) = some (q ∷ rest.0, rest.1)

-- As many timeouts one after another, at the times of a clock.
unfoldable pub timeouts_fire : (ℕ → ℕ) → ℕ → Node → Option (List QueuedSignal × Node)
unfolding timeout_fires
timeouts_fire clock zero node = some ([], node)
timeouts_fire clock (suc n) node = elim (timeout_fires (clock n) node) [
  | none ↦ none
  | some fired ↦ fired_first fired.0 (timeouts_fire clock n fired.1)
]
