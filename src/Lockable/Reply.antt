-- ===== src/Lockable/Reply.antt =====
-- lockable.go: what a handler of the lockable extension returns, and what the handlers share.
-- `uuid.New()` is the parameter `new_uuid`: its n-th result over the program's life is `new_uuid n`,
-- and a handler is told how many were drawn before. `order` is the order in which a `range` over
-- the requirements visits them. A panic is `none`.
use Prim.Native.String.{◌++◌ as concat}
use graphvent.Prelude.{
  ℕ, ◌+◌, Bool, true, false, List, [], ◌∷◌, Option, none, some, String, if◌then◌else◌,
}
use graphvent.Prelude.Maps.{Map, insert}
use graphvent.Signal.{NodeId, Uuid, Signal, error, success, Message}
use graphvent.Lockable.{
  ReqState, unlocked, unlocking, locked, locking, aborting_lock, to_string, LockableExt,
}

-- What a handler leaves: the extension, the messages to send, the changed tags, and how many
-- UUIDs have been drawn.
pub record Reply : Type 0 where
  pub ext : LockableExt
  pub messages : List Message
  pub changes : List String
  pub issued : ℕ

abbrev pub message : NodeId → Signal → Message
message id signal = record { node = id; signal = signal }

-- Is this requirement in this state?
abbrev pub is_state : ReqState → ReqState → Bool
is_state unlocked unlocked = true
is_state unlocking unlocking = true
is_state locked locked = true
is_state locking locking = true
is_state aborting_lock aborting_lock = true
is_state _ _ = false

-- The loops that count the unlocked requirements.
unfoldable pub count_unlocked : Map ReqState → ℕ
count_unlocked [] = 0
count_unlocked ((id, s) ∷ m) =
    if is_state s unlocked then count_unlocked m + 1 else count_unlocked m

-- `Requirements[id]`: the zero value, Unlocked, for a missing key.
abbrev pub state_or_zero : Option ReqState → ReqState
state_or_zero none = unlocked
state_or_zero (some s) = s

-- `fmt.Sprintf("not_unlocked: %s", state)`
abbrev pub not_unlocked : ReqState → String
not_unlocked s = concat "not_unlocked: " (to_string s)

module _ (new_uuid : ℕ → Uuid) where
  -- A reply that sends one response to the source and changes nothing.
  abbrev pub refuse : LockableExt → ℕ → NodeId → Uuid → String → Option Reply
  refuse ext n source id text = some (record {
    ext = ext;
    messages = message source (error (new_uuid n) id text) ∷ [];
    changes = [];
    issued = n + 1;
  })

  abbrev pub confirm : LockableExt → ℕ → NodeId → Uuid → List String → Option Reply
  confirm ext n source id changes = some (record {
    ext = ext;
    messages = message source (success (new_uuid n) id) ∷ [];
    changes = changes;
    issued = n + 1;
  })

  -- The loops that send a signal to each requirement, wait for its answer, and mark the
  -- requirement: `(requirements, waiting, messages, issued)`.
  unfoldable pub request_all :
      (Uuid → Signal)
      → ReqState
      → List NodeId
      → ℕ
      → Map ReqState
      → Map NodeId
      → Map ReqState × Map NodeId × List Message × ℕ
  request_all make s [] n m w = (m, w, [], n)
  request_all make s (id ∷ order) n m w =
      let (m', w', messages, n') =
        request_all make s order (n + 1) (insert id s m) (insert (new_uuid n) id w) in
      (m', w', message id (make (new_uuid n)) ∷ messages, n')
