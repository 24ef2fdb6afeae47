-- ===== src/Lockable/Asking.antt =====
-- How lockable.go asks its requirements for a lock.
use graphvent.Prelude.{
  ℕ, ◌+◌, ◌≤◌, ◌<◌, ◌≡◌, refl, ap, ◌≢◌, true, List, [], ◌∷◌, some, ==_ne, arith, length, All,
  All-mono, map,
}
use graphvent.Prelude.Maps.{Map, lookup, has, insert, lookup-insert, IsRange}
use graphvent.Signal.{NodeId, Uuid, Signal, lock, Message}
use graphvent.Lockable.{ReqState, unlocked, locking, LockableExt, entries}
use graphvent.Lockable.Reply.{Reply, request_all}
use graphvent.Lockable.Requests.{handle_lock_signal}
use graphvent.Lockable.Tracking.{IsInjective}
use graphvent.Lockable.Loops.{lookup-request_all}

module _ (new_uuid : ℕ → Uuid) (make : Uuid → Signal) (s : ReqState) where
  -- What was waited for before the loop still is.
  lookup-request_all_old :
      (order : List NodeId) (n : ℕ) (m : Map ReqState) (w : Map NodeId) (j : ℕ)
      → IsInjective new_uuid
      → j < n
      → lookup (new_uuid j) (request_all new_uuid make s order n m w).1 ≡ lookup (new_uuid j) w
  unfolding request_all
  lookup-request_all_old [] n m w j distinct h = refl
  lookup-request_all_old (id ∷ order) n m w j distinct h = ground (
    arith,
    lookup-request_all_old order (n + 1) (insert id s m) (insert (new_uuid n) id w) j distinct,
    lookup-insert (new_uuid n) (new_uuid j) id w,
    distinct j n,
  )

  -- The message carries a signal whose UUID was drawn from the n-th on, and by which its receiver
  -- is waited for.
  abbrev pub IsAwaited : ℕ → Map NodeId → Message → Type 0
  IsAwaited n w msg =
      (k : ℕ) × (n ≤ k) × (msg.signal ≡ make (new_uuid k)) × (lookup (new_uuid k) w ≡ some msg.node)

  pub request_all-IsAwaited :
      (order : List NodeId) (n : ℕ) (m : Map ReqState) (w : Map NodeId)
      → IsInjective new_uuid
      → let r = request_all new_uuid make s order n m w in
        (map (λ msg. msg.node) r.2 ≡ order) × All (IsAwaited n r.1) r.2
  unfolding request_all
  request_all-IsAwaited [] n m w distinct = (refl, tt)
  request_all-IsAwaited (id ∷ order) n m w distinct =
      let rest =
        request_all-IsAwaited order (n + 1) (insert id s m) (insert (new_uuid n) id w) distinct in
      (
        ap (◌∷◌ id) rest.0,
        (
          (
            n,
            omega arith,
            refl,
            ground (
              arith,
              lookup-request_all_old order (n + 1) (insert id s m) (insert (new_uuid n) id w) n
                  distinct,
              lookup-insert (new_uuid n) (new_uuid n) id w,
            ),
          ),
          All-mono (IsAwaited (n + 1) _) (IsAwaited n _) _
              (λ msg a. (a.0, omega (arith, a.1), a.2, a.3)) rest.1,
        ),
      )

-- A lock signal to an Unlocked extension with requirements: every requirement is sent one lock
-- signal, in the order of the range, is Locking from then on, and is waited for by the UUID of the
-- signal that it was sent; the extension is Locking for the sender.
pub handle_lock_signal-asks :
    (new_uuid : ℕ → Uuid) (ext : LockableExt) (n : ℕ) (source : NodeId) (sig : Uuid)
    (order : List NodeId)
    → IsInjective new_uuid
    → ext.state ≡ unlocked
    → length (entries ext.requirements) ≢ 0
    → IsRange (entries ext.requirements) order
    → (r : Reply) × (handle_lock_signal new_uuid ext n source sig order ≡ some r)
      × (r.ext.state ≡ locking)
      × (r.ext.pending_owner ≡ some source)
      × (r.ext.req_id ≡ some sig)
      × (map (λ msg. msg.node) r.messages ≡ order)
      × All (IsAwaited new_uuid lock locking n r.ext.waiting) r.messages
      × ((id : NodeId)
          → has id (entries ext.requirements) ≡ true
          → lookup id (entries r.ext.requirements) ≡ some locking)
unfolding handle_lock_signal
handle_lock_signal-asks new_uuid ext n source sig order distinct e ne range =
    let m = entries ext.requirements in
    let a = request_all-IsAwaited new_uuid lock locking order n m ext.waiting distinct in
    let r = request_all new_uuid lock locking order n m ext.waiting in
    (
      record {
        ext = record ext {
          pending_owner = some source;
          req_id = some sig;
          state = locking;
          requirements = some r.0;
          waiting = r.1;
        };
        messages = r.2;
        changes = "state" ∷ "requirements" ∷ "waiting" ∷ "pending_owner" ∷ [];
        issued = r.3;
      },
      rw (e, handle_lock_signal) (rw (==_ne (length m) 0 ne)),
      refl,
      refl,
      refl,
      a.0,
      a.1,
      λ id h. ground (
        arith,
        range.exact id,
        lookup-request_all new_uuid lock locking order n m ext.waiting id,
      ),
    )
