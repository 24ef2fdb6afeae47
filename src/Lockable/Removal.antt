-- ===== src/Lockable/Removal.antt =====
-- What the removal of a requirement leaves behind in lockable.go, and where that leads.
use graphvent.Prelude.{
  ℕ, ◌+◌, ◌≡◌, refl, ◌≢◌, true, [], ◌∷◌, none, some, arith, length, Option-cases, inl, inr,
}
use graphvent.Prelude.Maps.{
  Map, lookup, has, insert, delete, lookup-insert, lookup-delete, has-eq-lookup, lookup_empty,
}
use graphvent.Signal.{NodeId, Uuid, success}
use graphvent.Lockable.{ReqState, unlocked, unlocking, LockableExt, entries}
use graphvent.Lockable.Reply.{Reply, message}
use graphvent.Lockable.Requests.{handle_link_signal, remove_requirement}
use graphvent.Lockable.Responses.{handle_success_signal, requirement_unlocked, release}
use graphvent.Lockable.Phase.{IsConsistent}

-- A requirement that the Unlocked set holds, as it holds every requirement of a new or a loaded
-- extension, is still in that set when it has been removed; so the extension is not consistent.
pub remove_leaves_stale :
    (new_uuid : ℕ → Uuid) (ext : LockableExt) (n : ℕ) (source : NodeId) (sig : Uuid)
    (node_id : NodeId)
    → ext.state ≡ unlocked
    → has node_id (entries ext.requirements) ≡ true
    → has node_id ext.unlocked_set ≡ true
    → (r : Reply) × (handle_link_signal new_uuid ext n source sig node_id "remove" ≡ some r)
      × (lookup node_id (entries r.ext.requirements) ≡ none)
      × (has node_id r.ext.unlocked_set ≡ true)
      × ¬ IsConsistent new_uuid r.issued r.ext
unfolding handle_link_signal
remove_leaves_stale new_uuid ext n source sig node_id e h u = elim (Option-cases ext.requirements) [
  | inl q ↦ absurd (
      ground (
        arith,
        has-eq-lookup node_id (entries ext.requirements),
        lookup_empty {V = ReqState} node_id [],
      ))
  | inr (m, q) ↦
      let gone : lookup node_id (delete node_id m) ≡ none =
        ground (arith, lookup-delete node_id node_id m) in
      (
        record {
          ext = record ext { requirements = some (delete node_id m) };
          messages = message source (success (new_uuid n) sig) ∷ [];
          changes = "requirements" ∷ [];
          issued = n + 1;
        },
        rw (e, handle_link_signal) (rw (q, remove_requirement) (ground arith)),
        gone,
        u,
        λ c. ground (arith, c.fitting node_id, gone, u),
      )
]

-- While unlocking, a set that is as large as the requirements ends the unlock at once: the extension
-- is Unlocked and its owner is told so, although another requirement is still being unlocked.
early_unlock :
    (new_uuid : ℕ → Uuid) (ext : LockableExt) (n : ℕ) (req : Uuid) (id other : NodeId)
    (owner : NodeId) (sig : Uuid) (m : Map ReqState)
    → ext.state ≡ unlocking
    → ext.owner ≡ some owner
    → ext.req_id ≡ some sig
    → ext.requirements ≡ some m
    → lookup req ext.waiting ≡ some id
    → id ≢ other
    → lookup other m ≡ some unlocking
    → length (insert id tt ext.unlocked_set) ≡ length (insert id unlocked m)
    → (r : Reply) × (handle_success_signal new_uuid ext n req ≡ some r)
      × (r.ext.state ≡ unlocked)
      × (r.messages ≡ message owner (success (new_uuid n) sig) ∷ [])
      × (lookup other (entries r.ext.requirements) ≡ some unlocking)
unfolding handle_success_signal
early_unlock new_uuid ext n req id other owner sig m e o q em er ne l h =
    let ext' = release ext id (delete req ext.waiting) (insert id unlocked m) in
    (
      record {
        ext = record ext' { state = unlocked; req_id = none; owner = none };
        messages = message owner (success (new_uuid n) sig) ∷ [];
        changes = "waiting" ∷ "state" ∷ "owner" ∷ "req_id" ∷ [];
        issued = n + 1;
      },
      rw (er, handle_success_signal)
          (rw (e, handle_success_signal) (rw (em, requirement_unlocked) (ground (arith, h, o, q)))),
      refl,
      refl,
      ground (arith, lookup-insert id other unlocked m),
    )
