-- ===== src/Lockable/Invariant/Init.antt =====
-- `NewLockableExt` and `Load` of lockable.go make the extension consistent.
use graphvent.Prelude.{ℕ, ◌≡◌, refl, true, false, List, [], ◌∷◌, some, arith, ==_iff}
use graphvent.Prelude.Maps.{
  Map, lookup, has, insert, lookup-insert, has-insert, insert-IsUnique, IsUnique, has-eq-lookup,
}
use graphvent.Signal.{NodeId, Uuid}
use graphvent.Lockable.{
  ReqState, unlocked, locked, LockableExt, entries, Set, add_requirements, new_lockable_ext,
  load_requirements, load,
}
use graphvent.Lockable.Tracking.{in_flight, Tracked}
use graphvent.Lockable.Phase.{fits, IsConsistent}

-- The loop of `NewLockableExt`: both maps hold the same keys, and the requirements are unlocked.
record Fresh (m : Map ReqState) (s : Set) : Type 0 where
  fitting : (k : NodeId) → fits unlocked (lookup k m) false (has k s) ≡ true
  unique : IsUnique m
  unique_set : IsUnique s

add_requirements-Fresh :
    (reqs : List NodeId) (m : Map ReqState) (s : Set)
    → Fresh m s
    → Fresh (add_requirements reqs m s).0 (add_requirements reqs m s).1
unfolding add_requirements
add_requirements-Fresh [] m s f = f
add_requirements-Fresh (req ∷ reqs) m s f =
    add_requirements-Fresh reqs (insert req unlocked m) (insert req tt s) (record {
      fitting =
          λ k. ground (arith, f.fitting k, lookup-insert req k unlocked m, has-insert req k tt s);
      unique = insert-IsUnique req unlocked m f.unique;
      unique_set = insert-IsUnique req tt s f.unique_set;
    })

still-Tracked : (m : Map ReqState) → ((k : NodeId) → in_flight (lookup k m) ≡ false) → Tracked m []
unfolding lookup
still-Tracked m h = record {
  flying = λ u id e. cc;
  single = λ u v id e e'. cc;
  covered = λ id f. absurd (ground (arith, h id));
}

-- With no requirement given the map is nil, and reads as the empty one.
entries-new :
    (requirements : List NodeId)
    → entries (new_lockable_ext requirements).requirements ≡ (add_requirements requirements [] []).0
unfolding new_lockable_ext add_requirements
entries-new [] = refl
entries-new (req ∷ reqs) = ground arith

-- A new extension is consistent, whatever requirements it is given.
pub new_lockable_ext-IsConsistent :
    (new_uuid : ℕ → Uuid) (n : ℕ) (requirements : List NodeId)
    → IsConsistent new_uuid n (new_lockable_ext requirements)
unfolding new_lockable_ext lookup has
new_lockable_ext-IsConsistent new_uuid n requirements =
    let f =
      add_requirements-Fresh requirements [] []
        (record { fitting = λ k. refl; unique = tt; unique_set = tt }) in
    let e = entries-new requirements in
    record {
      fitting = λ k. rw e (f.fitting k);
      pointing = refl;
      tracked = rw e (still-Tracked _ (λ k. ground (arith, f.fitting k)));
      fresh = λ k p. refl;
      unique = rw e f.unique;
      unique_locked = tt;
      unique_unlocked = f.unique_set;
    }

-- What `Load` puts into the two sets, on top of what they hold.
record Loaded (m : Map ReqState) (ls us : Set) : Type 0 where
  in_locked : (k : NodeId) → has k ls ≡ true → lookup k m ≡ some locked
  in_unlocked : (k : NodeId) → has k us ≡ true → lookup k m ≡ some unlocked
  unique_locked : IsUnique ls
  unique_unlocked : IsUnique us

-- The requirements of a part of the map are those of the whole.
abbrev Part : Map ReqState → Map ReqState → Type 0
Part m whole = (k : NodeId) (s : ReqState) → lookup k m ≡ some s → lookup k whole ≡ some s

tail-Part :
    (id : NodeId) (s : ReqState) (m whole : Map ReqState)
    → has id m ≡ false
    → Part ((id, s) ∷ m) whole
    → Part m whole
unfolding lookup
tail-Part id s m whole u h k x e = ground (arith, h k x, has-eq-lookup k m, ==_iff k id)

head-Part :
    (id : NodeId) (s : ReqState) (m whole : Map ReqState)
    → Part ((id, s) ∷ m) whole
    → lookup id whole ≡ some s
unfolding lookup
head-Part id s m whole h = h id s (ground arith)

load_requirements-Loaded :
    (whole m : Map ReqState) (ls us : Set)
    → Part m whole
    → IsUnique m
    → Loaded whole ls us
    → Loaded whole (load_requirements m ls us).0 (load_requirements m ls us).1
unfolding load_requirements
load_requirements-Loaded whole [] ls us h u l = l
load_requirements-Loaded whole ((id, locked) ∷ m) ls us h u l =
    load_requirements-Loaded whole m (insert id tt ls) us (tail-Part id locked m whole u.0 h) u.1
      (record {
        in_locked = λ k p. ground (
          arith,
          l.in_locked k,
          has-insert id k tt ls,
          head-Part id locked m whole h,
          ==_iff k id,
        );
        in_unlocked = l.in_unlocked;
        unique_locked = insert-IsUnique id tt ls l.unique_locked;
        unique_unlocked = l.unique_unlocked;
      })
load_requirements-Loaded whole ((id, unlocked) ∷ m) ls us h u l =
    load_requirements-Loaded whole m ls (insert id tt us) (tail-Part id unlocked m whole u.0 h) u.1
      (record {
        in_locked = l.in_locked;
        in_unlocked = λ k p. ground (
          arith,
          l.in_unlocked k,
          has-insert id k tt us,
          head-Part id unlocked m whole h,
          ==_iff k id,
        );
        unique_locked = l.unique_locked;
        unique_unlocked = insert-IsUnique id tt us l.unique_unlocked;
      })
load_requirements-Loaded whole ((id, s) ∷ m) ls us h u l =
    load_requirements-Loaded whole m ls us (tail-Part id s m whole u.0 h) u.1 l

-- `Load` makes the sets anew: an extension that is consistent with both sets empty is consistent
-- after it, whatever the sets held before.
pub load-IsConsistent :
    (new_uuid : ℕ → Uuid) (n : ℕ) (ext : LockableExt)
    → IsConsistent new_uuid n (record ext { locked_set = []; unlocked_set = [] })
    → IsConsistent new_uuid n (load ext)
unfolding load has
load-IsConsistent new_uuid n ext c =
    let m = entries ext.requirements in
    let l =
      load_requirements-Loaded m m [] [] (λ k s e. e) c.unique
        (record {
          in_locked = λ k p. cc;
          in_unlocked = λ k p. cc;
          unique_locked = tt;
          unique_unlocked = tt;
        }) in
    record {
      fitting = λ k. ground (arith, c.fitting k, l.in_locked k, l.in_unlocked k);
      pointing = ground (arith, c.pointing);
      tracked = c.tracked;
      fresh = c.fresh;
      unique = c.unique;
      unique_locked = l.unique_locked;
      unique_unlocked = l.unique_unlocked;
    }

-- An extension forgets what its sets held.
pub forget_sets :
    {new_uuid : ℕ → Uuid} {n : ℕ} {ext : LockableExt}
    → IsConsistent new_uuid n ext
    → IsConsistent new_uuid n (record ext { locked_set = []; unlocked_set = [] })
unfolding has
forget_sets c = record {
  fitting = λ k. ground (arith, c.fitting k);
  pointing = ground (arith, c.pointing);
  tracked = c.tracked;
  fresh = c.fresh;
  unique = c.unique;
  unique_locked = tt;
  unique_unlocked = tt;
}
