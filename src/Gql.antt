-- ===== src/Gql.antt =====
-- gql.go: the subscriptions and response channels of a GQLExt, and its Process.
pub mod Channels
pub mod Resolve
mod Socket
mod Tests
use graphvent.Prelude.{
  ℕ, suc, ◌+◌, ◌-◌, Bool, true, false, List, [], ◌∷◌, ◌++◌, Option, none, some, length, get_elem?,
  set, take, ltb, ◌==◌, if◌then◌else◌,
}
use graphvent.Prelude.Maps.{Map, lookup, has, insert, delete}
use graphvent.Signal.{NodeId, Uuid, Signal, success, error, read_result, status}

-- A subscription's channel holds at most 100 signals; `cache` is the number of the ResolveContext
-- whose NodeCache it points to.
pub record SubscriptionInfo : Type 0 where
  pub id : Uuid
  pub node_cache : ℕ
  pub channel : List Signal

-- The channels that resolvers wait on are numbered, since a resolver keeps one that has been taken
-- out of `resolver_response`; `channels` is what they hold.
pub record GqlExt : Type 0 where
  pub subscriptions : List SubscriptionInfo
  pub resolver_response : Map ℕ
  pub channels : Map (List Signal)
  pub next_channel : ℕ

abbrev pub with_subscriptions : List SubscriptionInfo → GqlExt → GqlExt
with_subscriptions subs ext = record {
  subscriptions = subs;
  resolver_response = ext.resolver_response;
  channels = ext.channels;
  next_channel = ext.next_channel;
}

-- `Load`, before the server starts.
abbrev pub load_gql : GqlExt → GqlExt
load_gql ext = record {
  subscriptions = [];
  resolver_response = [];
  channels = ext.channels;
  next_channel = ext.next_channel;
}

unfoldable pub is_subscribed : Uuid → List SubscriptionInfo → Bool
is_subscribed id [] = false
is_subscribed id (info ∷ infos) =
    let rest = is_subscribed id infos in if info.id == id then true else rest

-- `AddSubscription`; without a result it is an error.
unfoldable pub add_subscription : Uuid → ℕ → GqlExt → Option GqlExt
unfolding is_subscribed
add_subscription id cache ext =
    if is_subscribed id ext.subscriptions
    then none
    else some (
        with_subscriptions
          (ext.subscriptions ++ (record { id = id; node_cache = cache; channel = [] }) ∷ []) ext)

-- How `RemoveSubscription` ends.
pub data Removed : Type 0 where
  removed : GqlExt → Removed
  not_subscribed : Removed
  index_panic : Removed

-- `ext.subscriptions[i] = ext.subscriptions[len(ext.subscriptions)]` and the cut by one.
abbrev pub remove_at : ℕ → Option SubscriptionInfo → GqlExt → Removed
remove_at i none ext = index_panic
remove_at i (some last) ext =
    removed
      (with_subscriptions (take (length ext.subscriptions - 1) (set ext.subscriptions i last)) ext)

-- The loop of `RemoveSubscription`, from the index `i` on.
unfoldable pub remove_from : Uuid → ℕ → List SubscriptionInfo → GqlExt → Removed
remove_from id i [] ext = not_subscribed
remove_from id i (info ∷ infos) ext =
    let rest = remove_from id (suc i) infos ext in
    if info.id == id
    then remove_at i (get_elem? ext.subscriptions (length ext.subscriptions)) ext
    else rest

unfoldable pub remove_subscription : Uuid → GqlExt → Removed
unfolding remove_from
remove_subscription id ext = remove_from id 0 ext.subscriptions ext

-- `FindResponseChannel`, nil being none.
abbrev pub find_response_channel : Uuid → GqlExt → Option ℕ
find_response_channel req ext = lookup req ext.resolver_response

-- `GetResponseChannel`
unfoldable pub get_response_channel : Uuid → GqlExt → GqlExt × ℕ
get_response_channel req ext = (
  record {
    subscriptions = ext.subscriptions;
    resolver_response = insert req ext.next_channel ext.resolver_response;
    channels = insert ext.next_channel [] ext.channels;
    next_channel = suc ext.next_channel;
  },
  ext.next_channel,
)

abbrev pub without_response : Uuid → Option ℕ → GqlExt → GqlExt
without_response req none ext = ext
without_response req (some c) ext = record {
  subscriptions = ext.subscriptions;
  resolver_response = delete req ext.resolver_response;
  channels = ext.channels;
  next_channel = ext.next_channel;
}

-- `FreeResponseChannel`
unfoldable pub free_response_channel : Uuid → GqlExt → GqlExt × Option ℕ
free_response_channel req ext =
    (without_response req (find_response_channel req ext) ext, find_response_channel req ext)

-- A send with a default case: a full channel drops the signal.
abbrev pub offer : ℕ → Signal → List Signal → List Signal
offer capacity signal buffer =
    if ltb (length buffer) capacity then buffer ++ signal ∷ [] else buffer

abbrev pub or_empty_channel : Option (List Signal) → List Signal
or_empty_channel none = []
or_empty_channel (some buffer) = buffer

-- A signal for the resolver of a channel, if there is one.
abbrev pub forward : Signal → Option ℕ → GqlExt → GqlExt
forward signal none ext = ext
forward signal (some c) ext = record {
  subscriptions = ext.subscriptions;
  resolver_response = ext.resolver_response;
  channels = insert c (offer 1 signal (or_empty_channel (lookup c ext.channels))) ext.channels;
  next_channel = ext.next_channel;
}

-- The loop over the subscriptions for a status signal; `cached` says whether a NodeCache has the node.
unfoldable pub notify :
    (ℕ → NodeId → Bool) → NodeId → Signal → List SubscriptionInfo → List SubscriptionInfo
notify cached source signal [] = []
notify cached source signal (sub ∷ subs) =
    let rest = notify cached source signal subs in
    (if cached sub.node_cache source
      then record {
        id = sub.id;
        node_cache = sub.node_cache;
        channel = offer 100 signal sub.channel;
      }
      else sub)
    ∷ rest

-- `Process`, which answers with no messages and no changes.
unfoldable pub gql_process : (ℕ → NodeId → Bool) → Signal → GqlExt → GqlExt
unfolding free_response_channel notify
gql_process cached (success id req) ext =
    let freed : GqlExt × Option ℕ = free_response_channel req ext in
    forward (success id req) freed.1 freed.0
gql_process cached (error id req text) ext =
    let freed : GqlExt × Option ℕ = free_response_channel req ext in
    forward (error id req text) freed.1 freed.0
gql_process cached (read_result id req node type fields) ext =
    forward (read_result id req node type fields) (find_response_channel req ext) ext
gql_process cached (status id source fields) ext =
    with_subscriptions (notify cached source (status id source fields) ext.subscriptions) ext
gql_process cached _ ext = ext
