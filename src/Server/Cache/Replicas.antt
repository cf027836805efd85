-- ===== src/Server/Cache/Replicas.antt =====
-- The pods of the server (server/src/cache.rs, server/src/memcached.rs) in front of one Memcached:
-- `lookup` and `store` of each pod's cache over its own client, one after another, next to the pods'
-- entries and one map.
pub mod Steps
use traintime_api.Common.{
  at, ℕ, ◌^◌, ◌<◌, Bool, Option, none, some, List, [], ◌∷◌, if◌then◌else◌, ◌&&◌, ltb, Text,
}
use traintime_api.Server.Cache.{Entries, get, put_at}
use traintime_api.Server.Cache.Shared.{Cache, lookup, store}
use traintime_api.Server.Memcached.{valid_key, begin_get, begin_set}
use traintime_api.Server.Memcached.Fake.{Store}
use traintime_api.Server.Memcached.Calls.{met, store_after, exchange_get, exchange_set}
use traintime_api.Server.Memcached.Exchange.{Ideal, set_at, IsStorable, IsKey}

-- What a use of a pod's cache leaves.
pub record Left (A : Type 0) : Type 0 where
  pub out : A
  pub cache : Cache
  pub store : Store

-- `lookup` with the exchange that it causes.
unfoldable pub lookup_over : Cache → Store → Text → ℕ → Left (Option Text)
unfolding lookup
lookup_over c held key now =
    let exchanged = exchange_get held key in
    let looked = lookup c key now (met now exchanged.0) in
    record {
      out = looked.0;
      cache = looked.1;
      store = elim c.shared [
        | none ↦ held
        | some client ↦ store_after (begin_get client key now).0 exchanged.1 held
      ];
    }

-- `store` likewise; the call of the client starts at `now`.
unfoldable pub store_over : Cache → Store → Text → Text → ℕ → ℕ → ℕ → ℕ → Left (Unit {0})
unfolding store
store_over c held key value ttl_secs fetched_at sweep now =
    let exchanged = exchange_set held key value ttl_secs in
    record {
      out = tt;
      cache = store c key value ttl_secs fetched_at sweep (met now exchanged.0);
      store = elim c.shared [
        | none ↦ held
        | some client ↦ store_after (begin_set client key ttl_secs now).0 exchanged.1 held
      ];
    }

-- A use of the cache of the pod with a number.
pub data PodUse : Type 0 where
  looks : ℕ → Text → ℕ → PodUse
  stores : ℕ → Text → Text → ℕ → ℕ → ℕ → ℕ → PodUse

-- The answers of the lookups of all pods.
unfoldable pub pod_answers : (ℕ → Cache) → Store → List PodUse → List (Option Text)
pod_answers caches held [] = []
pod_answers caches held (looks i key now ∷ uses) =
    let r = lookup_over (caches i) held key now in
    r.out ∷ pod_answers (at i r.cache caches) r.store uses
pod_answers caches held (stores i key value ttl_secs fetched_at sweep now ∷ uses) =
    let r = store_over (caches i) held key value ttl_secs fetched_at sweep now in
    pod_answers (at i r.cache caches) r.store uses

-- What the map holds for a key that is sent, else the pod's own entry.
abbrev pub or_own : Option Text → Option Text → Option Text
or_own (some v) own = some v
or_own none own = own

abbrev pub looked_up : Bool → Entries → Ideal → Text → ℕ → Option Text
looked_up joined entries m key now =
    or_own (if joined && valid_key key then m key else none) (get entries key now)

-- The same over the pods' entries, whether each has a client, and one map.
unfoldable pub ideal_answers : (ℕ → Entries) → (ℕ → Bool) → Ideal → List PodUse → List (Option Text)
ideal_answers entries joined m [] = []
ideal_answers entries joined m (looks i key now ∷ uses) =
    looked_up (joined i) (entries i) m key now ∷ ideal_answers entries joined m uses
ideal_answers entries joined m (stores i key value ttl_secs fetched_at sweep now ∷ uses) =
    ideal_answers (at i (put_at (entries i) key value ttl_secs fetched_at sweep) entries) joined
      (if joined i && (valid_key key && ltb 0 ttl_secs) then set_at key value m else m) uses

abbrev pub IsSound : PodUse → Type 0
IsSound (looks i key now) = IsKey key
IsSound (stores i key value ttl_secs fetched_at sweep now) =
    IsKey key × IsStorable value × (ttl_secs < 2 ^ 64)
