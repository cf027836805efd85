-- ===== src/Server/Cache/Replicas/Steps.antt =====
-- A lookup and a write of one pod (server/src/cache.rs), next to its entries and one map.
use mathlib.Core.Path.{subst}
use traintime_api.Common.{
  ℕ, ◌^◌, ◌<◌, ◌≡◌, refl, sym, ap, ◌∙◌, Bool, true, false, Option, none, some, if◌then◌else◌, All,
  Text,
}
use traintime_api.Server.Cache.{Entries, get, put_at}
use traintime_api.Server.Cache.Shared.{Cache, lookup, store, found_or, shared_get}
use traintime_api.Server.Memcached.{Client}
use traintime_api.Server.Memcached.Fake.{Store}
use traintime_api.Server.Memcached.Calls.{met, exchange_get, call_get, call_set}
use traintime_api.Server.Memcached.Exchange.{view, IsStorable, IsKey, HasValue}
use traintime_api.Server.Memcached.Refinement.{call_get-Refines, call_set-Refines, stored_by}
use traintime_api.Server.Cache.Replicas.{Left, lookup_over, store_over, or_own, looked_up}

abbrev pub is_joined : Option Client → Bool
is_joined none = false
is_joined (some c) = true

abbrev pub IsHealthy : Option Client → Type 0
IsHealthy none = Unit
IsHealthy (some c) = c.skip_until ≡ none

-- A use that leaves a client as fit as it found it.
pub record Steps {A : Type 0} (r : Left A) (a : A) (entries : Entries) (joined : Bool)
    (held : Store) : Type 0 where
  pub answered : r.out ≡ a
  pub own : r.cache.entries ≡ entries
  pub joins : is_joined r.cache.shared ≡ joined
  pub healthy : IsHealthy r.cache.shared
  pub stored : r.store ≡ held

found_or_lem :
    (entries : Entries) (key : Text) (now : ℕ) (p : Option Text × Client)
    → found_or entries key now p
      ≡ (or_own p.0 (get entries key now), record { entries = entries; shared = some p.1 })
found_or_lem entries key now (some v, c) = refl
found_or_lem entries key now (none, c) = refl

pub lookup_over-Steps :
    (entries : Entries) (client : Option Client) (held : Store) (key : Text) (now : ℕ)
    → IsHealthy client
    → IsKey key
    → All HasValue held
    → Steps
        (lookup_over (record { entries = entries; shared = client }) held key now)
        (looked_up (is_joined client) entries (view held) key now)
        entries
        (is_joined client)
        held
unfolding lookup_over lookup call_get
lookup_over-Steps entries none held key now h k values = record {
  answered = refl;
  own = refl;
  joins = refl;
  healthy = tt;
  stored = refl;
}
lookup_over-Steps entries (some c) held key now h k values =
    let step = call_get-Refines c held now key h k values in
    let m = met now (exchange_get held key).0 in
    let looked = found_or_lem entries key now (shared_get c key m) in
    record {
      answered =
          ap (λ (p : Option Text × Cache). p.0) looked
          ∙ ap (λ (o : Option Text). or_own o (get entries key now)) step.answered;
      own = ap (λ (p : Option Text × Cache). p.1.entries) looked;
      joins = ap (λ (p : Option Text × Cache). is_joined p.1.shared) looked;
      healthy = subst (λ (p : Option Text × Cache). IsHealthy p.1.shared) (sym looked) step.healthy;
      stored = step.stored;
    }

-- The store behind a write of a pod.
abbrev pub kept : Bool → Store → Text → Text → ℕ → Store
kept joined held key value ttl_secs = if joined then stored_by held key value ttl_secs else held

pub store_over-Steps :
    (entries : Entries) (client : Option Client) (held : Store) (key value : Text)
    (ttl_secs fetched_at sweep now : ℕ)
    → IsHealthy client
    → IsKey key
    → IsStorable value
    → ttl_secs < 2 ^ 64
    → Steps
        (store_over
          (record { entries = entries; shared = client })
          held
          key
          value
          ttl_secs
          fetched_at
          sweep
          now)
        tt
        (put_at entries key value ttl_secs fetched_at sweep)
        (is_joined client)
        (kept (is_joined client) held key value ttl_secs)
unfolding store_over store call_set
store_over-Steps entries none held key value ttl_secs fetched_at sweep now h k storable life =
    record { answered = refl; own = refl; joins = refl; healthy = tt; stored = refl }
store_over-Steps entries (some c) held key value ttl_secs fetched_at sweep now h k storable life =
    let step = call_set-Refines c held now key value ttl_secs h k storable life in
    record {
      answered = refl;
      own = refl;
      joins = refl;
      healthy = step.healthy;
      stored = step.stored;
    }
