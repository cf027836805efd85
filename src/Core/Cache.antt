-- ===== src/Core/Cache.antt =====
-- core/src/cache.rs: how old a cached payload may be.
use traintime_api.Common.{
  ℕ, ◌+◌, ◌-◌, ◌*◌, ◌/◌, ◌≤◌, ◌<◌, ◌≡◌, ◌↔◌, arith, if◌then◌else◌, ltb, leb, Text,
}

abbrev pub stale_max_age_secs : ℕ
stale_max_age_secs = 300

pub record CachedPayload : Type 0 where
  pub fetched_at : ℕ
  pub payload : Text

pub data Freshness : Type 0 where
  fresh : Freshness
  stale : ℕ → Freshness
  expired : Freshness

-- `saturating_sub` on `u64` is the subtraction of ℕ.
unfoldable pub classify : ℕ → ℕ → ℕ → Freshness
classify fetched_at_ms now_ms ttl_secs =
    let age_secs = (now_ms - fetched_at_ms) / 1000 in
    if ltb age_secs ttl_secs
    then fresh
    else if leb age_secs stale_max_age_secs
    then stale age_secs
    else expired

-- The verdict in milliseconds, for a TTL above zero: an entry is fresh before its TTL has passed, stale from then on up
-- to the end of second 300 after the fetch, and expired later.
pub classify_iff :
    (fetched now ttl age : ℕ)
    → 0 < ttl
    → ((classify fetched now ttl ≡ fresh) ↔ (now < fetched + ttl * 1000))
      × ((classify fetched now ttl ≡ stale age) ↔ (
          (fetched + ttl * 1000 ≤ now)
          × (age ≡ (now - fetched) / 1000)
          × (now < fetched + 301 * 1000)))
      × ((classify fetched now ttl ≡ expired)
          ↔ ((fetched + ttl * 1000 ≤ now) × (fetched + 301 * 1000 ≤ now)))
unfolding classify
classify_iff fetched now ttl age positive = ground arith

-- A later look never finds an entry fresher.
abbrev rank : Freshness → ℕ
rank fresh = 0
rank (stale age) = 1
rank expired = 2

rank-classify_mono :
    (fetched now later ttl : ℕ)
    → now ≤ later
    → rank (classify fetched now ttl) ≤ rank (classify fetched later ttl)
unfolding classify
rank-classify_mono fetched now later ttl h = ground arith
