-- ===== src/Worker/Cache.antt =====
-- src/cache.rs: the edge cache. The Cache API is a parameter: what it gives back under a URL, now,
-- after the puts that it was handed; `Serde` is the JSON form of an entry, and the clock's readings
-- are arguments.
pub mod Laws
use traintime_api.Common.{
  ℕ, ◌+◌, ◌-◌, ◌*◌, ◌/◌, ◌≤◌, ◌<◌, ◌≡◌, refl, sym, ap, ◌∙◌, ◌⊎◌, inl, inr, Bool, Option, none, some,
  List, [], ◌∷◌, ok, err, arith, max, Text, codes, ◌++◌, Elem, if◌then◌else◌, Bool-cases,
  Option-cases,
}
use traintime_api.Common.Decimal.{print}
use traintime_api.Core.Cache.{
  CachedPayload, Freshness, expired, classify, stale_max_age_secs, classify_iff,
}
use traintime_api.Http.{Serde, IsLossless}

pub data Cached : Type 0 where
  fresh : Text → Cached
  stale : Text → ℕ → Cached
  missing : Cached

-- What is handed to the Cache API: a body under a URL with its `max-age`, and the reading of the
-- clock when the API takes it.
pub record Filed : Type 0 where
  pub url : Text
  pub raw : Text
  pub max_age : ℕ
  pub filed_ms : ℕ

-- The Worker's runtime: whether a header can be set and a response be made of a body, and what the
-- text under a URL is, if there is one that can be read, at a reading of the clock.
pub record CacheApi : Type 0 where
  pub set : Text → Text → Bool
  pub response : Text → Bool
  pub get : List Filed → Text → ℕ → Option Text

-- What the API gives back is a body that it was handed under that very URL, at most its `max-age`
-- ago. It may have dropped any, lost any, and hold none at all.
pub record IsHonest (api : CacheApi) : Type 0 where
  pub filed :
      (log : List Filed) (url raw : Text) (now_ms : ℕ)
      → api.get log url now_ms ≡ some raw
      → (f : Filed) × Elem f log
        × (f.url ≡ url)
        × (f.raw ≡ raw)
        × (now_ms < f.filed_ms + f.max_age * 1000)

judge : CachedPayload → Freshness → Cached
judge entry Freshness.fresh = fresh entry.payload
judge entry (Freshness.stale age) = stale entry.payload age
judge entry expired = missing

-- `encode` is `encode_uri_component`.
abbrev pub cache_url : (Text → Text) → Text → Text
cache_url encode key = codes "https://api.traintime.ch/__cache/" ++ encode key

abbrev pub max_age_of : ℕ → ℕ
max_age_of ttl_secs = max ttl_secs stale_max_age_secs

module _ (encode : Text → Text) (serde : Serde CachedPayload) (api : CacheApi) where
  unfoldable pub read : Text → ℕ → ℕ → Cached
  unfolding judge
  read raw ttl_secs now_ms = elim (serde.from_str raw) [
    | err e ↦ missing
    | ok entry ↦ judge entry (classify entry.fetched_at now_ms ttl_secs)
  ]

  -- `asked_ms` is when the API is asked, `now_ms` the reading by which the entry is judged.
  unfoldable pub get : List Filed → Text → ℕ → ℕ → ℕ → Cached
  unfolding read
  get log key ttl_secs asked_ms now_ms = elim (api.get log (cache_url encode key) asked_ms) [
    | none ↦ missing
    | some raw ↦ read raw ttl_secs now_ms
  ]

  -- What the API was handed after a put, which ends early where an entry cannot be written, its
  -- header not be set or its response not be made.
  unfoldable pub put : List Filed → Text → Text → ℕ → ℕ → ℕ → List Filed
  put log key payload ttl_secs now_ms filed_ms =
      elim (serde.to_string (record { fetched_at = now_ms; payload = payload })) [
        | err e ↦ log
        | ok raw ↦
            if api.set (codes "Cache-Control") (codes "max-age=" ++ print (max_age_of ttl_secs))
            then if api.response raw
              then record {
                url = cache_url encode key;
                raw = raw;
                max_age = max_age_of ttl_secs;
                filed_ms = filed_ms;
              }
                ∷ log
              else log
            else log
      ]
