-- ===== src/Worker/Cache/Laws.antt =====
-- What the edge cache of the Worker gives back after any puts (src/cache.rs).
use traintime_api.Common.{
  ℕ, ◌+◌, ◌-◌, ◌*◌, ◌/◌, ◌≤◌, ◌<◌, ◌≡◌, refl, sym, ap, ◌∙◌, ◌⊎◌, inl, inr, none, List, [], ◌∷◌, ok,
  Text, codes, ◌++◌, Elem, Bool-cases, Option-cases,
}
use traintime_api.Common.Decimal.{print}
use traintime_api.Core.Cache.{CachedPayload, Freshness, expired, classify, classify_iff}
use traintime_api.Http.{Serde, IsLossless}
use traintime_api.Worker.Cache.{
  Cached, fresh, stale, missing, Filed, CacheApi, IsHonest, judge, cache_url, read, get, max_age_of,
  put,
}

append_cancel_left : (xs ys zs : Text) → xs ++ ys ≡ xs ++ zs → ys ≡ zs
append_cancel_left [] ys zs h = h
append_cancel_left (x ∷ xs) ys zs h = append_cancel_left xs ys zs (cc)

-- A put: its arguments, the reading of the clock that is written, and the one when the API takes it.
pub record Handed : Type 0 where
  pub key : Text
  pub payload : Text
  pub ttl_secs : ℕ
  pub at_ms : ℕ
  pub filed_ms : ℕ

module _ (encode : Text → Text) (serde : Serde CachedPayload) (api : CacheApi) where
  -- The puts, the last one first.
  unfoldable pub puts : List Handed → List Filed
  puts [] = []
  puts (h ∷ hs) = put encode serde api (puts hs) h.key h.payload h.ttl_secs h.at_ms h.filed_ms

  -- A put of the key that the API was handed at most its `max-age` ago.
  abbrev IsPut : List Handed → Text → ℕ → Handed → Type 0
  IsPut hs key asked_ms h =
      Elem h hs × (h.key ≡ key) × (asked_ms < h.filed_ms + max_age_of h.ttl_secs * 1000)

  -- What a read of a key tells: the payload of such a put, within the bounds of its verdict; and a
  -- key is missing only if the API has nothing or such a put is past both bounds.
  abbrev pub IsOfPut : List Handed → Text → ℕ → ℕ → ℕ → Cached → Type 0
  IsOfPut hs key ttl asked_ms now (fresh v) =
      (h : Handed) × IsPut hs key asked_ms h × (h.payload ≡ v) × (now < h.at_ms + ttl * 1000)
  IsOfPut hs key ttl asked_ms now (stale v age) =
      (h : Handed) × IsPut hs key asked_ms h
      × (h.payload ≡ v)
      × (h.at_ms + ttl * 1000 ≤ now)
      × (age ≡ (now - h.at_ms) / 1000)
      × (now < h.at_ms + 301 * 1000)
  IsOfPut hs key ttl asked_ms now missing =
      (api.get (puts hs) (cache_url encode key) asked_ms ≡ none)
      ⊎ ((h : Handed) × IsPut hs key asked_ms h
          × (h.at_ms + ttl * 1000 ≤ now)
          × (h.at_ms + 301 * 1000 ≤ now))

  -- What was filed is the put `h`, and is read back as its entry.
  record IsFiled (h : Handed) (f : Filed) : Type 0 where
    url : f.url ≡ cache_url encode h.key
    max_age : f.max_age ≡ max_age_of h.ttl_secs
    filed_ms : f.filed_ms ≡ h.filed_ms
    back : serde.from_str f.raw ≡ ok (record { fetched_at = h.at_ms; payload = h.payload })

  -- What a put adds is its own.
  put-IsFiled :
      (h : Handed) (log : List Filed) (f : Filed)
      → IsLossless serde
      → Elem f (put encode serde api log h.key h.payload h.ttl_secs h.at_ms h.filed_ms)
      → IsFiled h f ⊎ Elem f log
  unfolding put
  put-IsFiled h log f lossless m =
      let (raw, written, back) = lossless (record { fetched_at = h.at_ms; payload = h.payload }) in
      let header = codes "max-age=" ++ print (max_age_of h.ttl_secs) in
      let m' = rw (put, written) at m in
      elim (Bool-cases (api.set (codes "Cache-Control") header)) [
        | inl set ↦ elim (Bool-cases (api.response raw)) [
          | inl made ↦ elim (rw (set, made) at m') [
            | inl e ↦ inl (record {
              url = ap (λ (f : Filed). f.url) e;
              max_age = ap (λ (f : Filed). f.max_age) e;
              filed_ms = ap (λ (f : Filed). f.filed_ms) e;
              back = ap (λ (f : Filed). serde.from_str f.raw) e ∙ back;
            })
            | inr old ↦ inr old
          ]
          | inr not ↦ inr (rw (set, not) at m')
        ]
        | inr not ↦ inr (rw not at m')
      ]

  filed-puts :
      (hs : List Handed) (f : Filed)
      → IsLossless serde
      → Elem f (puts hs)
      → (h : Handed) × Elem h hs × IsFiled h f
  unfolding puts
  filed-puts [] f lossless m = elim m [ ]
  filed-puts (h ∷ hs) f lossless m = elim (put-IsFiled h (puts hs) f lossless m) [
    | inl own ↦ (h, inl refl, own)
    | inr old ↦ let (g, there, is) = filed-puts hs f lossless old in (g, inr there, is)
  ]

  judge-IsOfPut :
      (hs : List Handed) (key : Text) (ttl asked_ms now : ℕ) (h : Handed) (v : Freshness)
      → 0 < ttl
      → IsPut hs key asked_ms h
      → classify h.at_ms now ttl ≡ v
      → IsOfPut hs key ttl asked_ms now
          (judge (record { fetched_at = h.at_ms; payload = h.payload }) v)
  unfolding judge
  judge-IsOfPut hs key ttl asked_ms now h Freshness.fresh positive is e =
      (h, is, refl, (classify_iff h.at_ms now ttl 0 positive).0.0 e)
  judge-IsOfPut hs key ttl asked_ms now h (Freshness.stale age) positive is e =
      let (past, counted, within) = (classify_iff h.at_ms now ttl age positive).1.0 e in
      (h, is, refl, past, counted, within)
  judge-IsOfPut hs key ttl asked_ms now h expired positive is e =
      let (past, over) = (classify_iff h.at_ms now ttl 0 positive).2.0 e in inr (h, is, past, over)

  -- Whatever the Cache API drops or refuses, and after any puts: a fresh read of a key is the payload
  -- of a put of that very key whose TTL has not passed, a stale one the payload of such a put with its
  -- age, from the end of the TTL to the end of second 300 behind the put, in both cases one that the
  -- API took at most its max-age ago; and a key is missing only where the API has nothing for it or
  -- such a put is past both bounds. The TTL is above zero, the JSON library reads entries back, the
  -- API gives nothing but what it was handed, within its max-age, and the encoding of keys
  -- tells them apart.
  pub get-IsOfPut :
      (hs : List Handed) (key : Text) (ttl asked_ms now : ℕ)
      → IsHonest api
      → IsLossless serde
      → ((a b : Text) → encode a ≡ encode b → a ≡ b)
      → 0 < ttl
      → IsOfPut hs key ttl asked_ms now (get encode serde api (puts hs) key ttl asked_ms now)
  unfolding get read
  get-IsOfPut hs key ttl asked_ms now honest lossless one positive =
      elim (Option-cases (api.get (puts hs) (cache_url encode key) asked_ms)) [
        | inl e ↦ rw (get, e) (inl e)
        | inr (raw, e) ↦
            let (f, there, at, same, young) =
              honest.filed (puts hs) (cache_url encode key) raw asked_ms e in
            let (h, mine, is) = filed-puts hs f lossless there in
            let own : h.key ≡ key = one h.key key (
              append_cancel_left (codes "https://api.traintime.ch/__cache/") _ _
                (sym is.url ∙ at)) in
            let back = ap serde.from_str (sym same) ∙ is.back in
            rw (get, e, read, back)
              (judge-IsOfPut hs key ttl asked_ms now h (classify h.at_ms now ttl) positive
                (mine, own, rw (is.max_age, is.filed_ms) at young) refl)
      ]
