-- ===== src/Server/Middleware.antt =====
-- server/src/main.rs: the middleware `auth` around the routes, with the request line and the CORS
-- headers. `next` is the router; `ms` is the time that has passed when the line is written.
pub mod Line
use traintime_api.Common.{
  ℕ, ◌≡◌, ◌⊎◌, refl, Option, none, some, [], if◌then◌else◌, unwrap_or, Text, codes, text_eq, insert,
  lookup, ◌∙◌, inl, inr, Bool-cases, Option-cases, lookup-insert, lookup-insert_self, All, Elem,
  false,
}
use traintime_api.Core.Auth.{ApiKeys, matched, label}
use traintime_api.Core.Auth.Laws.{HasChars, matched-cases}
use traintime_api.Core.Reqlog.{CacheStatus, format_line}
use traintime_api.Http.{Body, no_content, health_ok, error, Response, Request}

abbrev plain : {B : Type 0} → ℕ → Body B → Response B
plain status body = record { status = status; body = body; headers = []; cache = CacheStatus.none }

unfoldable pub health : {B : Type 0} → Response B
health = plain 200 health_ok

unfoldable pub fallback : {B : Type 0} → Response B
fallback = plain 404 (error (codes "Not found"))

unfoldable pub with_cors : {B : Type 0} → Response B → Response B
with_cors resp = record resp {
  headers = insert (codes "x-api-version") (codes "1") (
      insert (codes "access-control-allow-headers") (codes "Content-Type, X-API-Key") (
        insert (codes "access-control-allow-methods") (codes "GET, OPTIONS")
          (insert (codes "access-control-allow-origin") (codes "*") resp.headers)));
}

-- An answer with the line that is printed for it, if one is.
pub record Answered (B : Type 0) : Type 0 where
  pub response : Response B
  pub line : Option Text

unfoldable pub log_request : {B : Type 0} → Text → Text → Response B → ℕ → Option Text → Text
log_request method path resp ms key = format_line method path resp.status ms resp.cache key

abbrev pub logged : {B : Type 0} → Request → Response B → ℕ → Option Text → Answered B
logged req resp ms key = record {
  response = resp;
  line = some (log_request req.method req.path resp ms key);
}

unfoldable pub auth : {B : Type 0} → ApiKeys → ℕ → (Request → Response B) → Request → Answered B
unfolding with_cors
auth api_keys ms next req =
    if text_eq req.method (codes "OPTIONS")
    then record { response = with_cors (plain 204 no_content); line = none }
    else if text_eq req.path (codes "/health")
    then logged req (with_cors (next req)) ms none
    else elim (matched api_keys (unwrap_or req.api_key [])) [
      | some key ↦ logged req (with_cors (next req)) ms (some (label key))
      | none ↦ logged req (with_cors (plain 401 (error (codes "Unauthorized")))) ms none
    ]

-- Past the preflight and the health probe, and for keys made of characters, a request that presents
-- one of the keys is answered by the routes, and any other is answered with 401 whatever the routes
-- would say.
pub auth-iff_Elem :
    {B : Type 0} (api_keys : ApiKeys) (ms : ℕ) (next other : Request → Response B) (req : Request)
    → text_eq req.method (codes "OPTIONS") ≡ false
    → text_eq req.path (codes "/health") ≡ false
    → All HasChars api_keys.keys
    → HasChars (unwrap_or req.api_key [])
    → (Elem (unwrap_or req.api_key []) api_keys.keys
        × ((auth api_keys ms next req).response ≡ with_cors (next req)))
      ⊎ ((¬ Elem (unwrap_or req.api_key []) api_keys.keys)
          × ((auth api_keys ms next req).response.status ≡ 401)
          × (auth api_keys ms next req ≡ auth api_keys ms other req))
unfolding with_cors auth
auth-iff_Elem api_keys ms next other req h h' hk hp =
    elim (matched-cases api_keys (unwrap_or req.api_key []) hk hp) [
      | inl (m, e) ↦ inl (m, rw (auth, h, h', e) refl)
      | inr (m, e) ↦ inr (m, rw (auth, h, h', e) refl, rw (auth, h, h', e) refl)
    ]

lookup-with_cors :
    {B : Type 0} (resp : Response B)
    → (lookup (codes "access-control-allow-origin") (with_cors resp).headers ≡ some (codes "*"))
      × (lookup (codes "x-api-version") (with_cors resp).headers ≡ some (codes "1"))
unfolding with_cors
lookup-with_cors resp =
    let origin = codes "access-control-allow-origin" in
    let m1 = insert origin (codes "*") resp.headers in
    let m2 = insert (codes "access-control-allow-methods") (codes "GET, OPTIONS") m1 in
    let m3 = insert (codes "access-control-allow-headers") (codes "Content-Type, X-API-Key") m2 in
    (
      lookup-insert (codes "x-api-version") origin (codes "1") m3
          ∙ lookup-insert (codes "access-control-allow-headers") origin
              (codes "Content-Type, X-API-Key") m2
          ∙ lookup-insert (codes "access-control-allow-methods") origin (codes "GET, OPTIONS") m1
          ∙ lookup-insert_self origin (codes "*") resp.headers,
      lookup-insert_self (codes "x-api-version") (codes "1") m3,
    )

auth-with_cors :
    {B : Type 0} (api_keys : ApiKeys) (ms : ℕ) (next : Request → Response B) (req : Request)
    → (resp : Response B) × ((auth api_keys ms next req).response ≡ with_cors resp)
unfolding auth
auth-with_cors api_keys ms next req = elim (Bool-cases (text_eq req.method (codes "OPTIONS"))) [
  | inl m ↦ (plain 204 no_content, rw (auth, m) refl)
  | inr m ↦ elim (Bool-cases (text_eq req.path (codes "/health"))) [
    | inl p ↦ (next req, rw (auth, m, p) refl)
    | inr p ↦ elim (Option-cases (matched api_keys (unwrap_or req.api_key []))) [
      | inl e ↦ (plain 401 (error (codes "Unauthorized")), rw (auth, m, p, e) refl)
      | inr (key, e) ↦ (next req, rw (auth, m, p, e) refl)
    ]
  ]
]

-- Every answer allows every origin and names the version of the interface, refusals and preflights
-- included.
pub auth-cors :
    {B : Type 0} (api_keys : ApiKeys) (ms : ℕ) (next : Request → Response B) (req : Request)
    → (lookup (codes "access-control-allow-origin") (auth api_keys ms next req).response.headers
        ≡ some (codes "*"))
      × (lookup (codes "x-api-version") (auth api_keys ms next req).response.headers
          ≡ some (codes "1"))
auth-cors api_keys ms next req =
    let (resp, e) = auth-with_cors api_keys ms next req in rw e (lookup-with_cors resp)
