-- ===== src/Worker/Entry.antt =====
-- src/lib.rs: the Worker's entry point. The bindings of `env` are parameters, as is the router.
use traintime_api.Common.{
  ℕ, ◌^◌, Option, none, some, [], if◌then◌else◌, unwrap_or, Result, ok, err, Text, codes, text_eq,
  insert,
}
use traintime_api.Common.Decimal.{parse_below}
use traintime_api.Core.Auth.{parse, matched, label}
use traintime_api.Core.Reqlog.{CacheStatus, format_line}
use traintime_api.Http.{Body, no_content, error, Response, Request}
use traintime_api.Server.Middleware.{Answered}

-- `env.secret`, `env.var` and `env.d1`, whose error is a text.
pub record Bindings (Db : Type 0) : Type 0 where
  pub secret : Text → Result Text Text
  pub var : Text → Result Text Text
  pub d1 : Text → Result Db Text

pub record AppState (Db : Type 0) : Type 0 where
  pub db : Db
  pub ojp_api_key : Text
  pub ojp_endpoint : Text
  pub formation_api_key : Text
  pub cache_ttl : ℕ

abbrev or_else : Result Text Text → Result Text Text → Result Text Text
or_else (ok v) other = ok v
or_else (err e) other = other

abbrev pub to_option : Result Text Text → Option Text
to_option (ok v) = some v
to_option (err e) = none

unfoldable pub add_cors_headers : {B : Type 0} → Response B → Response B
add_cors_headers resp = record resp {
  headers = insert (codes "x-api-version") (codes "1") (
      insert (codes "access-control-allow-headers") (codes "Content-Type, X-API-Key") (
        insert (codes "access-control-allow-methods") (codes "GET, OPTIONS")
          (insert (codes "access-control-allow-origin") (codes "*") resp.headers)));
}

unfoldable pub log_request : {B : Type 0} → Text → Text → Response B → ℕ → Option Text → Text
log_request method path resp ms key = format_line method path resp.status ms resp.cache key

abbrev pub built : {B : Type 0} → ℕ → Body B → Response B
built status body = record { status = status; body = body; headers = []; cache = CacheStatus.none }

abbrev ojp_default : Text
ojp_default = codes "https://api.opentransportdata.swiss/ojp20"

abbrev pub and_then : {A C : Type 0} → Result A Text → (A → Result C Text) → Result C Text
and_then (ok a) k = k a
and_then (err e) k = err e

abbrev ttl_of : Option Text → ℕ
ttl_of none = 60
ttl_of (some v) = unwrap_or (parse_below (2 ^ 64) v) 60

module _ {Db : Type 0} (env : Bindings Db) where
  -- A secret, or the variable of the same name.
  abbrev pub configured : Text → Result Text Text
  configured name = or_else (env.secret name) (env.var name)

  -- The label of the key that the request presents.
  unfoldable pub key_label_of : Option Text → Option Text
  key_label_of none = none
  key_label_of (some provided) =
      elim (parse (to_option (configured (codes "API_KEYS")))
        (to_option (configured (codes "API_KEY")))) [
          | err e ↦ none
          | ok keys ↦ elim (matched keys provided) [ none ↦ none | some key ↦ some (label key) ]
        ]

  unfoldable pub build_state : Result (AppState Db) Text
  build_state = and_then (env.d1 (codes "DB")) (λ db.
      and_then (configured (codes "OJP_API_KEY")) (λ ojp_api_key.
        and_then (configured (codes "FORMATION_API_KEY")) (λ formation_api_key. ok (record {
          db = db;
          ojp_api_key = ojp_api_key;
          ojp_endpoint = unwrap_or (to_option (env.var (codes "OJP_ENDPOINT"))) ojp_default;
          formation_api_key = formation_api_key;
          cache_ttl = ttl_of (to_option (env.var (codes "DEPARTURE_CACHE_TTL")));
        }))))

  -- The state, then the routes; the runtime answers where a binding is missing.
  unfoldable pub route :
      {B : Type 0}
      → ℕ
      → (AppState Db → Request → Result (Response B) Text)
      → Request
      → Option Text
      → Result (Answered B) Text
  unfolding build_state add_cors_headers log_request
  route ms router req key_label = and_then build_state (λ state. elim (router state req) [
    | ok resp ↦
        let resp' = add_cors_headers resp in
        ok (record {
          response = resp';
          line = some (log_request req.method req.path resp' ms key_label);
        })
    | err e ↦ ok (record { response = add_cors_headers (built 500 (error e)); line = none })
  ])

  unfoldable pub unauthorized : {B : Type 0} → ℕ → Request → Answered B
  unfolding add_cors_headers log_request
  unauthorized ms req =
      let resp = add_cors_headers (built 401 (error (codes "Unauthorized"))) in
      record { response = resp; line = some (log_request req.method req.path resp ms none) }

  unfoldable pub fetch :
      {B : Type 0}
      → ℕ
      → (AppState Db → Request → Result (Response B) Text)
      → Request
      → Result (Answered B) Text
  unfolding key_label_of route unauthorized add_cors_headers
  fetch ms router req =
      if text_eq req.method (codes "OPTIONS")
      then ok (record { response = add_cors_headers (built 204 no_content); line = none })
      else if text_eq req.path (codes "/health")
      then route ms router req none
      else elim (key_label_of req.api_key) [
        | none ↦ ok (unauthorized ms req)
        | some key_label ↦ route ms router req (some key_label)
      ]
