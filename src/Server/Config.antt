-- ===== src/Server/Config.antt =====
-- server/src/main.rs, `run`: what the server reads from its environment before it serves, and its
-- router. `var` is `std::env::var`, `read` the reading of the station file, `client` and `bind` the
-- building of the HTTP client and the binding of the port, `get` Axum's method router of that name.
pub mod Laws
pub mod Served
use traintime_api.Common.{
  ℕ, ◌^◌, ◌<◌, ◌≡◌, refl, ap, ◌∙◌, ◌≢◌, inl, inr, Bool, true, false, not, Option, none, some, List,
  [], ◌∷◌, ◌++◌, arith, if◌then◌else◌, unwrap_or, is_empty, Option-cases, Result-cases, Result, ok,
  err, Text, codes, text_eq, trim,
}
use traintime_api.Common.Decimal.{parse_below}
use traintime_api.Common.Float.{Float64}
use traintime_api.Core.Auth.{ApiKeys, parse, matched}
use traintime_api.Core.Auth.Laws.{parse-matched_empty}
use traintime_api.Core.Ojp.Request.{ojp_endpoint}
use traintime_api.Core.Stations.{Station}
use traintime_api.Core.Formation.Response.{◌>>=◌}
use traintime_api.Http.{Response, Request}
use traintime_api.Server.Memcached.{addr_of}
use traintime_api.Server.Middleware.{health, fallback}
use traintime_api.Server.Stations.{load}

abbrev pub Var : Type 0
Var = Text → Option Text

unfoldable pub required_env : Var → Text → Result Text Text
required_env var name = elim (var name) [
  | some v ↦ ok v
  | none ↦ err (codes "missing required env var " ++ name)
]

-- The address of the shared cache; none where the variable is unset or blank.
shared_of : Option Text → Option Text
unfolding addr_of
shared_of none = none
shared_of (some url) = if is_empty (trim url) then none else some (addr_of url)

-- A number of a variable, or the default where it is unset or no number of the type.
unfoldable pub number_or : ℕ → ℕ → Option Text → ℕ
number_or modulus default none = default
number_or modulus default (some v) = unwrap_or (parse_below modulus v) default

module _ (f : Float64) where
  -- What the server serves with: `AppState` less the HTTP client and the tasks in flight, which
  -- begin empty, and the port.
  pub record Config : Type 0 where
    pub db : List (Station f)
    pub shared : Option Text
    pub ojp_endpoint : Text
    pub ojp_api_key : Text
    pub formation_api_key : Text
    pub cache_ttl : ℕ
    pub api_keys : ApiKeys
    pub port : ℕ

  abbrev pub stations_path : Var → Text
  stations_path var = unwrap_or (var (codes "STATIONS_PATH")) (codes "data/stations.json")

  -- In the order of `run`; the first failure ends it.
  unfoldable pub run :
      Var
      → (Text → Result (List (Station f)) Text)
      → Result Bool Text
      → (ℕ → Result Bool Text)
      → Result Config Text
  unfolding required_env shared_of number_or
  run var read client bind = do
    db ← load f (stations_path var) (read (stations_path var))
    built ← client
    ojp_api_key ← required_env var (codes "OJP_API_KEY")
    formation_api_key ← required_env var (codes "FORMATION_API_KEY")
    api_keys ← parse (var (codes "API_KEYS")) (var (codes "API_KEY"))
    let port = number_or (2 ^ 16) 8080 (var (codes "PORT"))
    bound ← bind port
    ok (record {
      db = db;
      shared = shared_of (var (codes "MEMCACHED_URL"));
      ojp_endpoint = unwrap_or (var (codes "OJP_ENDPOINT")) ojp_endpoint;
      ojp_api_key = ojp_api_key;
      formation_api_key = formation_api_key;
      cache_ttl = number_or (2 ^ 64) 60 (var (codes "DEPARTURE_CACHE_TTL"));
      api_keys = api_keys;
      port = port;
    })

-- The handlers of the three routes.
pub record Handlers (B : Type 0) : Type 0 where
  pub nearby : Request → Response B
  pub departures : Request → Response B
  pub formation : Request → Response B

unfoldable pub router :
    {B : Type 0}
    → ((Request → Response B) → Request → Response B)
    → Handlers B
    → Request
    → Response B
unfolding health fallback
router get handlers req =
    if text_eq req.path (codes "/health")
    then get (λ _. health) req
    else if text_eq req.path (codes "/v1/nearby")
    then get handlers.nearby req
    else if text_eq req.path (codes "/v1/departures")
    then get handlers.departures req
    else if text_eq req.path (codes "/v1/formation")
    then get handlers.formation req
    else fallback
