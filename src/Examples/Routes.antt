-- ===== src/Examples/Routes.antt =====
-- The routes of both runtimes at concrete inputs, with a JSON library that knows one text.
use traintime_api.Common.{
  ℕ, ◌≡◌, ◌⊎◌, refl, none, some, List, [], ◌∷◌, arith, Elem, Result, ok, err, Text, codes, text_eq,
  lookup, split, trim, insert, if◌then◌else◌,
}
use traintime_api.Common.Decimal.{print}
use traintime_api.Common.Utf8.{as_bytes}
use traintime_api.Core.Auth.{ApiKeys, parse, matched, label, constant_time_eq}
use traintime_api.Core.Formation.{FormationResult}
use traintime_api.Core.Ojp.{FlatDeparture}
use traintime_api.Core.Reqlog.{CacheStatus, as_str, format_line, route_template}
use traintime_api.Examples.Nearby.{grid}
use traintime_api.Http.{
  Serde, Request, Response, DeparturesQuery, FormationQuery, NearbyQuery, health_ok,
}
use traintime_api.Server.Middleware.{auth, with_cors, log_request, auth-iff_Elem, auth-cors}
use traintime_api.Server.Routes as Server
use traintime_api.Server.Routes.Formation as ServerFormation
use traintime_api.Worker.Agreement.Entry.{api_keys_of}
use traintime_api.Worker.Cache.{Cached, stale}
use traintime_api.Worker.Agreement.Routing.{fetch-agree_routed}
use traintime_api.Worker.Router as WorkerRouter
use traintime_api.Server.Config as ServerConfig
use traintime_api.Server.Config.{Handlers}
use traintime_api.Server.Config.Served.{IsServed, IsUnknown, router-route_template}
use traintime_api.Server.Middleware.Line.{IsLineOf, auth-line}
use traintime_api.Worker.Entry.{Bindings, AppState, build_state, fetch}
use traintime_api.Worker.Routes as Worker

abbrev pub rows_json : Serde (List FlatDeparture)
rows_json = record { to_string = λ rows. ok (codes "[]"); from_str = λ text. ok [] }

-- The edge cache holds an old board for the one station, and the upstream call fails.
abbrev held : Text → ℕ → Cached
held key ttl = stale (codes "[]") 90

abbrev pub failing : Text → ℕ → Result (List FlatDeparture) Text
failing stop limit = err (codes "OJP API error: 429")

abbrev pub bern : DeparturesQuery
bern = record { id = some (codes "8507000"); limit = none; favourites = none }

abbrev shown : Response Server.Board
shown = (Worker.handle_departures rows_json held failing 60 bern).response

-- The old board is served with its age.
stale_board : (shown.status ≡ 200) × (shown.headers ≡ (codes "x-traintime-stale", codes "90") ∷ [])
unfolding Worker.handle_departures print insert
stale_board = (refl, refl)

abbrev pub here : NearbyQuery grid
here = record { lat = some 0; lon = some 0; query = none; mode = some (codes "bus") }

abbrev pub formation_json : Serde FormationResult
formation_json = record { to_string = λ r. ok r.track; from_str = λ text. err text }

abbrev pub ic1 : FormationQuery
ic1 = record {
  train = some (codes "IC1");
  date = some (codes "2026-09-17");
  stop = none;
  evu = none;
  operator_ref = none;
}

abbrev pub fetched : ServerFormation.Asked → Result FormationResult Text
fetched a = ok (record { track = codes "7"; sectors = []; wagons = [] })

abbrev keys : ApiKeys
keys = record { keys = codes "ios-1" ∷ [] }

abbrev asking : Request
asking = record { method = codes "GET"; path = codes "/v1/nearby"; api_key = some (codes "ios-1") }

abbrev routes : Request → Response ℕ
routes req = record { status = 200; body = health_ok; headers = []; cache = CacheStatus.none }

abbrev closed : Request → Response ℕ
closed req = record { status = 503; body = health_ok; headers = []; cache = CacheStatus.none }

auth-iff_Elem_example :
    (Elem (codes "ios-1") keys.keys
      × ((auth keys 3 routes asking).response ≡ with_cors (routes asking)))
    ⊎ ((¬ Elem (codes "ios-1") keys.keys)
        × ((auth keys 3 routes asking).response.status ≡ 401)
        × (auth keys 3 routes asking ≡ auth keys 3 closed asking))
auth-iff_Elem_example =
    auth-iff_Elem keys 3 routes closed asking refl refl (omega arith) (omega arith)

auth-cors_example :
    (lookup (codes "access-control-allow-origin") (auth keys 3 routes asking).response.headers
      ≡ some (codes "*"))
    × (lookup (codes "x-api-version") (auth keys 3 routes asking).response.headers
        ≡ some (codes "1"))
auth-cors_example = auth-cors keys 3 routes asking

-- Bindings with one key.
abbrev var_of : Text → Result Text Text
var_of name = if text_eq name (codes "API_KEY") then ok (codes "ios-1") else err (codes "unset")

abbrev complete : Bindings ℕ
complete = record { secret = λ name. ok (codes "ios-1"); var = var_of; d1 = λ name. ok 0 }

abbrev router : AppState ℕ → Request → Result (Response ℕ) Text
router state req = ok (routes req)

abbrev state : AppState ℕ
state = record {
  db = 0;
  ojp_api_key = codes "ios-1";
  ojp_endpoint = codes "https://api.opentransportdata.swiss/ojp20";
  formation_api_key = codes "ios-1";
  cache_ttl = 60;
}

keys_run : api_keys_of complete ≡ ok keys
unfolding parse split trim
keys_run = refl

state_run : build_state complete ≡ ok state
unfolding build_state
state_run = refl

abbrev worker_handlers : AppState ℕ → Handlers ℕ
worker_handlers _ = record { nearby = routes; departures = routes; formation = closed }

abbrev handlers : Handlers ℕ
handlers = record { nearby = routes; departures = routes; formation = closed }

abbrev only_get : (Request → Response ℕ) → Request → Response ℕ
only_get handler req = if text_eq req.method (codes "GET") then handler req else closed req

fetch-agree_routed_example :
    fetch complete 3 (WorkerRouter.router only_get worker_handlers) asking
    ≡ ok (auth keys 3 (ServerConfig.router only_get handlers) asking)
fetch-agree_routed_example =
    fetch-agree_routed only_get complete 3 worker_handlers handlers asking keys state keys_run
      state_run (record { nearby = λ req. refl; departures = λ req. refl; formation = λ req. refl })

abbrev line : Text
line = codes "req method=GET route=/v1/nearby status=200 ms=3 cache=- key=ios-"

line_run : (auth keys 3 routes asking).line ≡ some line
unfolding auth matched with_cors log_request format_line print as_str route_template
    constant_time_eq as_bytes label
line_run = refl

auth-line_example : IsLineOf keys 3 asking (auth keys 3 routes asking).response line
auth-line_example = auth-line keys 3 routes asking line (omega arith) (omega arith, tt) line_run

router-route_template_example :
    IsServed only_get handlers asking ⊎ IsUnknown only_get handlers asking
router-route_template_example = router-route_template only_get handlers asking
