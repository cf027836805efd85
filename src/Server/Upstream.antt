-- ===== src/Server/Upstream.antt =====
-- server/src/ojp.rs and server/src/formation.rs: the calls of the two upstream interfaces. `send`
-- is the HTTP client.
use traintime_api.Common.{
  ℕ, true, false, Option, none, some, List, [], ◌∷◌, ◌++◌, if◌then◌else◌, ◌==◌, Result, ok, err,
  Text, codes, ℤ,
}
use traintime_api.Common.Decimal.{print}
use traintime_api.Common.Float.{Float64}
use traintime_api.Core.Error.{CoreError, fmt}
use traintime_api.Core.Formation.{FormationResult}
use traintime_api.Core.Formation.Response.{Json, parse_formation_response}
use traintime_api.Core.Formation.Scan.{Captures}
use traintime_api.Core.Ojp.{FlatDeparture}
use traintime_api.Core.Ojp.Events.{parse_stop_events}
use traintime_api.Core.Ojp.Patterns.{RegexLib}
use traintime_api.Core.Ojp.Request.{build_stop_event_request_xml}
use traintime_api.Http.{Outgoing, Incoming, try}
use traintime_api.Server.Routes.Formation.{Asked}

abbrev pub formation_endpoint : Text
formation_endpoint = codes "https://api.opentransportdata.swiss/formation/v1/formations_stop_based"

-- The parsers of chrono, in milliseconds: one for a time with a zone designator, one by a format.
pub record Chrono : Type 0 where
  parse_from_rfc3339 : Text → Option ℤ
  parse_from_str : Text → Text → Option ℤ

-- A zone designator first, then none, with and without a fraction; 0 where nothing reads it.
unfoldable pub iso_to_ms : (f : Float64) → Chrono → Text → f.F
iso_to_ms f chrono iso = elim (chrono.parse_from_rfc3339 iso) [
  | some ms ↦ f.of_i64 ms
  | none ↦ elim (chrono.parse_from_str iso (codes "%Y-%m-%dT%H:%M:%S%.f")) [
    | some ms ↦ f.of_i64 ms
    | none ↦ elim (chrono.parse_from_str iso (codes "%Y-%m-%dT%H:%M:%S")) [
      | some ms ↦ f.of_i64 ms
      | none ↦ f.lit 0
    ]
  ]
]

unfoldable pub ojp_request : Text → Text → Text → ℕ → Text → ℕ → Outgoing
ojp_request endpoint api_key stop_ref limit now_iso now_ms = record {
  post = true;
  url = endpoint;
  headers =
      (codes "Content-Type", codes "application/xml")
      ∷ (codes "Authorization", codes "Bearer " ++ api_key)
      ∷ [];
  body = build_stop_event_request_xml stop_ref limit now_iso now_ms;
}

formation_url : Asked → Text
formation_url a =
    formation_endpoint
    ++ (codes "?evu="
        ++ (a.evu
            ++ (codes "&operationDate=" ++ (a.date ++ (codes "&trainNumber=" ++ a.train_number)))))

unfoldable pub formation_request : Text → Asked → Outgoing
unfolding formation_url
formation_request api_key a = record {
  post = false;
  url = formation_url a;
  headers =
      (codes "Authorization", codes "Bearer " ++ api_key)
      ∷ (codes "Accept", codes "application/json")
      ∷ [];
  body = [];
}

-- The body of a response with status 200.
unfoldable pub body_of : Text → Incoming → Result Text Text
body_of name resp =
    if resp.status == 200
    then resp.text
    else err (name ++ (codes " API error: " ++ print resp.status))

abbrev pub to_text : {A : Type 0} → Result A CoreError → Result A Text
to_text (ok a) = ok a
to_text (err e) = err (fmt e)

-- The rows of a stop. The outer option is the panic of the parser.
module _ (lib : RegexLib) (compiled : Text → lib.Regex) (f : Float64) (chrono : Chrono) where
  unfoldable pub read_board : Result Text Text → Option (Result (List FlatDeparture) Text)
  read_board (err e) = some (err e)
  read_board (ok xml) = elim (parse_stop_events lib compiled f (iso_to_ms f chrono) xml) [
    | none ↦ none
    | some rows ↦ some (ok rows)
  ]

  unfoldable pub fetch_departures :
      (Outgoing → Result Incoming Text)
      → Text
      → Text
      → Text
      → ℕ
      → Text
      → ℕ
      → Option (Result (List FlatDeparture) Text)
  unfolding ojp_request body_of read_board
  fetch_departures send endpoint api_key stop_ref limit now_iso now_ms = read_board (
      try (send (ojp_request endpoint api_key stop_ref limit now_iso now_ms))
        (body_of (codes "OJP")))

-- A formation. `parse` is `resp.json()`.
module _ (json : Json) (captures : Text → Option Captures)
    (parse : Text → Result json.Value Text) where
  read_formation : Option Text → Text → Result FormationResult Text
  read_formation stop_uic text =
      try (parse text) (λ body. to_text (parse_formation_response json captures body stop_uic))

  unfoldable pub fetch_formation :
      (Outgoing → Result Incoming Text) → Text → Asked → Result FormationResult Text
  unfolding formation_request body_of read_formation
  fetch_formation send api_key a =
      try (send (formation_request api_key a))
        (λ resp. try (body_of (codes "Formation") resp) (read_formation a.stop))
