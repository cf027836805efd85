-- ===== src/Worker/Upstream.antt =====
-- src/upstream.rs, src/ojp.rs and src/formation.rs: the calls of the two upstream interfaces. `set`
-- and `new` are the runtime's `Headers::set` and `Request::new_with_init`, which can refuse, and
-- `send` is its fetch, which either ends or is still out after the timeout.
use traintime_api.Common.{
  ℕ, Bool, true, false, Option, none, some, List, [], ◌∷◌, ◌++◌, if◌then◌else◌, ◌==◌, Result, ok,
  err, Text, codes,
}
use traintime_api.Common.Decimal.{print}
use traintime_api.Common.Float.{Float64}
use traintime_api.Core.Error.{CoreError, fmt}
use traintime_api.Core.Formation.{FormationResult}
use traintime_api.Core.Formation.Response.{Json, parse_formation_response}
use traintime_api.Core.Formation.Scan.{Captures}
use traintime_api.Core.Ojp.{FlatDeparture}
use traintime_api.Core.Ojp.Events.{parse_stop_events}
use traintime_api.Core.Ojp.Patterns.{RegexLib}
use traintime_api.Core.Ojp.Request.{build_stop_event_request_xml}
use traintime_api.Http.{Outgoing, Incoming, try}
use traintime_api.Server.Routes.Formation.{Asked}
use traintime_api.Server.Upstream.{formation_endpoint}

abbrev upstream_timeout_secs : ℕ
upstream_timeout_secs = 10

-- The race of a call with the delay.
pub data Raced (A : Type 0) : Type 0 where
  left : A → Raced A
  right : Raced A

timed : {A : Type 0} → Text → Raced (Result A Text) → Result A Text
timed name (left result) = result
timed name right =
    err (name ++ (codes " timed out after " ++ (print upstream_timeout_secs ++ codes "s")))

-- What the runtime does with a header, a request and a call.
pub record Runtime : Type 0 where
  pub set : Text → Text → Result Bool Text
  pub new : Outgoing → Result Bool Text
  pub send : Outgoing → Raced (Result Incoming Text)

-- The headers in their order, until one is refused.
set_all : Runtime → List (Text × Text) → Result Bool Text
set_all rt [] = ok true
set_all rt ((name, value) ∷ headers) = try (rt.set name value) (λ _. set_all rt headers)

unfoldable pub call : Runtime → Text → Outgoing → Result Incoming Text
unfolding set_all timed
call rt name req =
    try (set_all rt req.headers) (λ _. try (rt.new req) (λ _. timed name (rt.send req)))

unfoldable pub body_of : Text → Incoming → Result Text Text
body_of name resp =
    if resp.status == 200
    then resp.text
    else err (name ++ (codes " API error: " ++ print resp.status))

abbrev user_agent : Text × Text
user_agent = (codes "User-Agent", codes "traintime/1.0")

unfoldable pub ojp_request : Text → Text → Text → ℕ → Text → ℕ → Outgoing
ojp_request endpoint api_key stop_ref limit now_iso now_ms = record {
  post = true;
  url = endpoint;
  headers =
      (codes "Content-Type", codes "application/xml")
      ∷ (codes "Authorization", codes "Bearer " ++ api_key)
      ∷ user_agent
      ∷ [];
  body = build_stop_event_request_xml stop_ref limit now_iso now_ms;
}

unfoldable pub formation_request : Text → Asked → Outgoing
formation_request api_key a = record {
  post = false;
  url =
      formation_endpoint
      ++ (codes "?evu="
          ++ (a.evu
              ++ (codes "&operationDate="
                  ++ (a.date ++ (codes "&trainNumber=" ++ a.train_number)))));
  headers =
      (codes "Authorization", codes "Bearer " ++ api_key)
      ∷ (codes "Accept", codes "application/json")
      ∷ user_agent
      ∷ [];
  body = [];
}

-- The rows of a stop. The outer option is the panic of the parser; `iso_to_ms` is the runtime's `Date`.
module _ (lib : RegexLib) (compiled : Text → lib.Regex) (f : Float64) (iso_to_ms : Text → f.F) where
  unfoldable pub read_board : Result Text Text → Option (Result (List FlatDeparture) Text)
  read_board (err e) = some (err e)
  read_board (ok xml) = elim (parse_stop_events lib compiled f iso_to_ms xml) [
    | none ↦ none
    | some rows ↦ some (ok rows)
  ]

  unfoldable pub fetch_departures :
      Runtime → Text → Text → Text → ℕ → Text → ℕ → Option (Result (List FlatDeparture) Text)
  unfolding ojp_request call body_of read_board
  fetch_departures rt endpoint api_key stop_ref limit now_iso now_ms = read_board (
      try (call rt (codes "OJP") (ojp_request endpoint api_key stop_ref limit now_iso now_ms))
        (body_of (codes "OJP")))

module _ (json : Json) (captures : Text → Option Captures)
    (parse : Text → Result json.Value Text) where
  abbrev pub to_text : Result FormationResult CoreError → Result FormationResult Text
  to_text (ok a) = ok a
  to_text (err e) = err (fmt e)

  unfoldable pub fetch_formation : Runtime → Text → Asked → Result FormationResult Text
  unfolding formation_request call body_of
  fetch_formation rt api_key a =
      try (call rt (codes "Formation") (formation_request api_key a)) (λ resp.
        try (body_of (codes "Formation") resp) (λ text.
          try (parse text) (λ body. to_text (parse_formation_response json captures body a.stop))))
