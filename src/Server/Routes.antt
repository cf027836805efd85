-- ===== src/Server/Routes.antt =====
-- server/src/routes/mod.rs and departures.rs. `cached` stands for `inflight.cached` on the pod's
-- cache: it takes the key, the TTL and the outcome that `fetch` has if it is run.
pub mod Nearby
pub mod Formation
use traintime_api.Common.{
  ℕ, Option, none, some, List, [], ◌∷◌, ◌++◌, map, if◌then◌else◌, unwrap_or, take, is_empty, Result,
  ok, err, Text, codes, insert,
}
use traintime_api.Common.Decimal.{print}
use traintime_api.Core.Favourites.{parse_favourites, partition_favourites}
use traintime_api.Core.Ojp.{FlatDeparture}
use traintime_api.Core.Reqlog
use traintime_api.Core.Reqlog.{CacheStatus}
use traintime_api.Http.{Body, error, payload, Response, Serde, DeparturesQuery, stale_header}
use traintime_api.Server.Fetch.{Fetched, cached, fresh, stale, failed, cache_status}

-- Rows, with the favourites among them where some were asked for.
pub data Board : Type 0 where
  rows : List FlatDeparture → Board
  parted : List FlatDeparture → List FlatDeparture → Board

abbrev pub Upstream : Type 0
Upstream = Text → ℕ → Result Text Text → Fetched

abbrev pub stale_headers : Option ℕ → List (Text × Text)
stale_headers none = []
stale_headers (some age) = insert stale_header (print age) []

unfoldable pub respond : {B : Type 0} → ℕ → Body B → Option ℕ → CacheStatus → Response B
respond status body stale_age cache = record {
  status = status;
  body = body;
  headers = stale_headers stale_age;
  cache = cache;
}

abbrev pub fetch_limit : ℕ
fetch_limit = 50

unfoldable pub departures_key : Text → Text
departures_key station_id = codes "departures:" ++ (station_id ++ (codes ":" ++ print fetch_limit))

-- The closure's result: the upstream rows as JSON.
unfoldable pub to_json : {A : Type 0} → Serde A → Result A Text → Result Text Text
to_json serde (ok a) = serde.to_string a
to_json serde (err e) = err e

module _ (serde : Serde (List FlatDeparture)) where
  -- From the JSON to the answer.
  unfoldable pub show_board :
      List (Text × Text) → ℕ → CacheStatus → Text → Option ℕ → Response Board
  unfolding respond
  show_board fav_pairs limit cache json stale_age = elim (serde.from_str json) [
    | err e ↦ respond 500 (error e) none cache
    | ok departures ↦
        if is_empty fav_pairs
        then respond 200 (payload (rows (take limit departures))) stale_age cache
        else let (favs, deps) = partition_favourites departures fav_pairs limit in
          respond 200 (payload (parted favs deps)) stale_age cache
  ]

  unfoldable pub answer_board : List (Text × Text) → ℕ → Fetched → Response Board
  unfolding show_board cache_status respond
  answer_board fav_pairs limit (fresh v) =
      show_board fav_pairs limit (cache_status (fresh v)) v none
  answer_board fav_pairs limit (cached v) =
      show_board fav_pairs limit (cache_status (cached v)) v none
  answer_board fav_pairs limit (stale v age) =
      show_board fav_pairs limit (cache_status (stale v age)) v (some age)
  answer_board fav_pairs limit (failed e) = respond 500 (error e) none (cache_status (failed e))

  abbrev pub favourite_pairs : Option Text → List (Text × Text)
  favourite_pairs none = []
  favourite_pairs (some raw) = parse_favourites raw

  unfoldable pub handle_departures :
      Upstream
      → (Text → ℕ → Result (List FlatDeparture) Text)
      → ℕ
      → DeparturesQuery
      → Response Board
  unfolding answer_board departures_key to_json respond
  handle_departures inflight fetch_departures cache_ttl params = elim params.id [
    | none ↦ respond 400 (error (codes "Missing id parameter")) none CacheStatus.none
    | some station_id ↦
        answer_board (favourite_pairs params.favourites) (unwrap_or params.limit 5) (
          inflight (departures_key station_id) cache_ttl
            (to_json serde (fetch_departures station_id fetch_limit)))
  ]
