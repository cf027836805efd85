-- ===== src/Worker/Routes.antt =====
-- src/routes/mod.rs and departures.rs. `get` is the edge cache's answer for a key and a TTL. A
-- handler returns its answer and what it puts into the edge cache.
pub mod Nearby
pub mod Formation
use traintime_api.Common.{
  ℕ, Option, none, some, List, [], ◌∷◌, ◌++◌, if◌then◌else◌, unwrap_or, take, is_empty, Result, ok,
  err, Text, codes,
}
use traintime_api.Common.Decimal.{print}
use traintime_api.Core.Favourites.{parse_favourites, partition_favourites}
use traintime_api.Core.Ojp.{FlatDeparture}
use traintime_api.Core.Reqlog
use traintime_api.Core.Reqlog.{CacheStatus}
use traintime_api.Http.{Body, error, payload, Response, Serde, DeparturesQuery}
use traintime_api.Server.Routes.{Board, rows, parted, stale_headers}
use traintime_api.Worker.Cache.{Cached, fresh, stale, missing}

-- `cache::put` of a key, a payload and a TTL.
pub record Put : Type 0 where
  pub key : Text
  pub payload : Text
  pub ttl_secs : ℕ

pub record Reply (B : Type 0) : Type 0 where
  pub response : Response B
  pub puts : List Put

unfoldable pub respond : {B : Type 0} → ℕ → Body B → Option ℕ → CacheStatus → Response B
respond status body stale_age cache = record {
  status = status;
  body = body;
  headers = stale_headers stale_age;
  cache = cache;
}

-- What the read of the cache and the upstream call leave: the payload with its age if it is stale,
-- or the upstream error; the status for the log; and the put.
pub record Got : Type 0 where
  pub outcome : Result (Text × Option ℕ) Text
  pub cache : CacheStatus
  pub puts : List Put

abbrev pub to_json_or_default : {A : Type 0} → Serde A → A → Text
to_json_or_default serde a = elim (serde.to_string a) [ ok json ↦ json | err e ↦ [] ]

-- The inner `match`: the upstream call failed.
unfoldable pub fall_back : Cached → Text → Got
fall_back (stale v age) e = record {
  outcome = ok (v, some age);
  cache = CacheStatus.hit;
  puts = [];
}
fall_back (fresh v) e = record { outcome = err e; cache = CacheStatus.miss; puts = [] }
fall_back missing e = record { outcome = err e; cache = CacheStatus.miss; puts = [] }

abbrev call_upstream : {A : Type 0} → Serde A → Text → ℕ → Cached → Result A Text → Got
call_upstream serde key ttl c (ok a) =
    let json = to_json_or_default serde a in
    record {
      outcome = ok (json, none);
      cache = CacheStatus.miss;
      puts = record { key = key; payload = json; ttl_secs = ttl } ∷ [];
    }
call_upstream serde key ttl c (err e) = fall_back c e

-- The outer `match`: only an entry within its TTL spares the upstream call.
unfoldable pub fetch_through : {A : Type 0} → Serde A → Text → ℕ → Cached → Result A Text → Got
unfolding fall_back
fetch_through serde key ttl (fresh v) upstream = record {
  outcome = ok (v, none);
  cache = CacheStatus.hit;
  puts = [];
}
fetch_through serde key ttl (stale v age) upstream =
    call_upstream serde key ttl (stale v age) upstream
fetch_through serde key ttl missing upstream = call_upstream serde key ttl missing upstream

abbrev pub departures_key : Text → Text
departures_key station_id = codes "departures:" ++ (station_id ++ (codes ":" ++ print 50))

module _ (serde : Serde (List FlatDeparture)) where
  unfoldable pub show_board :
      List (Text × Text) → ℕ → CacheStatus → Text → Option ℕ → Response Board
  unfolding respond
  show_board fav_pairs limit cache json stale_age = elim (serde.from_str json) [
    | err e ↦ respond 500 (error e) none cache
    | ok departures ↦
        if is_empty fav_pairs
        then respond 200 (payload (rows (take limit departures))) stale_age cache
        else let (favs, deps) = partition_favourites departures fav_pairs limit in
          respond 200 (payload (parted favs deps)) stale_age cache
  ]

  unfoldable pub answer_board : List (Text × Text) → ℕ → Got → Reply Board
  unfolding show_board respond
  answer_board fav_pairs limit got = record {
    response = elim got.outcome [
      | ok (json, stale_age) ↦ show_board fav_pairs limit got.cache json stale_age
      | err e ↦ respond 500 (error e) none got.cache
    ];
    puts = got.puts;
  }

  abbrev pub favourite_pairs : Option Text → List (Text × Text)
  favourite_pairs none = []
  favourite_pairs (some raw) = parse_favourites raw

  unfoldable pub handle_departures :
      (Text → ℕ → Cached)
      → (Text → ℕ → Result (List FlatDeparture) Text)
      → ℕ
      → DeparturesQuery
      → Reply Board
  unfolding answer_board fetch_through respond
  handle_departures get fetch_departures cache_ttl params = elim params.id [
    | none ↦ record {
      response = respond 400 (error (codes "Missing id parameter")) none CacheStatus.none;
      puts = [];
    }
    | some station_id ↦
        let key = departures_key station_id in
        answer_board (favourite_pairs params.favourites) (unwrap_or params.limit 5)
          (fetch_through serde key cache_ttl (get key cache_ttl) (fetch_departures station_id 50))
  ]
