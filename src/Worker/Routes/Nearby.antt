-- ===== src/Worker/Routes/Nearby.antt =====
-- src/routes/nearby.rs. `select` is D1's answer to the bounding-box query: the rows, or the error of
-- its binding, its run or its decoding.
use traintime_api.Common.{
  ℕ, Option, none, some, List, [], ◌&&◌, if◌then◌else◌, take, filter, Result, ok, err, Text, codes,
}
use traintime_api.Common.Float.{Float64}
use traintime_api.Core.Geo.{bounding_box}
use traintime_api.Core.Ojp.{FlatDeparture}
use traintime_api.Core.Stations.{
  Station, ModeGroups, group_nearby, default_station_id, attach_departures,
}
use traintime_api.Core.Reqlog.{CacheStatus}
use traintime_api.Http.{error, payload, Serde, NearbyQuery}
use traintime_api.Server.Stations.{contains}
use traintime_api.Worker.Cache.{Cached}
use traintime_api.Worker.Routes.{Got, Reply, respond, fetch_through, departures_key}

abbrev pub embed_limit : ℕ
embed_limit = 20

module _ (f : Float64) (serde : Serde (List FlatDeparture)) where
  open f use {F, is_finite}

  unfoldable pub position : Option F → Option F → Option (F × F)
  position (some lat) (some lon) = if is_finite lat && is_finite lon then some (lat, lon) else none
  position (some lat) none = none
  position none lon = none

  -- The filter by name over the rows.
  unfoldable pub named : (Text → Text) → Option Text → List (Station f) → List (Station f)
  unfolding contains
  named to_lowercase none rows = rows
  named to_lowercase (some query) rows =
      filter (λ (s : Station f). contains (to_lowercase query) (to_lowercase s.name)) rows

  -- The departures are embedded where they can be read.
  unfoldable pub embed : ModeGroups f → Text → Result (List FlatDeparture) Text → ModeGroups f
  embed groups id (ok d) = attach_departures f groups id (take embed_limit d)
  embed groups id (err e) = groups

  unfoldable pub answer_nearby : ModeGroups f → Text → Got → Reply (ModeGroups f)
  unfolding embed respond
  answer_nearby groups id got = record {
    response = elim got.outcome [
      | ok (json, stale_age) ↦
          respond 200 (payload (embed groups id (serde.from_str json))) stale_age got.cache
      | err e ↦ respond 200 (payload groups) none got.cache
    ];
    puts = got.puts;
  }

  unfoldable pub handle_nearby :
      (Text → Text)
      → (F × F × F × F → Result (List (Station f)) Text)
      → (Text → ℕ → Cached)
      → (Text → ℕ → Result (List FlatDeparture) Text)
      → ℕ
      → NearbyQuery f
      → Reply (ModeGroups f)
  unfolding position named answer_nearby fetch_through respond
  handle_nearby to_lowercase select get fetch_departures cache_ttl params =
      elim (position params.lat params.lon) [
        | none ↦ record {
          response =
              respond 400 (error (codes "Missing or invalid lat/lon parameters")) none
                CacheStatus.none;
          puts = [];
        }
        | some (lat, lon) ↦ elim (select (bounding_box f lat lon)) [
          | err e ↦ record { response = respond 500 (error e) none CacheStatus.none; puts = [] }
          | ok found ↦
              let groups = group_nearby f (named to_lowercase params.query found) lat lon in
              elim (default_station_id f groups params.mode) [
                | none ↦ record {
                  response = respond 200 (payload groups) none CacheStatus.none;
                  puts = [];
                }
                | some id ↦
                    let key = departures_key id in
                    answer_nearby groups id (
                      fetch_through serde key cache_ttl (get key cache_ttl)
                        (fetch_departures id 50))
              ]
        ]
      ]
