-- ===== src/Server/Routes/Nearby.antt =====
-- server/src/routes/nearby.rs.
use traintime_api.Common.{
  ℕ, Option, none, some, List, ◌&&◌, if◌then◌else◌, take, Result, ok, err, Text, codes,
}
use traintime_api.Common.Float.{Float64}
use traintime_api.Core.Ojp.{FlatDeparture}
use traintime_api.Core.Stations.{
  Station, ModeGroups, group_nearby, default_station_id, attach_departures,
}
use traintime_api.Core.Reqlog.{CacheStatus}
use traintime_api.Http.{error, payload, Response, Serde, NearbyQuery}
use traintime_api.Server.Fetch.{Fetched, cached, fresh, stale, failed, cache_status}
use traintime_api.Server.Routes.{Upstream, respond, to_json, fetch_limit, departures_key}
use traintime_api.Server.Stations.{candidates}

abbrev pub embed_limit : ℕ
embed_limit = 20

module _ (f : Float64) (serde : Serde (List FlatDeparture)) where
  open f use {F, is_finite}

  -- Both coordinates, if they are finite numbers.
  unfoldable pub position : NearbyQuery f → Option (F × F)
  position q = elim q.lat [
    | none ↦ none
    | some lat ↦ elim q.lon [
      | none ↦ none
      | some lon ↦ if is_finite lat && is_finite lon then some (lat, lon) else none
    ]
  ]

  unfoldable pub embed : ModeGroups f → Text → Option Text → ModeGroups f
  embed groups id none = groups
  embed groups id (some json) = elim (serde.from_str json) [
    | err e ↦ groups
    | ok d ↦ attach_departures f groups id (take embed_limit d)
  ]

  unfoldable pub answer_nearby : ModeGroups f → Text → Fetched → Response (ModeGroups f)
  unfolding embed cache_status respond
  answer_nearby groups id (fresh v) =
      respond 200 (payload (embed groups id (some v))) none (cache_status (fresh v))
  answer_nearby groups id (cached v) =
      respond 200 (payload (embed groups id (some v))) none (cache_status (cached v))
  answer_nearby groups id (stale v age) =
      respond 200 (payload (embed groups id (some v))) (some age) (cache_status (stale v age))
  answer_nearby groups id (failed e) =
      respond 200 (payload (embed groups id none)) none (cache_status (failed e))

  abbrev pub lowered : (Text → Text) → Option Text → Option Text
  lowered to_lowercase none = none
  lowered to_lowercase (some q) = some (to_lowercase q)

  unfoldable pub handle_nearby :
      (Text → Text)
      → List (Station f)
      → Upstream
      → (Text → ℕ → Result (List FlatDeparture) Text)
      → ℕ
      → NearbyQuery f
      → Response (ModeGroups f)
  unfolding position answer_nearby departures_key to_json respond
  handle_nearby to_lowercase db inflight fetch_departures cache_ttl params =
      elim (position params) [
        | none ↦
            respond 400 (error (codes "Missing or invalid lat/lon parameters")) none
              CacheStatus.none
        | some (lat, lon) ↦
            let rows = candidates f to_lowercase db lat lon (lowered to_lowercase params.query) in
            let groups = group_nearby f rows lat lon in
            elim (default_station_id f groups params.mode) [
              | none ↦ respond 200 (payload groups) none CacheStatus.none
              | some id ↦ answer_nearby groups id (
                  inflight (departures_key id) cache_ttl
                    (to_json serde (fetch_departures id fetch_limit)))
            ]
      ]
