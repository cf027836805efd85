-- ===== src/Worker/Agreement/Nearby.antt =====
-- `handle_nearby` of both runtimes (server/src/routes/nearby.rs and src/routes/nearby.rs).
use traintime_api.Common.{
  ℕ, ◌≡◌, refl, sym, Option, none, some, List, Result, ok, Text, inl, inr, Option-cases,
  Result-cases, filter, filter-eq_self,
}
use traintime_api.Common.Float.{Float64}
use traintime_api.Core.Geo.{bounding_box}
use traintime_api.Core.Ojp.{FlatDeparture}
use traintime_api.Core.Stations.{Station, ModeGroups, group_nearby, default_station_id}
use traintime_api.Http.{Serde, IsTotal, NearbyQuery}
use traintime_api.Server.Fetch.{Fetched, cache_status}
use traintime_api.Server.Routes
use traintime_api.Server.Routes.{respond, to_json}
use traintime_api.Server.Routes.Nearby as Server
use traintime_api.Server.Stations.{is_inside, is_named, candidates}
use traintime_api.Worker.Agreement.{inflight_of, got_of, fetch_through-got_of}
use traintime_api.Worker.Cache.{Cached}
use traintime_api.Worker.Routes as Replies
use traintime_api.Worker.Routes.{Put, departures_key}
use traintime_api.Worker.Routes.Nearby as Worker

module _ (f : Float64) (serde : Serde (List FlatDeparture)) where
  open f use {F}

  -- D1's answer over the server's table.
  abbrev pub select_from : List (Station f) → F × F × F × F → Result (List (Station f)) Text
  select_from db box = ok (filter (is_inside f box) db)

  position-agree :
      (q : NearbyQuery f) → Worker.position f serde q.lat q.lon ≡ Server.position f serde q
  unfolding Worker.position Server.position
  position-agree q = elim (Option-cases q.lat) [
    | inl e ↦ rw e refl
    | inr (lat, e) ↦ elim (Option-cases q.lon) [
      | inl e' ↦ rw (e, e') refl
      | inr (lon, e') ↦ rw (e, e') refl
    ]
  ]

  named-agree :
      (to_lowercase : Text → Text) (db : List (Station f)) (lat lon : F) (query : Option Text)
      → Worker.named f serde to_lowercase query (filter (is_inside f (bounding_box f lat lon)) db)
        ≡ candidates f to_lowercase db lat lon (Server.lowered f serde to_lowercase query)
  unfolding Worker.named candidates
  named-agree to_lowercase db lat lon none = sym (
      filter-eq_self (is_named f to_lowercase none)
        (filter (is_inside f (bounding_box f lat lon)) db) (λ s. refl))
  named-agree to_lowercase db lat lon (some q) = refl

  embed-agree :
      (groups : ModeGroups f) (id v : Text)
      → Worker.embed f serde groups id (serde.from_str v) ≡ Server.embed f serde groups id (some v)
  unfolding Worker.embed Server.embed
  embed-agree groups id v = elim (Result-cases (serde.from_str v)) [
    | inl (d, e) ↦ rw (Server.embed, e) refl
    | inr (d, e) ↦ rw (Server.embed, e) refl
  ]

  answer_nearby-got_of :
      (groups : ModeGroups f) (id : Text) (r : Fetched) (puts : List Put)
      → (Worker.answer_nearby f serde groups id (got_of r puts)).response
        ≡ Server.answer_nearby f serde groups id r
  unfolding Worker.answer_nearby Server.answer_nearby cache_status Server.embed Replies.respond
      respond
  answer_nearby-got_of groups id (Fetched.cached v) puts = rw (embed-agree groups id v) refl
  answer_nearby-got_of groups id (Fetched.fresh v) puts = rw (embed-agree groups id v) refl
  answer_nearby-got_of groups id (Fetched.stale v age) puts = rw (embed-agree groups id v) refl
  answer_nearby-got_of groups id (Fetched.failed e) puts = refl

  -- Where the Worker's table answers the bounding-box query as a filter over the server's rows, and
  -- under the conditions of the other routes, both runtimes answer every nearby query alike.
  pub handle_nearby-agree :
      (to_lowercase : Text → Text) (db : List (Station f)) (get : Text → ℕ → Cached)
      (fetch : Text → ℕ → Result (List FlatDeparture) Text) (ttl : ℕ) (params : NearbyQuery f)
      → IsTotal serde
      → (Worker.handle_nearby f serde to_lowercase (select_from db) get fetch ttl params).response
        ≡ Server.handle_nearby f serde to_lowercase db (inflight_of get) fetch ttl params
  unfolding Worker.handle_nearby Server.handle_nearby Routes.departures_key Replies.respond respond
  handle_nearby-agree to_lowercase db get fetch ttl params h =
      elim (Option-cases (Server.position f serde params)) [
        | inl e ↦ rw (Worker.handle_nearby, Server.handle_nearby, position-agree params, e) refl
        | inr ((lat, lon), e) ↦
            let groups =
              group_nearby f
                (candidates f to_lowercase db lat lon
                  (Server.lowered f serde to_lowercase params.query))
                lat lon in
            elim (Option-cases (default_station_id f groups params.mode)) [
              | inl e' ↦
                  rw
                    (
                      Worker.handle_nearby,
                      Server.handle_nearby,
                      position-agree params,
                      e,
                      named-agree to_lowercase db lat lon params.query,
                      e',
                      named-agree to_lowercase db lat lon params.query,
                    )
                    refl
              | inr (id, e') ↦
                  let key = departures_key id in
                  let (puts, got) =
                    fetch_through-got_of serde key ttl (get key ttl) (fetch id 50) h in
                  rw
                    (
                      Worker.handle_nearby,
                      Server.handle_nearby,
                      position-agree params,
                      e,
                      named-agree to_lowercase db lat lon params.query,
                      e',
                      named-agree to_lowercase db lat lon params.query,
                      got,
                    )
                    (answer_nearby-got_of groups id
                      (inflight_of get key ttl (to_json serde (fetch id 50))) puts)
            ]
      ]
