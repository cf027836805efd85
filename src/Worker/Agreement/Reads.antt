-- ===== src/Worker/Agreement/Reads.antt =====
-- What the handlers of the Worker (src/routes) ask the edge cache: one key, at the life of its route.
use traintime_api.Common.{
  ℕ, ◌≡◌, refl, ap, unwrap_or, inl, inr, Option-cases, Result-cases, List, Result, Text,
}
use traintime_api.Common.Float.{Float64}
use traintime_api.Core.Formation.{FormationResult}
use traintime_api.Core.Geo.{bounding_box}
use traintime_api.Core.Ojp.{FlatDeparture}
use traintime_api.Core.Stations.{Station, group_nearby, default_station_id}
use traintime_api.Http.{Serde, DeparturesQuery, FormationQuery, NearbyQuery}
use traintime_api.Server.Routes.Formation.{Asked}
use traintime_api.Worker.Cache.{Cached}
use traintime_api.Worker.Routes.{
  departures_key, handle_departures, answer_board, favourite_pairs, fetch_through,
}
use traintime_api.Worker.Routes.Formation.{guard, formation_key, answer_formation, handle_formation}
use traintime_api.Worker.Routes.Nearby.{position, named, answer_nearby, handle_nearby}

module _ (get get' : Text → ℕ → Cached) where
  module _ (serde : Serde (List FlatDeparture))
      (fetch : Text → ℕ → Result (List FlatDeparture) Text) (ttl : ℕ)
      (same : (id : Text) → get (departures_key id) ttl ≡ get' (departures_key id) ttl) where
    pub handle_departures-eq :
        (params : DeparturesQuery)
        → handle_departures serde get fetch ttl params
          ≡ handle_departures serde get' fetch ttl params
    unfolding handle_departures
    handle_departures-eq params = elim (Option-cases params.id) [
      | inl e ↦ rw e refl
      | inr (id, e) ↦
          rw (handle_departures, e)
            (ap
              (λ (c : Cached).
                answer_board serde (favourite_pairs serde params.favourites)
                  (unwrap_or params.limit 5)
                  (fetch_through serde (departures_key id) ttl c (fetch id 50)))
              (same id))
    ]

    pub handle_nearby-eq :
        (f : Float64) (to_lowercase : Text → Text)
        (select : f.F × f.F × f.F × f.F → Result (List (Station f)) Text) (params : NearbyQuery f)
        → handle_nearby f serde to_lowercase select get fetch ttl params
          ≡ handle_nearby f serde to_lowercase select get' fetch ttl params
    unfolding handle_nearby
    handle_nearby-eq f to_lowercase select params =
        elim (Option-cases (position f serde params.lat params.lon)) [
          | inl e ↦ rw (handle_nearby, e) refl
          | inr ((lat, lon), e) ↦ elim (Result-cases (select (bounding_box f lat lon))) [
            | inr (x, e') ↦ rw (handle_nearby, e, e') refl
            | inl (found, e') ↦
                let groups =
                  group_nearby f (named f serde to_lowercase params.query found) lat lon in
                elim (Option-cases (default_station_id f groups params.mode)) [
                  | inl e'' ↦ rw (handle_nearby, e, e', e'') refl
                  | inr (id, e'') ↦
                      rw (handle_nearby, e, e', e'')
                        (ap
                          (λ (c : Cached).
                            answer_nearby f serde groups id
                              (fetch_through serde (departures_key id) ttl c (fetch id 50)))
                          (same id))
                ]
          ]
        ]

  pub handle_formation-eq :
      {V : Type 0} (parse : Text → Result V Text) (serde : Serde FormationResult)
      (fetch : Asked → Result FormationResult Text)
      → ((a : Asked) → get (formation_key a) 300 ≡ get' (formation_key a) 300)
      → (params : FormationQuery)
      → handle_formation parse serde get fetch params
        ≡ handle_formation parse serde get' fetch params
  unfolding handle_formation
  handle_formation-eq parse serde fetch same params = elim (Result-cases (guard params)) [
    | inl (a, e) ↦
        rw (handle_formation, e)
          (ap
            (λ (c : Cached).
              answer_formation parse (fetch_through serde (formation_key a) 300 c (fetch a)))
            (same a))
    | inr (r, e) ↦ rw (handle_formation, e) refl
  ]
