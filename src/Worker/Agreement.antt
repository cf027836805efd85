-- ===== src/Worker/Agreement.antt =====
-- The handlers of server/src/routes and of src/routes side by side.
pub mod Formation
pub mod Nearby
pub mod Entry
pub mod Routing
pub mod Reads
pub mod Pods
use traintime_api.Common.{
  ℕ, ◌≡◌, refl, inl, inr, Option-cases, Option, none, some, List, [], ◌∷◌, Result, ok, err, Text,
  unwrap_or,
}
use traintime_api.Core.Ojp.{FlatDeparture}
use traintime_api.Core.Reqlog
use traintime_api.Core.Reqlog.{CacheStatus}
use traintime_api.Http.{Serde, IsTotal, DeparturesQuery}
use traintime_api.Server.Fetch
use traintime_api.Server.Fetch.{Fetched, cache_status}
use traintime_api.Server.Routes as Server
use traintime_api.Server.Routes.{Upstream, Board}
use traintime_api.Worker.Cache.{Cached, fresh, stale, missing}
use traintime_api.Worker.Routes as Worker

-- The outcome that the server's fetch component reports where the cache stands as the Worker's does.
abbrev pub reported : Cached → Result Text Text → Fetched
reported (fresh v) outcome = Fetched.cached v
reported (stale v age) (ok json) = Fetched.fresh json
reported missing (ok json) = Fetched.fresh json
reported (stale v age) (err e) = Fetched.stale v age
reported missing (err e) = Fetched.failed e

abbrev pub inflight_of : (Text → ℕ → Cached) → Upstream
inflight_of get key ttl outcome = reported (get key ttl) outcome

-- What the server makes of an outcome, as the Worker reads it.
abbrev pub got_of : Fetched → List Worker.Put → Worker.Got
got_of (Fetched.cached v) puts = record {
  outcome = ok (v, none);
  cache = CacheStatus.hit;
  puts = puts;
}
got_of (Fetched.fresh v) puts = record {
  outcome = ok (v, none);
  cache = CacheStatus.miss;
  puts = puts;
}
got_of (Fetched.stale v age) puts = record {
  outcome = ok (v, some age);
  cache = CacheStatus.hit;
  puts = puts;
}
got_of (Fetched.failed e) puts = record { outcome = err e; cache = CacheStatus.miss; puts = puts }

-- Reading through the cache comes to the reported outcome, whatever is put.
pub fetch_through-got_of :
    {A : Type 0} (serde : Serde A) (key : Text) (ttl : ℕ) (c : Cached) (upstream : Result A Text)
    → IsTotal serde
    → (puts : List Worker.Put) × (Worker.fetch_through serde key ttl c upstream
        ≡ got_of (reported c (Server.to_json serde upstream)) puts)
unfolding Worker.fetch_through Server.to_json Worker.fall_back
fetch_through-got_of serde key ttl (fresh v) upstream h = ([], refl)
fetch_through-got_of serde key ttl (stale v age) (err e) h = ([], refl)
fetch_through-got_of serde key ttl missing (err e) h = ([], refl)
fetch_through-got_of serde key ttl (stale v age) (ok a) h =
    let (t, written) = h a in
    (
      record { key = key; payload = t; ttl_secs = ttl } ∷ [],
      rw (Worker.fetch_through, Worker.to_json_or_default, written) refl,
    )
fetch_through-got_of serde key ttl missing (ok a) h =
    let (t, written) = h a in
    (
      record { key = key; payload = t; ttl_secs = ttl } ∷ [],
      rw (Worker.fetch_through, Worker.to_json_or_default, written) refl,
    )

module _ (serde : Serde (List FlatDeparture)) where
  answer_board-got_of :
      (pairs : List (Text × Text)) (limit : ℕ) (r : Fetched) (puts : List Worker.Put)
      → (Worker.answer_board serde pairs limit (got_of r puts)).response
        ≡ Server.answer_board serde pairs limit r
  unfolding Worker.answer_board Server.answer_board cache_status Worker.show_board Server.show_board
      Worker.respond Server.respond
  answer_board-got_of pairs limit (Fetched.cached v) puts = refl
  answer_board-got_of pairs limit (Fetched.fresh v) puts = refl
  answer_board-got_of pairs limit (Fetched.stale v age) puts = refl
  answer_board-got_of pairs limit (Fetched.failed e) puts = refl

  -- Where rows can always be written as JSON and the server's fetch reports what the Worker's
  -- cache and the upstream call come to, both runtimes answer every departures query alike: status,
  -- body, stale header and the cache status that is logged.
  pub handle_departures-agree :
      (get : Text → ℕ → Cached) (fetch : Text → ℕ → Result (List FlatDeparture) Text) (ttl : ℕ)
      (params : DeparturesQuery)
      → IsTotal serde
      → (Worker.handle_departures serde get fetch ttl params).response
        ≡ Server.handle_departures serde (inflight_of get) fetch ttl params
  unfolding Server.departures_key Worker.handle_departures Server.handle_departures
  handle_departures-agree get fetch ttl params h = elim (Option-cases params.id) [
    | inl e ↦ rw e refl
    | inr (id, e) ↦
        let key = Worker.departures_key id in
        let (puts, got) = fetch_through-got_of serde key ttl (get key ttl) (fetch id 50) h in
        rw (e, got)
          (answer_board-got_of (Server.favourite_pairs serde params.favourites)
            (unwrap_or params.limit 5)
            (inflight_of get key ttl (Server.to_json serde (fetch id 50))) puts)
  ]
