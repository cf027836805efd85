-- ===== src/Worker/Agreement/Formation.antt =====
-- `handle_formation` of both runtimes (server/src/routes/formation.rs and src/routes/formation.rs).
use traintime_api.Common.{ℕ, ◌≡◌, refl, List, Result, Text, inl, inr, Result-cases}
use traintime_api.Core.Formation.{FormationResult}
use traintime_api.Http.{Serde, IsTotal, FormationQuery}
use traintime_api.Server.Fetch.{Fetched, cache_status}
use traintime_api.Server.Routes.{respond, to_json}
use traintime_api.Server.Routes.Formation as Server
use traintime_api.Worker.Agreement.{inflight_of, got_of, fetch_through-got_of}
use traintime_api.Worker.Cache.{Cached}
use traintime_api.Worker.Routes
use traintime_api.Worker.Routes.{Put}
use traintime_api.Worker.Routes.Formation as Worker

-- The guards of the two handlers let the same queries through and refuse the others alike.
guard-agree : (params : FormationQuery) → Worker.guard params ≡ Server.guard params
unfolding Worker.guard Server.guard Worker.choose_evu Server.choose_evu
guard-agree params = refl

module _ {V : Type 0} (parse : Text → Result V Text) where
  answer_formation-got_of :
      (r : Fetched) (puts : List Put)
      → (Worker.answer_formation parse (got_of r puts)).response ≡ Server.answer_formation parse r
  unfolding Worker.answer_formation Server.answer_formation cache_status Worker.show_formation
      Server.show_formation Routes.respond respond
  answer_formation-got_of (Fetched.cached v) puts = refl
  answer_formation-got_of (Fetched.fresh v) puts = refl
  answer_formation-got_of (Fetched.stale v age) puts = refl
  answer_formation-got_of (Fetched.failed e) puts = refl

  -- Under the same conditions both runtimes answer every formation query alike, whatever type of
  -- values the answer is read at.
  pub handle_formation-agree :
      (serde : Serde FormationResult) (get : Text → ℕ → Cached)
      (fetch : Server.Asked → Result FormationResult Text) (params : FormationQuery)
      → IsTotal serde
      → (Worker.handle_formation parse serde get fetch params).response
        ≡ Server.handle_formation parse serde (inflight_of get) fetch params
  unfolding Worker.handle_formation Server.handle_formation Server.formation_key Routes.respond
      respond
  handle_formation-agree serde get fetch params h = elim (Result-cases (Server.guard params)) [
    | inl (a, e) ↦
        let key = Worker.formation_key a in
        let (puts, got) = fetch_through-got_of serde key 300 (get key 300) (fetch a) h in
        rw (Worker.handle_formation, Server.handle_formation, guard-agree params, e, got)
          (answer_formation-got_of (inflight_of get key 300 (to_json serde (fetch a))) puts)
    | inr (r, e) ↦ rw (Worker.handle_formation, Server.handle_formation, guard-agree params, e) refl
  ]
