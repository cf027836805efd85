-- ===== src/Worker/Agreement/Routing.antt =====
-- The Worker's entry point with its router (src/lib.rs) and the server's middleware over its own
-- (server/src/main.rs).
use mathlib.Core.Path.{fun_ext}
use traintime_api.Common.{ℕ, ◌≡◌, refl, ap, inl, inr, Bool-cases, Result, ok, Text, codes, text_eq}
use traintime_api.Core.Auth.{ApiKeys}
use traintime_api.Http.{Request, Response}
use traintime_api.Server.Config as Server
use traintime_api.Server.Config.{Handlers}
use traintime_api.Server.Middleware as Middleware
use traintime_api.Server.Middleware.{auth}
use traintime_api.Worker.Agreement.Entry.{api_keys_of, fetch-agree}
use traintime_api.Worker.Entry.{Bindings, AppState, build_state, fetch}
use traintime_api.Worker.Router as Worker

-- The handlers answer alike.
pub record AnswerAlike {B : Type 0} (a b : Handlers B) : Type 0 where
  pub nearby : (req : Request) → a.nearby req ≡ b.nearby req
  pub departures : (req : Request) → a.departures req ≡ b.departures req
  pub formation : (req : Request) → a.formation req ≡ b.formation req

module _ {Db B : Type 0} (get : (Request → Response B) → Request → Response B) where
  router-agree :
      (handlers : AppState Db → Handlers B) (handlers' : Handlers B) (state : AppState Db)
      (req : Request)
      → AnswerAlike (handlers state) handlers'
      → Worker.router get handlers state req ≡ ok (Server.router get handlers' req)
  unfolding Worker.router Worker.health Worker.fallback Server.router Middleware.health
      Middleware.fallback
  router-agree handlers handlers' state req same =
      elim (Bool-cases (text_eq req.path (codes "/health"))) [
        | inl e ↦ rw (Worker.router, Server.router, e) refl
        | inr e ↦ elim (Bool-cases (text_eq req.path (codes "/v1/nearby"))) [
          | inl e1 ↦ rw (Worker.router, Server.router, e, e1) (alike (fun_ext same.nearby))
          | inr e1 ↦ elim (Bool-cases (text_eq req.path (codes "/v1/departures"))) [
            | inl e2 ↦
                rw (Worker.router, Server.router, e, e1, e2) (alike (fun_ext same.departures))
            | inr e2 ↦ elim (Bool-cases (text_eq req.path (codes "/v1/formation"))) [
              | inl e3 ↦
                  rw (Worker.router, Server.router, e, e1, e2, e3) (alike (fun_ext same.formation))
              | inr e3 ↦ rw (Worker.router, Server.router, e, e1, e2, e3) refl
            ]
          ]
        ]
      ]
    where
      alike :
          {h h' : Request → Response B}
          → h ≡ h'
          → ◌≡◌ {A = Result (Response B) Text} (ok (get h req)) (ok (get h' req))
      alike e = ap (λ (k : Request → Response B). ok (get k req)) e

  -- Where the keys are accepted, the bindings are complete and the handlers of the three routes
  -- answer alike, the Worker answers and logs every request as the server does, whatever its path
  -- and method: preflight, health probe, refusal, route and unknown path.
  pub fetch-agree_routed :
      (env : Bindings Db) (ms : ℕ) (handlers : AppState Db → Handlers B) (handlers' : Handlers B)
      (req : Request) (keys : ApiKeys) (state : AppState Db)
      → api_keys_of env ≡ ok keys
      → build_state env ≡ ok state
      → AnswerAlike (handlers state) handlers'
      → fetch env ms (Worker.router get handlers) req
        ≡ ok (auth keys ms (Server.router get handlers') req)
  fetch-agree_routed env ms handlers handlers' req keys state h hs same =
      fetch-agree env ms (Worker.router get handlers) (Server.router get handlers') req keys state h
        hs (router-agree handlers handlers' state req same)
