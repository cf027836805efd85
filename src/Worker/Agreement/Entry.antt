-- ===== src/Worker/Agreement/Entry.antt =====
-- The Worker's entry point (src/lib.rs) and the server's middleware (server/src/main.rs).
use traintime_api.Common.{
  ℕ, ◌≡◌, refl, Result, ok, Text, codes, text_eq, inl, inr, Bool-cases, Option-cases,
}
use traintime_api.Core.Auth.{ApiKeys, parse, matched}
use traintime_api.Core.Auth.Laws.{parse-matched_empty}
use traintime_api.Http.{Request, Response}
use traintime_api.Server.Middleware as Server
use traintime_api.Server.Middleware.{auth}
use traintime_api.Worker.Entry.{
  Bindings, AppState, configured, to_option, build_state, route, unauthorized, key_label_of, fetch,
}
use traintime_api.Worker.Entry as Worker

-- The configured keys.
abbrev pub api_keys_of : {Db : Type 0} → Bindings Db → Result ApiKeys Text
api_keys_of env =
    parse (to_option (configured env (codes "API_KEYS")))
      (to_option (configured env (codes "API_KEY")))

module _ {Db B : Type 0} (env : Bindings Db) where
  -- Where the bindings are complete and a router answers as the server's routes do, the Worker
  -- answers and logs each request as the server does: preflight, health probe, refusal and route.
  pub fetch-agree :
      (ms : ℕ) (router : AppState Db → Request → Result (Response B) Text)
      (next : Request → Response B) (req : Request) (keys : ApiKeys) (state : AppState Db)
      → api_keys_of env ≡ ok keys
      → build_state env ≡ ok state
      → router state req ≡ ok (next req)
      → fetch env ms router req ≡ ok (auth keys ms next req)
  unfolding Server.with_cors Worker.add_cors_headers Worker.log_request Server.log_request
      unauthorized fetch auth route key_label_of
  fetch-agree ms router next req keys state h hs hr =
      elim (Bool-cases (text_eq req.method (codes "OPTIONS"))) [
        | inl m ↦ rw (fetch, auth, m) refl
        | inr m ↦ elim (Bool-cases (text_eq req.path (codes "/health"))) [
          | inl p ↦ rw (fetch, auth, m, p, route, hs, hr) refl
          | inr p ↦ elim (Option-cases req.api_key) [
            | inl n ↦
                rw
                  (
                    fetch,
                    auth,
                    m,
                    p,
                    n,
                    key_label_of,
                    (parse-matched_empty (to_option (configured env (codes "API_KEYS")))
                        (to_option (configured env (codes "API_KEY"))) h).1,
                  )
                  refl
            | inr (k, n) ↦ elim (Option-cases (matched keys k)) [
              | inl e ↦ rw (fetch, auth, m, p, n, key_label_of, h, e) refl
              | inr (key, e) ↦ rw (fetch, auth, m, p, n, key_label_of, h, e, route, hs, hr) refl
            ]
          ]
        ]
      ]
