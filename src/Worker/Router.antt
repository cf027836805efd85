-- ===== src/Worker/Router.antt =====
-- src/lib.rs: the Worker's router. `get` is Axum's method router of that name; the error of a router
-- is one that Axum never returns.
use traintime_api.Common.{if◌then◌else◌, Result, ok, Text, codes, text_eq}
use traintime_api.Http.{Response, Request, health_ok, error}
use traintime_api.Server.Config.{Handlers}
use traintime_api.Worker.Entry.{AppState, built}

unfoldable pub health : {B : Type 0} → Response B
health = built 200 health_ok

unfoldable pub fallback : {B : Type 0} → Response B
fallback = built 404 (error (codes "Not found"))

unfoldable pub router :
    {Db B : Type 0}
    → ((Request → Response B) → Request → Response B)
    → (AppState Db → Handlers B)
    → AppState Db
    → Request
    → Result (Response B) Text
unfolding health fallback
router get handlers state req =
    if text_eq req.path (codes "/health")
    then ok (get (λ _. health) req)
    else if text_eq req.path (codes "/v1/nearby")
    then ok (get (handlers state).nearby req)
    else if text_eq req.path (codes "/v1/departures")
    then ok (get (handlers state).departures req)
    else if text_eq req.path (codes "/v1/formation")
    then ok (get (handlers state).formation req)
    else ok fallback
