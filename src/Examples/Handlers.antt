-- ===== src/Examples/Handlers.antt =====
-- A pod that answers one request of each route, at a concrete input: the upstream call for a board
-- fails, and the entry of ninety seconds ago is shown.
use traintime_api.Common.{◌*◌, ◌+◌, ◌≡◌, refl, none, List, [], ◌∷◌, ok, ℕ, Text, codes}
use traintime_api.Server.Cache.{second, put_at}
use traintime_api.Server.Fetch.{Pod, Env, booted}
use traintime_api.Server.Routes as Server
use traintime_api.Server.Routes.Formation as ServerFormation
use traintime_api.Server.Routes.Nearby as ServerNearby
use traintime_api.Worker.Cache.{Cached, stale, Filed, get, read, put}
use traintime_api.Worker.Cache.Laws.{puts}
use traintime_api.Examples.Edge.{payload_json, keeping, last_of, read_payload}
use traintime_api.Core.Cache.{classify}
use traintime_api.Server.Fetch.Alone.{Course}
use traintime_api.Server.Cache as Entries
use traintime_api.Worker.Routes as Worker
use traintime_api.Worker.Routes.Formation as WorkerFormation
use traintime_api.Worker.Routes.Nearby as WorkerNearby

abbrev bern_board : Text
bern_board = codes "departures:8507000:50"

-- The pod and the edge cache both hold the board that was fetched at the start of the clock.
abbrev pod : Pod
pod = record booted { cache = put_at [] bern_board (codes "[]") 60 0 0 }

abbrev edge : List Filed
edge =
    puts (λ key. key) payload_json keeping
      (record { key = bern_board; payload = codes "[]"; ttl_secs = 60; at_ms = 0; filed_ms = 0 }
        ∷ [])

-- The Worker asks after ninety seconds.
held : Text → ℕ → Cached
unfolding puts put
held key life = get (λ key. key) payload_json keeping edge key life 90_000 90_000

abbrev at : ℕ → Env
at now = record { now = now; later = now; sweep = now; shared = none; outcome = ok [] }

-- The pod begins its call after ninety seconds, and ends it 200 milliseconds later.
abbrev course : Text → Course
course key = record {
  at_cache = at (90 * second);
  at_lock = at (90 * second);
  at_fetch = at (90 * second);
  at_removal = at (90 * second + 200_000_000);
  at_notify = at (90 * second + 200_000_000);
  at_end = at (90 * second + 200_000_000);
}

held_run : held bern_board 60 ≡ stale (codes "[]") 90
unfolding held get read last_of read_payload classify
held_run = refl
