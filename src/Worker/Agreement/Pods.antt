-- ===== src/Worker/Agreement/Pods.antt =====
-- The two runtimes side by side, with the server's calls run by a pod (server/src/fetch.rs) in place
-- of what they are said to report.
use traintime_api.Common.{ℕ, ◌≤◌, ◌≡◌, Option, none, some, [], ◌∷◌, Result, Text}
use traintime_api.Server.Cache.{Entries, get_stale, stale_max_age, lookup_with}
use traintime_api.Server.Fetch.{Task, idle, finished, Fetched, failed, Pod, request, steps}
use traintime_api.Server.Fetch.Alone.{Course, turns_of}
use traintime_api.Server.Routes as Server
use traintime_api.Server.Routes.{Upstream}
use traintime_api.Server.Routes.Formation as ServerFormation
use traintime_api.Server.Routes.Formation.{Asked}
use traintime_api.Server.Routes.Nearby as ServerNearby
use traintime_api.Worker.Routes.Formation as WorkerFormation
use traintime_api.Worker.Routes.Nearby as WorkerNearby
use traintime_api.Worker.Cache.{Cached, fresh, stale, missing}
use traintime_api.Worker.Routes as Worker
use traintime_api.Worker.Routes.{departures_key}
use traintime_api.Worker.Routes.Formation.{formation_key}

-- How a key stands for a call of a pod, in the words of the Worker's cache: fresh is what the shared
-- cache or the pod's entry gives at the call's first turn; an entry that is left for the case that
-- the call upstream fails is the one that is read at its last turn.
aged : Option (Text × ℕ) → Cached
aged none = missing
aged (some (v, age)) = stale v age

unfoldable pub standing : Entries → Course → Text → Cached
unfolding aged
standing c w key = elim (lookup_with w.at_cache.shared c key w.at_cache.now) [
  | some v ↦ fresh v
  | none ↦ aged (get_stale c key stale_max_age w.at_end.later)
]

-- The course of a call whose call upstream comes to the outcome.
abbrev ending : Course → Result Text Text → Course
ending w outcome = record w { at_fetch = record w.at_fetch { outcome = outcome } }

-- The answer of a task; one that has none has failed.
abbrev answer_of : Task → Fetched
answer_of (finished r) = r
answer_of t = failed []

-- `inflight.cached` as a pod runs it in an unused slot, each call along the course of its key.
unfoldable pub cached_by : Pod → ℕ → (Text → Course) → Upstream
cached_by p i w key ttl outcome =
    answer_of ((steps p (request i key ttl ∷ turns_of i (ending (w key) outcome))).tasks i)

-- A pod at rest with an unused slot, whose clock does not run backwards in a call, next to an edge
-- cache that answers as the pod's caches stand: for the boards at the life `ttl`, and for the
-- formations at theirs.
pub record IsAlike (p : Pod) (i ttl : ℕ) (w : Text → Course) (held : Text → ℕ → Cached)
    : Type 0 where
  pub unused : p.tasks i ≡ idle
  pub calm : p.keys ≡ []
  pub ticking : (key : Text) → (w key).at_cache.now ≤ (w key).at_end.now
  pub boards :
      (id : Text)
      → held (departures_key id) ttl ≡ standing p.cache (w (departures_key id)) (departures_key id)
  pub trains :
      (a : Asked)
      → held (formation_key a) 300 ≡ standing p.cache (w (formation_key a)) (formation_key a)

-- The Worker's reads as the pod stands.
abbrev stood : Pod → (Text → Course) → Text → ℕ → Cached
stood p w key life = standing p.cache (w key) key
