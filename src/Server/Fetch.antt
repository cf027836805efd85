-- ===== src/Server/Fetch.antt =====
-- server/src/fetch.rs: one upstream call for a key at a time. The requests of a pod are tasks that
-- take turns; a step runs a task from one point where others may run to the next.
pub mod Invariant
pub mod Flight
pub mod Live
pub mod Wakeup
pub mod Progress
pub mod Service
pub mod Cancel
pub mod Rank
pub mod Turns
pub mod Places
pub mod Alone
pub mod Origin
pub mod Provenance
use traintime_api.Common.{
  ℕ, suc, ◌+◌, Bool, Option, none, some, List, [], ◌∷◌, if◌then◌else◌, ◌==◌, Result, ok, err, Text,
  codes, lookup, insert, remove,
}
use traintime_api.Core.Reqlog
use traintime_api.Core.Reqlog.{CacheStatus}
use traintime_api.Server.Cache.{Entries, get, get_stale, put_at, lookup_with, stale_max_age}

pub data Fetched : Type 0 where
  cached : Text → Fetched
  fresh : Text → Fetched
  stale : Text → ℕ → Fetched
  failed : Text → Fetched

unfoldable pub cache_status : Fetched → CacheStatus
cache_status (cached v) = CacheStatus.hit
cache_status (stale v age) = CacheStatus.hit
cache_status (fresh v) = CacheStatus.miss
cache_status (failed e) = CacheStatus.miss

-- `get` and `get_stale` each read the clock.
unfoldable pub from_cache : Entries → Text → Text → ℕ → ℕ → Fetched
from_cache map key error now later = elim (get map key now) [
  | some v ↦ cached v
  | none ↦ elim (get_stale map key stale_max_age later) [
    | some (v, age) ↦ stale v age
    | none ↦ failed error
  ]
]

-- Where a call of `cached` stands: at the cache, at the lock, at `notified.await` with its notify,
-- behind it, at `fetch().await`, at the lock again with the result, at `notify_waiters`, and at the
-- final `match`. `dropped` is a call whose future was dropped.
pub data Task : Type 0 where
  idle : Task
  arrived : Text → ℕ → Task
  missed : Text → ℕ → Task
  waiting : Text → ℕ → Task
  woken : Text → Task
  fetching : Text → ℕ → ℕ → Task
  settled : Text → ℕ → Result Text Text → Task
  removed : Text → ℕ → Result Text Text → Task
  reporting : Text → Result Text Text → Task
  finished : Fetched → Task
  dropped : Task

-- The pod: its cache, the keys in flight with their notify, the next unused notify, the tasks, and
-- the keys fetched upstream, latest first.
pub record Pod : Type 0 where
  pub cache : Entries
  pub keys : List (Text × ℕ)
  pub next : ℕ
  pub tasks : ℕ → Task
  pub fetches : List Text

-- What a step takes from outside: the clock, its second readings for a stale read behind a read and
-- for the sweep of a write, the shared cache's answer, and the outcome upstream.
pub record Env : Type 0 where
  pub now : ℕ
  pub later : ℕ
  pub sweep : ℕ
  pub shared : Option Text
  pub outcome : Result Text Text

abbrev pub update : ℕ → Task → (ℕ → Task) → ℕ → Task
update i t tasks j = if i == j then t else tasks j

-- `notify_waiters`.
unfoldable pub wake : ℕ → Task → Task
wake n (waiting key m) = if n == m then woken key else waiting key m
wake n t = t

abbrev pub unavailable : Text
unavailable = codes "upstream unavailable"

-- One step of task `i`, which stands at the given point.
unfoldable pub advance : Pod → ℕ → Env → Task → Pod
unfolding wake
advance p i env (arrived key ttl) = elim (lookup_with env.shared p.cache key env.now) [
  | some v ↦ record p { tasks = update i (finished (cached v)) p.tasks }
  | none ↦ record p { tasks = update i (missed key ttl) p.tasks }
]
advance p i env (missed key ttl) = elim (lookup key p.keys) [
  | some n ↦ record p { tasks = update i (waiting key n) p.tasks }
  | none ↦ record p {
    keys = insert key p.next p.keys;
    next = suc p.next;
    tasks = update i (fetching key ttl p.next) p.tasks;
    fetches = key ∷ p.fetches;
  }
]
advance p i env (woken key) = record p {
  tasks = update i (finished (from_cache p.cache key unavailable env.now env.later)) p.tasks;
}
advance p i env (fetching key ttl n) = elim env.outcome [
  | ok v ↦ record p {
    cache = put_at p.cache key v ttl env.now env.sweep;
    tasks = update i (settled key n (ok v)) p.tasks;
  }
  | err e ↦ record p { tasks = update i (settled key n (err e)) p.tasks }
]
advance p i env (settled key n r) = record p {
  keys = remove key p.keys;
  tasks = update i (removed key n r) p.tasks;
}
advance p i env (removed key n r) = record p {
  tasks = λ j. wake n (update i (reporting key r) p.tasks j);
}
advance p i env (reporting key (ok v)) = record p { tasks = update i (finished (fresh v)) p.tasks }
advance p i env (reporting key (err e)) = record p {
  tasks = update i (finished (from_cache p.cache key e env.now env.later)) p.tasks;
}
advance p i env idle = p
advance p i env (waiting key n) = p
advance p i env (finished r) = p
advance p i env dropped = p

-- A request takes an unused slot.
unfoldable pub arrive : Pod → ℕ → Text → ℕ → Task → Pod
arrive p i key ttl idle = record p { tasks = update i (arrived key ttl) p.tasks }
arrive p i key ttl t = p

pub data Event : Type 0 where
  request : ℕ → Text → ℕ → Event
  run : ℕ → Env → Event
  cancel : ℕ → Event

unfoldable pub step : Pod → Event → Pod
unfolding advance arrive
step p (request i key ttl) = arrive p i key ttl (p.tasks i)
step p (run i env) = advance p i env (p.tasks i)
step p (cancel i) = record p { tasks = update i dropped p.tasks }

unfoldable pub steps : Pod → List Event → Pod
unfolding step
steps p [] = p
steps p (e ∷ events) = steps (step p e) events

abbrev pub booted : Pod
booted = record { cache = []; keys = []; next = 0; tasks = λ i. idle; fetches = [] }
