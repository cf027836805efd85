-- ===== src/Server/Fetch/Origin.antt =====
-- Where the answers of a pod's calls (server/src/fetch.rs) come from: what each turn brings in from
-- outside, and the key that each slot asked for.
use traintime_api.Common.{
  ℕ, ◌≡◌, inl, inr, Option, none, some, List, [], ◌∷◌, ◌++◌, arith, if◌then◌else◌, ◌==◌, ==_iff,
  Bool-cases, Option-cases, Result, ok, err, Text, ltb, length, Elem, Elem-append_right, All,
  lookup, All-insert, All-retain, All-lookup,
}
use mathlib.Core.Path.{subst}
use traintime_api.Server.Cache.{
  Entry, Entries, get, get_stale, put_at, stale_max_age, sweep_threshold,
}
use traintime_api.Server.Fetch.{
  Fetched, cached, fresh, stale, failed, from_cache, Task, idle, arrived, missed, waiting, woken,
  fetching, settled, removed, reporting, finished, dropped, Pod, Env, update, wake, Event, request,
  run, cancel, step,
}

-- A value that came from outside, with the key that it was got for.
abbrev pub Log : Type 0
Log = List (Text × Text)

-- What a turn brings in: the shared cache's answer, or the outcome upstream.
abbrev pub brought_by : Task → Env → Log
brought_by (arrived key ttl) env = elim env.shared [ none ↦ [] | some v ↦ (key, v) ∷ [] ]
brought_by (fetching key ttl n) env = elim env.outcome [ err e ↦ [] | ok v ↦ (key, v) ∷ [] ]
brought_by t env = []

abbrev pub brought_in : Pod → Event → Log
brought_in p (run i env) = brought_by (p.tasks i) env
brought_in p (request i key ttl) = []
brought_in p (cancel i) = []

unfoldable pub brought : Pod → List Event → Log
brought p [] = []
brought p (e ∷ events) = brought (step p e) events ++ brought_in p e

-- The key that a slot was given by the request that took it.
abbrev pub given : Task → Text → Option Text → Option Text
given idle key before = some key
given t key before = before

abbrev pub asked_by : Pod → (ℕ → Option Text) → Event → ℕ → Option Text
asked_by p before (request j key ttl) i =
    if j == i then given (p.tasks j) key (before i) else before i
asked_by p before (run j env) i = before i
asked_by p before (cancel j) i = before i

unfoldable pub asked : Pod → (ℕ → Option Text) → List Event → ℕ → Option Text
asked p before [] = before
asked p before (e ∷ events) = asked (step p e) (asked_by p before e) events

-- An answer for a key whose value, if it has one, came in for that key.
abbrev pub IsFrom : Log → Text → Fetched → Type 0
IsFrom log key (cached v) = Elem (key, v) log
IsFrom log key (fresh v) = Elem (key, v) log
IsFrom log key (stale v age) = Elem (key, v) log
IsFrom log key (failed e) = Unit

abbrev IsBrought : Log → Text → Result Text Text → Type 0
IsBrought log key (ok v) = Elem (key, v) log
IsBrought log key (err e) = Unit

-- A task that is about the key of its slot, and holds nothing else.
abbrev pub Fits : Log → Option Text → Task → Type 0
Fits log slot idle = Unit
Fits log slot dropped = Unit
Fits log slot (arrived key ttl) = slot ≡ some key
Fits log slot (missed key ttl) = slot ≡ some key
Fits log slot (waiting key n) = slot ≡ some key
Fits log slot (woken key) = slot ≡ some key
Fits log slot (fetching key ttl n) = slot ≡ some key
Fits log slot (settled key n r) = (slot ≡ some key) × IsBrought log key r
Fits log slot (removed key n r) = (slot ≡ some key) × IsBrought log key r
Fits log slot (reporting key r) = (slot ≡ some key) × IsBrought log key r
Fits log slot (finished r) = (key : Text) × (slot ≡ some key) × IsFrom log key r

abbrev pub Holds : Log → Text × Entry → Type 0
Holds log entry = Elem (entry.0, entry.1.value) log

pub record IsTraced (p : Pod) (log : Log) (slots : ℕ → Option Text) : Type 0 where
  pub entries : All (Holds log) p.cache
  pub tasks : (i : ℕ) → Fits log (slots i) (p.tasks i)

-- More that came in changes nothing.
IsFrom-append :
    (new log : Log) (key : Text) (r : Fetched) → IsFrom log key r → IsFrom (new ++ log) key r
IsFrom-append new log key (cached v) h = Elem-append_right (key, v) new log h
IsFrom-append new log key (fresh v) h = Elem-append_right (key, v) new log h
IsFrom-append new log key (stale v age) h = Elem-append_right (key, v) new log h
IsFrom-append new log key (failed e) h = tt

IsBrought-append :
    (new log : Log) (key : Text) (r : Result Text Text)
    → IsBrought log key r
    → IsBrought (new ++ log) key r
IsBrought-append new log key (ok v) h = Elem-append_right (key, v) new log h
IsBrought-append new log key (err e) h = tt

pub Fits-append :
    (new log : Log) (slot : Option Text) (t : Task) → Fits log slot t → Fits (new ++ log) slot t
Fits-append new log slot idle h = tt
Fits-append new log slot dropped h = tt
Fits-append new log slot (arrived key ttl) h = h
Fits-append new log slot (missed key ttl) h = h
Fits-append new log slot (waiting key n) h = h
Fits-append new log slot (woken key) h = h
Fits-append new log slot (fetching key ttl n) h = h
Fits-append new log slot (settled key n r) (own, h) = (own, IsBrought-append new log key r h)
Fits-append new log slot (removed key n r) (own, h) = (own, IsBrought-append new log key r h)
Fits-append new log slot (reporting key r) (own, h) = (own, IsBrought-append new log key r h)
Fits-append new log slot (finished r) (key, own, h) = (key, own, IsFrom-append new log key r h)

pub Holds-append : (new log : Log) (c : Entries) → All (Holds log) c → All (Holds (new ++ log)) c
Holds-append new log [] h = tt
Holds-append new log ((key, e) ∷ c) (own, h) =
    (Elem-append_right (key, e.value) new log own, Holds-append new log c h)

-- What the entries give came in.
pub get-Elem :
    (log : Log) (c : Entries) (key v : Text) (now : ℕ)
    → All (Holds log) c
    → get c key now ≡ some v
    → Elem (key, v) log
unfolding get
get-Elem log c key v now h found = elim (Option-cases (lookup key c)) [
  | inl miss ↦ absurd (ground arith)
  | inr (e, hit) ↦
      let same : e.value ≡ v = ground arith in
      subst (λ (w : Text). Elem (key, w) log) same (All-lookup (Holds log) key e c h hit)
]

get_stale-Elem :
    (log : Log) (c : Entries) (key v : Text) (max_age now age : ℕ)
    → All (Holds log) c
    → get_stale c key max_age now ≡ some (v, age)
    → Elem (key, v) log
unfolding get_stale
get_stale-Elem log c key v max_age now age h found = elim (Option-cases (lookup key c)) [
  | inl miss ↦ absurd (ground arith)
  | inr (e, hit) ↦
      let same : e.value ≡ v = ground arith in
      subst (λ (w : Text). Elem (key, w) log) same (All-lookup (Holds log) key e c h hit)
]

pub from_cache-IsFrom :
    (log : Log) (c : Entries) (key error : Text) (now later : ℕ)
    → All (Holds log) c
    → IsFrom log key (from_cache c key error now later)
unfolding from_cache
from_cache-IsFrom log c key error now later h = elim (Option-cases (get c key now)) [
  | inr (v, hit) ↦ rw (from_cache, hit) (get-Elem log c key v now h hit)
  | inl miss ↦ elim (Option-cases (get_stale c key stale_max_age later)) [
    | inr ((v, age), hit) ↦
        rw (from_cache, miss, hit) (get_stale-Elem log c key v stale_max_age later age h hit)
    | inl none_left ↦ rw (from_cache, miss, none_left) tt
  ]
]

pub put_at-Holds :
    (log : Log) (c : Entries) (key v : Text) (ttl fetched now : ℕ)
    → Elem (key, v) log
    → All (Holds log) c
    → All (Holds log) (put_at c key v ttl fetched now)
unfolding put_at
put_at-Holds log c key v ttl fetched now new h =
    elim (Bool-cases (ltb sweep_threshold (length c))) [
      | inl full ↦
          rw (put_at, full) (All-insert (Holds log) key _ _ new (All-retain (Holds log) _ c h))
      | inr room ↦ rw (put_at, room) (All-insert (Holds log) key _ c new h)
    ]

pub Fits-update :
    (log : Log) (slots : ℕ → Option Text) (i : ℕ) (t : Task) (tasks : ℕ → Task)
    → Fits log (slots i) t
    → ((j : ℕ) → Fits log (slots j) (tasks j))
    → (j : ℕ) → Fits log (slots j) (update i t tasks j)
Fits-update log slots i t tasks own h j = elim (Bool-cases (i == j)) [
  | inl same ↦
      let e : i ≡ j = (==_iff i j).0 same in rw same (subst (λ (k : ℕ). Fits log (slots k) t) e own)
  | inr other ↦ rw other (h j)
]

pub Fits-wake :
    (log : Log) (slot : Option Text) (n : ℕ) (t : Task) → Fits log slot t → Fits log slot (wake n t)
unfolding wake
Fits-wake log slot n (waiting key m) h = elim (Bool-cases (n == m)) [
  | inl same ↦ rw same h
  | inr other ↦ rw other h
]
Fits-wake log slot n idle h = h
Fits-wake log slot n dropped h = h
Fits-wake log slot n (arrived key ttl) h = h
Fits-wake log slot n (missed key ttl) h = h
Fits-wake log slot n (woken key) h = h
Fits-wake log slot n (fetching key ttl m) h = h
Fits-wake log slot n (settled key m r) h = h
Fits-wake log slot n (removed key m r) h = h
Fits-wake log slot n (reporting key r) h = h
Fits-wake log slot n (finished r) h = h
