-- ===== src/Server/Fetch/Rank.antt =====
-- The turns that a call of `cached` (server/src/fetch.rs) still needs, and what a step does to them.
use mathlib.Core.Path.{subst}
use traintime_api.Common.{
  ℕ, ◌+◌, ◌-◌, ◌≤◌, ◌≡◌, sym, ap, ◌∙◌, inl, inr, true, List, [], ◌∷◌, arith, if◌then◌else◌,
  Bool-cases, Option-cases, Result-cases, ◌==◌, ok, err, Text, lookup,
}
use traintime_api.Server.Cache.{lookup_with}
use traintime_api.Server.Fetch.{
  Task, idle, arrived, missed, waiting, woken, fetching, settled, removed, reporting, finished,
  dropped, Pod, Env, update, wake, advance, arrive, Event, cached, fresh, from_cache, unavailable,
  request, run, cancel,
}

-- The turns that a call still needs at most.
unfoldable pub rank : Task → ℕ
rank (arrived key ttl) = 6
rank (missed key ttl) = 5
rank (fetching key ttl n) = 4
rank (settled key n r) = 3
rank (removed key n r) = 2
rank (reporting key r) = 1
rank (waiting key n) = 0
rank (woken key) = 0
rank idle = 0
rank (finished r) = 0
rank dropped = 0

-- A call that has begun.
abbrev pub IsBegun : Task → Type 0
IsBegun idle = ⊥
IsBegun t = Unit

-- The turns of a task among the events.
abbrev pub turn : ℕ → Event → ℕ
turn i (run j env) = if j == i then 1 else 0
turn i (request j key ttl) = 0
turn i (cancel j) = 0

unfoldable pub turns : ℕ → List Event → ℕ
turns i [] = 0
turns i (e ∷ events) = turn i e + turns i events

-- What a step may do to a begun task.
abbrev pub Sinks : Task → ℕ → Task → Type 0
Sinks t used t' = IsBegun t' × (rank t' ≤ rank t - used)

wake-Sinks : (n : ℕ) (t : Task) → IsBegun t → Sinks t 0 (wake n t)
unfolding wake rank
wake-Sinks n (waiting key m) h = ground arith
wake-Sinks n (arrived key ttl) h = ground arith
wake-Sinks n (missed key ttl) h = ground arith
wake-Sinks n (fetching key ttl m) h = ground arith
wake-Sinks n (settled key m r) h = ground arith
wake-Sinks n (removed key m r) h = ground arith
wake-Sinks n (reporting key r) h = ground arith
wake-Sinks n (woken key) h = ground arith
wake-Sinks n (finished r) h = ground arith
wake-Sinks n dropped h = ground arith
wake-Sinks n idle h = elim h [ ]

-- A task that takes a turn goes to `t'`; the others stay.
update-Sinks :
    (i j : ℕ) (t t' : Task) (tasks : ℕ → Task)
    → tasks j ≡ t
    → Sinks t 1 t'
    → IsBegun (tasks i)
    → Sinks (tasks i) (if j == i then 1 else 0) (update j t' tasks i)
update-Sinks i j t t' tasks here s h = elim (Bool-cases (j == i)) [
  | inl own ↦
      let e : j ≡ i = ground arith in
      let at : tasks i ≡ t = ap tasks (sym e) ∙ here in rw (own, at) s
  | inr other ↦ rw other (h, omega arith)
]

pub still :
    (p : Pod) (i j : ℕ)
    → IsBegun (p.tasks i)
    → rank (p.tasks j) ≡ 0
    → Sinks (p.tasks i) (if j == i then 1 else 0) (p.tasks i)
still p i j h e = elim (Bool-cases (j == i)) [
  | inl own ↦
      let same : j ≡ i = ground arith in
      let low : rank (p.tasks i) ≡ 0 = ap (λ (k : ℕ). rank (p.tasks k)) (sym same) ∙ e in
      rw own (h, omega arith)
  | inr other ↦ rw other (h, omega arith)
]

pub advance-Sinks :
    (p : Pod) (i j : ℕ) (env : Env) (t : Task)
    → p.tasks j ≡ t
    → IsBegun (p.tasks i)
    → Sinks (p.tasks i) (if j == i then 1 else 0) ((advance p j env t).tasks i)
unfolding advance rank
advance-Sinks p i j env (arrived key ttl) here h =
    elim (Option-cases (lookup_with env.shared p.cache key env.now)) [
      | inl e ↦
          rw (advance, e) (update-Sinks i j _ (missed key ttl) p.tasks here (tt, omega arith) h)
      | inr (v, e) ↦
          rw (advance, e)
            (update-Sinks i j _ (finished (cached v)) p.tasks here (tt, omega arith) h)
    ]
advance-Sinks p i j env (missed key ttl) here h = elim (Option-cases (lookup key p.keys)) [
  | inl e ↦
      rw (advance, e)
        (update-Sinks i j _ (fetching key ttl p.next) p.tasks here (tt, omega arith) h)
  | inr (n, e) ↦
      rw (advance, e) (update-Sinks i j _ (waiting key n) p.tasks here (tt, omega arith) h)
]
advance-Sinks p i j env (fetching key ttl n) here h = elim (Result-cases env.outcome) [
  | inl (v, e) ↦
      rw (advance, e) (update-Sinks i j _ (settled key n (ok v)) p.tasks here (tt, omega arith) h)
  | inr (x, e) ↦
      rw (advance, e) (update-Sinks i j _ (settled key n (err x)) p.tasks here (tt, omega arith) h)
]
advance-Sinks p i j env (settled key n r) here h =
    update-Sinks i j _ (removed key n r) p.tasks here (tt, omega arith) h
advance-Sinks p i j env (removed key n r) here h =
    let (begun, less) = update-Sinks i j _ (reporting key r) p.tasks here (tt, omega arith) h in
    let (begun', less') = wake-Sinks n (update j (reporting key r) p.tasks i) begun in
    (begun', omega arith)
advance-Sinks p i j env (reporting key (ok v)) here h =
    update-Sinks i j _ (finished (fresh v)) p.tasks here (tt, omega arith) h
advance-Sinks p i j env (reporting key (err e)) here h =
    update-Sinks i j _ (finished (from_cache p.cache key e env.now env.later)) p.tasks here
      (tt, omega arith) h
advance-Sinks p i j env (woken key) here h =
    update-Sinks i j _ (finished (from_cache p.cache key unavailable env.now env.later)) p.tasks
      here (tt, omega arith) h
advance-Sinks p i j env (waiting key n) here h = still p i j h (ap rank here)
advance-Sinks p i j env idle here h = still p i j h (ap rank here)
advance-Sinks p i j env (finished r) here h = still p i j h (ap rank here)
advance-Sinks p i j env dropped here h = still p i j h (ap rank here)

pub arrive-Sinks :
    (p : Pod) (i j : ℕ) (key : Text) (ttl : ℕ) (t : Task)
    → p.tasks j ≡ t
    → IsBegun (p.tasks i)
    → Sinks (p.tasks i) 0 ((arrive p j key ttl t).tasks i)
unfolding arrive rank
arrive-Sinks p i j key ttl idle here h = elim (Bool-cases (j == i)) [
  | inl own ↦ absurd (subst IsBegun (ap p.tasks (sym (same j i own)) ∙ here) h)
  | inr other ↦ rw other (h, omega arith)
]
  where
    same : (j i : ℕ) → (j == i) ≡ true → j ≡ i
    same j i own = ground arith
arrive-Sinks p i j key ttl (arrived k l) here h = (h, omega arith)
arrive-Sinks p i j key ttl (missed k l) here h = (h, omega arith)
arrive-Sinks p i j key ttl (waiting k n) here h = (h, omega arith)
arrive-Sinks p i j key ttl (woken k) here h = (h, omega arith)
arrive-Sinks p i j key ttl (fetching k l n) here h = (h, omega arith)
arrive-Sinks p i j key ttl (settled k n r) here h = (h, omega arith)
arrive-Sinks p i j key ttl (removed k n r) here h = (h, omega arith)
arrive-Sinks p i j key ttl (reporting k r) here h = (h, omega arith)
arrive-Sinks p i j key ttl (finished r) here h = (h, omega arith)
arrive-Sinks p i j key ttl dropped here h = (h, omega arith)
