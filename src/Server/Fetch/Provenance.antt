-- ===== src/Server/Fetch/Provenance.antt =====
-- The answers of a pod's calls (server/src/fetch.rs) along a run.
use traintime_api.Common.{
  ℕ, ◌≡◌, refl, sym, inl, inr, Option, none, some, List, [], ◌∷◌, ◌++◌, append_assoc, append-nil,
  if◌then◌else◌, ◌==◌, Bool-cases, Option-cases, Result-cases, Result, ok, err, Text, All, lookup,
}
use mathlib.Core.Path.{subst}
use traintime_api.Server.Cache.{get, lookup_with}
use traintime_api.Server.Fetch.{
  Fetched, cached, fresh, from_cache, Task, idle, arrived, missed, waiting, woken, fetching,
  settled, removed, reporting, finished, dropped, Pod, Env, update, advance, arrive, unavailable,
  Event, request, run, cancel, step, steps, booted,
}
use traintime_api.Server.Fetch.Origin.{
  Log, brought_by, brought_in, brought, given, asked_by, asked, IsFrom, Fits, Holds, IsTraced,
  Fits-append, Holds-append, get-Elem, from_cache-IsFrom, put_at-Holds, Fits-update, Fits-wake,
}

-- One task goes on to `t`, the entries become `c`, and `new` came in.
move-IsTraced :
    (new log : Log) (slots : ℕ → Option Text) (p q : Pod) (i : ℕ) (t : Task)
    → q.tasks ≡ update i t p.tasks
    → Fits (new ++ log) (slots i) t
    → All (Holds (new ++ log)) q.cache
    → IsTraced p log slots
    → IsTraced q (new ++ log) slots
move-IsTraced new log slots p q i t moved own kept h = record {
  entries = kept;
  tasks = λ j.
      subst (λ (f : ℕ → Task). Fits (new ++ log) (slots j) (f j)) (sym moved)
        (Fits-update (new ++ log) slots i t p.tasks own
          (λ k. Fits-append new log (slots k) (p.tasks k) (h.tasks k)) j);
}

module _ (log : Log) (slots : ℕ → Option Text) (p : Pod) (i : ℕ) (env : Env) where
  arrived-IsTraced :
      (key : Text) (ttl : ℕ)
      → slots i ≡ some key
      → IsTraced p log slots
      → IsTraced (advance p i env (arrived key ttl)) (brought_by (arrived key ttl) env ++ log) slots
  unfolding advance lookup_with
  arrived-IsTraced key ttl own h = elim (Option-cases env.shared) [
    | inr (v, answered) ↦
        rw (advance, answered)
          (move-IsTraced ((key, v) ∷ []) log slots p _ i (finished (cached v)) refl
            (key, own, inl refl) (Holds-append ((key, v) ∷ []) log p.cache h.entries) h)
    | inl silent ↦ elim (Option-cases (get p.cache key env.now)) [
      | inr (v, hit) ↦
          rw (advance, silent, hit)
            (move-IsTraced [] log slots p _ i (finished (cached v)) refl
              (key, own, get-Elem log p.cache key v env.now h.entries hit) h.entries h)
      | inl miss ↦
          rw (advance, silent, miss)
            (move-IsTraced [] log slots p _ i (missed key ttl) refl own h.entries h)
    ]
  ]

  missed-IsTraced :
      (key : Text) (ttl : ℕ)
      → slots i ≡ some key
      → IsTraced p log slots
      → IsTraced (advance p i env (missed key ttl)) log slots
  unfolding advance
  missed-IsTraced key ttl own h = elim (Option-cases (lookup key p.keys)) [
    | inl new ↦
        rw (advance, new)
          (move-IsTraced [] log slots p _ i (fetching key ttl p.next) refl own h.entries h)
    | inr (n, found) ↦
        rw (advance, found) (move-IsTraced [] log slots p _ i (waiting key n) refl own h.entries h)
  ]

  fetching-IsTraced :
      (key : Text) (ttl n : ℕ)
      → slots i ≡ some key
      → IsTraced p log slots
      → IsTraced
          (advance p i env (fetching key ttl n))
          (brought_by (fetching key ttl n) env ++ log)
          slots
  unfolding advance
  fetching-IsTraced key ttl n own h = elim (Result-cases env.outcome) [
    | inl (v, came) ↦
        let new = (key, v) ∷ [] in
        rw (advance, came)
          (move-IsTraced new log slots p _ i (settled key n (ok v)) refl (own, inl refl)
            (put_at-Holds (new ++ log) p.cache key v ttl env.now env.sweep (inl refl)
              (Holds-append new log p.cache h.entries))
            h)
    | inr (e, failure) ↦
        rw (advance, failure)
          (move-IsTraced [] log slots p _ i (settled key n (err e)) refl (own, tt) h.entries h)
  ]

  removed-IsTraced :
      (key : Text) (n : ℕ) (r : Result Text Text)
      → Fits log (slots i) (reporting key r)
      → IsTraced p log slots
      → IsTraced (advance p i env (removed key n r)) log slots
  unfolding advance
  removed-IsTraced key n r own h = record {
    entries = h.entries;
    tasks = λ j.
        Fits-wake log (slots j) n (update i (reporting key r) p.tasks j)
          (Fits-update log slots i (reporting key r) p.tasks own h.tasks j);
  }

  advance-IsTraced :
      (t : Task)
      → Fits log (slots i) t
      → IsTraced p log slots
      → IsTraced (advance p i env t) (brought_by t env ++ log) slots
  unfolding advance
  advance-IsTraced (arrived key ttl) own h = arrived-IsTraced key ttl own h
  advance-IsTraced (missed key ttl) own h = missed-IsTraced key ttl own h
  advance-IsTraced (fetching key ttl n) own h = fetching-IsTraced key ttl n own h
  advance-IsTraced (settled key n r) own h =
      move-IsTraced [] log slots p _ i (removed key n r) refl own h.entries h
  advance-IsTraced (removed key n r) own h = removed-IsTraced key n r own h
  advance-IsTraced (reporting key (ok v)) (own, from) h =
      move-IsTraced [] log slots p _ i (finished (fresh v)) refl (key, own, from) h.entries h
  advance-IsTraced (reporting key (err e)) (own, from) h =
      move-IsTraced [] log slots p _ i (finished (from_cache p.cache key e env.now env.later)) refl
        (key, own, from_cache-IsFrom log p.cache key e env.now env.later h.entries) h.entries h
  advance-IsTraced (woken key) own h =
      move-IsTraced [] log slots p _ i
        (finished (from_cache p.cache key unavailable env.now env.later)) refl
        (key, own, from_cache-IsFrom log p.cache key unavailable env.now env.later h.entries)
        h.entries h
  advance-IsTraced (waiting key n) own h = h
  advance-IsTraced idle own h = h
  advance-IsTraced (finished r) own h = h
  advance-IsTraced dropped own h = h

-- A request to a slot that is taken changes nothing.
taken-IsTraced :
    (log : Log) (slots : ℕ → Option Text) (p : Pod) (j : ℕ)
    → IsTraced p log slots
    → IsTraced p log (λ i. if j == i then slots i else slots i)
taken-IsTraced log slots p j h = record {
  entries = h.entries;
  tasks = λ i. elim (Bool-cases (j == i)) [
    | inl same ↦ rw same (h.tasks i)
    | inr other ↦ rw other (h.tasks i)
  ];
}

arrive-IsTraced :
    (log : Log) (slots : ℕ → Option Text) (p : Pod) (j ttl : ℕ) (key : Text) (t : Task)
    → IsTraced p log slots
    → IsTraced (arrive p j key ttl t) log (λ i. if j == i then given t key (slots i) else slots i)
unfolding arrive
arrive-IsTraced log slots p j ttl key idle h = record {
  entries = h.entries;
  tasks = λ i. elim (Bool-cases (j == i)) [
    | inl same ↦ rw same refl
    | inr other ↦ rw other (h.tasks i)
  ];
}
arrive-IsTraced log slots p j ttl key (arrived k l) h = taken-IsTraced log slots p j h
arrive-IsTraced log slots p j ttl key (missed k l) h = taken-IsTraced log slots p j h
arrive-IsTraced log slots p j ttl key (waiting k n) h = taken-IsTraced log slots p j h
arrive-IsTraced log slots p j ttl key (woken k) h = taken-IsTraced log slots p j h
arrive-IsTraced log slots p j ttl key (fetching k l n) h = taken-IsTraced log slots p j h
arrive-IsTraced log slots p j ttl key (settled k n r) h = taken-IsTraced log slots p j h
arrive-IsTraced log slots p j ttl key (removed k n r) h = taken-IsTraced log slots p j h
arrive-IsTraced log slots p j ttl key (reporting k r) h = taken-IsTraced log slots p j h
arrive-IsTraced log slots p j ttl key (finished r) h = taken-IsTraced log slots p j h
arrive-IsTraced log slots p j ttl key dropped h = taken-IsTraced log slots p j h

step-IsTraced :
    (log : Log) (slots : ℕ → Option Text) (p : Pod) (e : Event)
    → IsTraced p log slots
    → IsTraced (step p e) (brought_in p e ++ log) (asked_by p slots e)
unfolding step
step-IsTraced log slots p (request j key ttl) h =
    arrive-IsTraced log slots p j ttl key (p.tasks j) h
step-IsTraced log slots p (run i env) h =
    advance-IsTraced log slots p i env (p.tasks i) (h.tasks i) h
step-IsTraced log slots p (cancel i) h =
    move-IsTraced [] log slots p _ i dropped refl tt h.entries h

steps-IsTraced :
    (log : Log) (slots : ℕ → Option Text) (p : Pod) (events : List Event)
    → IsTraced p log slots
    → IsTraced (steps p events) (brought p events ++ log) (asked p slots events)
unfolding steps brought asked
steps-IsTraced log slots p [] h = h
steps-IsTraced log slots p (e ∷ events) h =
    rw (append_assoc (brought (step p e) events) (brought_in p e) log) (
      steps-IsTraced (brought_in p e ++ log) (asked_by p slots e) (step p e) events
        (step-IsTraced log slots p e h))

abbrev pub nothing_asked : ℕ → Option Text
nothing_asked i = none

-- However requests, turns and drops are ordered, a call that has its answer was given a key, and the
-- value of the answer, if it has one, came in for that very key: as an answer of the shared cache or
-- as the outcome of a call upstream.
pub steps-IsFrom :
    (events : List Event) (i : ℕ) (r : Fetched)
    → (steps booted events).tasks i ≡ finished r
    → (key : Text) × (asked booted nothing_asked events i ≡ some key)
      × IsFrom (brought booted events) key r
steps-IsFrom events i r done =
    let h =
      steps-IsTraced [] nothing_asked booted events (record { entries = tt; tasks = λ j. tt }) in
    let fits =
      subst (Fits (brought booted events ++ []) (asked booted nothing_asked events i)) done
        (h.tasks i) in
    rw (sym (append-nil (brought booted events))) fits
