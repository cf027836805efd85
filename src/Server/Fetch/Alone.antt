-- ===== src/Server/Fetch/Alone.antt =====
-- A call of `cached` (server/src/fetch.rs) that takes its turns with nothing in between.
use traintime_api.Common.{
  ℕ, ◌≡◌, refl, inl, inr, Option, none, some, List, [], ◌∷◌, Option-cases, Text, lookup,
}
use traintime_api.Server.Cache.{Entries, lookup_with}
use traintime_api.Server.Fetch.{
  idle, finished, Fetched, cached, Pod, Env, Event, request, run, step, steps,
}
use traintime_api.Server.Fetch.Places.{
  written, report, At, arrive_turn, hit_turn, miss_turn, rest_turn, settle_turn, notify_turn,
  report_turn, lock_turn, remove_turn,
}

-- The clock, the shared cache and the outcome upstream, as each turn of the call meets them.
pub record Course : Type 0 where
  pub at_cache : Env
  pub at_lock : Env
  pub at_fetch : Env
  pub at_removal : Env
  pub at_notify : Env
  pub at_end : Env

abbrev pub turns_of : ℕ → Course → List Event
turns_of i w =
    run i w.at_cache
    ∷ run i w.at_lock
    ∷ run i w.at_fetch
    ∷ run i w.at_removal
    ∷ run i w.at_notify
    ∷ run i w.at_end
    ∷ []

-- What a call leaves: its answer, the entries of the pod, and the keys fetched upstream.
pub record Left : Type 0 where
  pub answer : Fetched
  pub entries : Entries
  pub fetches : List Text

-- What `cached` promises: what the caches hold, else what the call upstream comes to.
abbrev pub promised : Entries → List Text → Text → ℕ → Course → Option Text → Left
promised c f key ttl w (some v) = record { answer = cached v; entries = c; fetches = f }
promised c f key ttl w none =
    let c' = written key ttl c w.at_fetch w.at_fetch.outcome in
    record { answer = report key c' w.at_end w.at_fetch.outcome; entries = c'; fetches = key ∷ f }

abbrev Keeps : ℕ → Text → Left → Pod → Type 0
Keeps i key l p = At i key (finished l.answer) l.entries none l.fetches p

module _ (p : Pod) (i : ℕ) (key : Text) (ttl : ℕ) (w : Course) where
  hit-Keeps :
      (v : Text)
      → At i key idle p.cache none p.fetches p
      → lookup_with w.at_cache.shared p.cache key w.at_cache.now ≡ some v
      → Keeps i key
          (promised p.cache p.fetches key ttl w (some v))
          (steps p (request i key ttl ∷ turns_of i w))
  unfolding steps
  hit-Keeps v h hit =
      let p₀ = step p (request i key ttl) in
      let p₁ = step p₀ (run i w.at_cache) in
      let p₂ = step p₁ (run i w.at_lock) in
      let p₃ = step p₂ (run i w.at_fetch) in
      let p₄ = step p₃ (run i w.at_removal) in
      let p₅ = step p₄ (run i w.at_notify) in
      let rest = rest_turn i key p.cache none p.fetches in
      let h₁ =
        hit_turn i key p.cache none p.fetches p₀ w.at_cache ttl v hit
          (arrive_turn i key p.cache none p.fetches p ttl h) in
      rest p₅ w.at_end (cached v) (
        rest p₄ w.at_notify (cached v) (
          rest p₃ w.at_removal (cached v)
            (rest p₂ w.at_fetch (cached v) (rest p₁ w.at_lock (cached v) h₁))))

  miss-Keeps :
      At i key idle p.cache none p.fetches p
      → lookup_with w.at_cache.shared p.cache key w.at_cache.now ≡ none
      → Keeps i key
          (promised p.cache p.fetches key ttl w none)
          (steps p (request i key ttl ∷ turns_of i w))
  unfolding steps
  miss-Keeps h miss =
      let out = w.at_fetch.outcome in
      let c' = written key ttl p.cache w.at_fetch out in
      let p₀ = step p (request i key ttl) in
      let p₁ = step p₀ (run i w.at_cache) in
      let p₂ = step p₁ (run i w.at_lock) in
      let p₃ = step p₂ (run i w.at_fetch) in
      let p₄ = step p₃ (run i w.at_removal) in
      let p₅ = step p₄ (run i w.at_notify) in
      let fs = key ∷ p.fetches in
      let h₁ =
        miss_turn i key p.cache none p.fetches p₀ w.at_cache ttl miss
          (arrive_turn i key p.cache none p.fetches p ttl h) in
      let h₂ = lock_turn i key p.cache p.fetches p₁ w.at_lock ttl h₁ in
      let h₃ = settle_turn i key p.cache (some p₁.next) fs p₂ w.at_fetch p₁.next ttl h₂ in
      let h₄ = remove_turn i key c' fs p₃ w.at_removal p₁.next (some p₁.next) out h₃ in
      let h₅ = notify_turn i key c' none fs p₄ w.at_notify p₁.next out h₄ in
      report_turn i key c' none fs p₅ w.at_end out h₅

  -- A call that takes its turns with nothing in between, on a key that is not in flight, has after six
  -- turns the answer that is promised, has left the promised entries and fetches, and its key is not
  -- in flight: what the caches hold, else the value from upstream, which is written, else what
  -- the pod's entries hold for the error.
  pub steps-promised :
      p.tasks i ≡ idle
      → lookup key p.keys ≡ none
      → Keeps i key
          (promised p.cache p.fetches key ttl w
            (lookup_with w.at_cache.shared p.cache key w.at_cache.now))
          (steps p (request i key ttl ∷ turns_of i w))
  steps-promised unused free =
      let h : At i key idle p.cache none p.fetches p = (unused, refl, free, refl) in
      elim (Option-cases (lookup_with w.at_cache.shared p.cache key w.at_cache.now)) [
        | inl miss ↦ rw miss (miss-Keeps h miss)
        | inr (v, hit) ↦ rw hit (hit-Keeps v h hit)
      ]
