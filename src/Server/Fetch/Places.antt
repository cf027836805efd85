-- ===== src/Server/Fetch/Places.antt =====
-- What each turn of a call of `cached` (server/src/fetch.rs) does to the answer, the entries, the key
-- and the fetches of the pod.
use mathlib.Core.Path.{subst}
use traintime_api.Common.{
  ℕ, ◌≡◌, refl, sym, ap, ◌∙◌, inl, inr, Option, none, some, List, ◌∷◌, Result-cases, Result, ok,
  err, Text, lookup, lookup-remove, lookup-insert_self, text_eq_refl,
}
use traintime_api.Server.Cache.{Entries, put_at, lookup_with}
use traintime_api.Server.Fetch.{
  Task, idle, arrived, missed, fetching, settled, removed, reporting, finished, Fetched, cached,
  fresh, from_cache, Pod, Env, wake, advance, arrive, request, run, step,
}
use traintime_api.Server.Fetch.Progress.{at_self}

-- The entries behind the outcome upstream, and the report of it.
abbrev pub written : Text → ℕ → Entries → Env → Result Text Text → Entries
written key ttl c env (ok v) = put_at c key v ttl env.now env.sweep
written key ttl c env (err e) = c

abbrev pub report : Text → Entries → Env → Result Text Text → Fetched
report key c env (ok v) = fresh v
report key c env (err e) = from_cache c key e env.now env.later

-- Where the call stands, the entries, the notify of the key, and the keys fetched.
abbrev pub At : ℕ → Text → Task → Entries → Option ℕ → List Text → Pod → Type 0
At i key t entries seen fetches p =
    (p.tasks i ≡ t) × (p.cache ≡ entries) × (lookup key p.keys ≡ seen) × (p.fetches ≡ fetches)

-- A turn from a known place.
step-turn :
    (p : Pod) (i : ℕ) (env : Env) (t : Task)
    → p.tasks i ≡ t
    → step p (run i env) ≡ advance p i env t
unfolding step
step-turn p i env t here = ap (advance p i env) here

module _ (i : ℕ) (key : Text) (c : Entries) (s : Option ℕ) (f : List Text) where
  pub arrive_turn :
      (p : Pod) (ttl : ℕ)
      → At i key idle c s f p
      → At i key (arrived key ttl) c s f (step p (request i key ttl))
  unfolding step arrive
  arrive_turn p ttl (here, own, seen, fetched) =
      subst (λ (t : Task). At i key (arrived key ttl) c s f (arrive p i key ttl t)) (sym here)
        (at_self i (arrived key ttl) p.tasks, own, seen, fetched)

  pub hit_turn :
      (p : Pod) (env : Env) (ttl : ℕ) (v : Text)
      → lookup_with env.shared c key env.now ≡ some v
      → At i key (arrived key ttl) c s f p
      → At i key (finished (cached v)) c s f (step p (run i env))
  unfolding advance
  hit_turn p env ttl v hit (here, own, seen, fetched) =
      let hit' : lookup_with env.shared p.cache key env.now ≡ some v =
        ap (λ (m : Entries). lookup_with env.shared m key env.now) own ∙ hit in
      rw (step-turn p i env (arrived key ttl) here, advance, hit')
        (at_self i (finished (cached v)) p.tasks, own, seen, fetched)

  pub miss_turn :
      (p : Pod) (env : Env) (ttl : ℕ)
      → lookup_with env.shared c key env.now ≡ none
      → At i key (arrived key ttl) c s f p
      → At i key (missed key ttl) c s f (step p (run i env))
  unfolding advance
  miss_turn p env ttl miss (here, own, seen, fetched) =
      let miss' : lookup_with env.shared p.cache key env.now ≡ none =
        ap (λ (m : Entries). lookup_with env.shared m key env.now) own ∙ miss in
      rw (step-turn p i env (arrived key ttl) here, advance, miss')
        (at_self i (missed key ttl) p.tasks, own, seen, fetched)

  pub rest_turn :
      (p : Pod) (env : Env) (r : Fetched)
      → At i key (finished r) c s f p
      → At i key (finished r) c s f (step p (run i env))
  unfolding advance
  rest_turn p env r (here, own, seen, fetched) =
      rw (step-turn p i env (finished r) here) (here, own, seen, fetched)

  pub settle_turn :
      (p : Pod) (env : Env) (n ttl : ℕ)
      → At i key (fetching key ttl n) c s f p
      → At i key
          (settled key n env.outcome)
          (written key ttl c env env.outcome)
          s
          f
          (step p (run i env))
  unfolding advance
  settle_turn p env n ttl (here, own, seen, fetched) = elim (Result-cases env.outcome) [
    | inl (v, e) ↦
        rw (step-turn p i env (fetching key ttl n) here, advance, e)
          (
            at_self i (settled key n (ok v)) p.tasks,
            ap (λ (m : Entries). put_at m key v ttl env.now env.sweep) own,
            seen,
            fetched,
          )
    | inr (x, e) ↦
        rw (step-turn p i env (fetching key ttl n) here, advance, e)
          (at_self i (settled key n (err x)) p.tasks, own, seen, fetched)
  ]

  pub notify_turn :
      (p : Pod) (env : Env) (n : ℕ) (r : Result Text Text)
      → At i key (removed key n r) c s f p
      → At i key (reporting key r) c s f (step p (run i env))
  unfolding advance wake
  notify_turn p env n r (here, own, seen, fetched) =
      rw (step-turn p i env (removed key n r) here)
        (ap (wake n) (at_self i (reporting key r) p.tasks), own, seen, fetched)

  pub report_turn :
      (p : Pod) (env : Env) (r : Result Text Text)
      → At i key (reporting key r) c s f p
      → At i key (finished (report key c env r)) c s f (step p (run i env))
  unfolding advance
  report_turn p env (ok v) (here, own, seen, fetched) =
      rw (step-turn p i env (reporting key (ok v)) here)
        (at_self i (finished (fresh v)) p.tasks, own, seen, fetched)
  report_turn p env (err e) (here, own, seen, fetched) =
      rw (step-turn p i env (reporting key (err e)) here) (
        at_self i (finished (from_cache p.cache key e env.now env.later)) p.tasks
            ∙ ap (λ (m : Entries). finished (from_cache m key e env.now env.later)) own,
        own,
        seen,
        fetched,
      )

module _ (i : ℕ) (key : Text) (c : Entries) (f : List Text) where
  pub lock_turn :
      (p : Pod) (env : Env) (ttl : ℕ)
      → At i key (missed key ttl) c none f p
      → At i key (fetching key ttl p.next) c (some p.next) (key ∷ f) (step p (run i env))
  unfolding advance
  lock_turn p env ttl (here, own, seen, fetched) =
      rw (step-turn p i env (missed key ttl) here, advance, seen)
        (
          at_self i (fetching key ttl p.next) p.tasks,
          own,
          lookup-insert_self key p.next p.keys,
          ap (λ (fs : List Text). key ∷ fs) fetched,
        )

  pub remove_turn :
      (p : Pod) (env : Env) (n : ℕ) (s : Option ℕ) (r : Result Text Text)
      → At i key (settled key n r) c s f p
      → At i key (removed key n r) c none f (step p (run i env))
  unfolding advance
  remove_turn p env n s r (here, own, seen, fetched) =
      rw (step-turn p i env (settled key n r) here) (
        at_self i (removed key n r) p.tasks,
        own,
        rw (lookup-remove key key p.keys, text_eq_refl key) refl,
        fetched,
      )
