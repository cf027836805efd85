-- ===== src/Server/Fetch/Flight.antt =====
-- The tasks of a pod that fetch a key (server/src/fetch.rs).
use traintime_api.Common.{
  ℕ, ◌≡◌, refl, sym, ap, ◌∙◌, inl, inr, none, some, List, [], ◌∷◌, arith, Option-cases, Result, ok,
  err, Text, lookup,
}
use mathlib.Core.Path.{subst}
use traintime_api.Server.Cache.{lookup_with}
use traintime_api.Server.Fetch.{
  Task, idle, arrived, missed, waiting, woken, fetching, settled, removed, reporting, finished,
  dropped, Pod, Env, update, wake, advance, arrive, Event, request, run, cancel, step, steps,
  booted,
}
use traintime_api.Server.Fetch.Invariant.{
  carrier, holder, IsSafe, Narrows, Narrows-update, narrow-IsSafe, lead-IsSafe, release-IsSafe,
  carrier-wake, holder-wake,
}

-- A task moves on without carrying or holding anything.
quiet-IsSafe :
    (p q : Pod) (i : ℕ) (t : Task)
    → q.keys ≡ p.keys
    → q.next ≡ p.next
    → q.tasks ≡ update i t p.tasks
    → carrier t ≡ none
    → holder t ≡ none
    → IsSafe p
    → IsSafe q
quiet-IsSafe p q i t k n e c h s =
    narrow-IsSafe p q k n
      (λ j.
        subst (λ (f : ℕ → Task). Narrows (f j) (p.tasks j)) (sym e)
          (Narrows-update i t p.tasks (inl c, inl h) j))
      s

arrive-IsSafe :
    (p : Pod) (i ttl : ℕ) (key : Text) (t : Task) → IsSafe p → IsSafe (arrive p i key ttl t)
unfolding arrive
arrive-IsSafe p i ttl key idle s = quiet-IsSafe p _ i (arrived key ttl) refl refl refl refl refl s
arrive-IsSafe p i ttl key _ s = s

miss-IsSafe :
    (p : Pod) (i ttl : ℕ) (env : Env) (key : Text)
    → IsSafe p
    → IsSafe (advance p i env (missed key ttl))
unfolding advance
miss-IsSafe p i ttl env key s = elim (Option-cases (lookup key p.keys)) [
  | inl new ↦ rw (new, advance) (lead-IsSafe p i ttl key (key ∷ p.fetches) new s)
  | inr (n, found) ↦
      rw (found, advance) (quiet-IsSafe p _ i (waiting key n) refl refl refl refl refl s)
]

look-IsSafe :
    (p : Pod) (i ttl : ℕ) (env : Env) (key : Text)
    → IsSafe p
    → IsSafe (advance p i env (arrived key ttl))
unfolding advance
look-IsSafe p i ttl env key s = elim (Option-cases (lookup_with env.shared p.cache key env.now)) [
  | inl miss ↦ rw (miss, advance) (quiet-IsSafe p _ i (missed key ttl) refl refl refl refl refl s)
  | inr (v, hit) ↦ rw (hit, advance) (quiet-IsSafe p _ i _ refl refl refl refl refl s)
]

settle-IsSafe :
    (p q : Pod) (i ttl n : ℕ) (key : Text) (r : Result Text Text)
    → p.tasks i ≡ fetching key ttl n
    → q.keys ≡ p.keys
    → q.next ≡ p.next
    → q.tasks ≡ update i (settled key n r) p.tasks
    → IsSafe p
    → IsSafe q
settle-IsSafe p q i ttl n key r here k m e s =
    narrow-IsSafe p q k m
      (λ j.
        subst (λ (f : ℕ → Task). Narrows (f j) (p.tasks j)) (sym e)
          (Narrows-update i (settled key n r) p.tasks
            (inr (sym (ap carrier here)), inr (sym (ap holder here))) j))
      s

notify-IsSafe :
    (p : Pod) (i n : ℕ) (env : Env) (key : Text) (r : Result Text Text)
    → IsSafe p
    → IsSafe (advance p i env (removed key n r))
unfolding advance
notify-IsSafe p i n env key r s = narrow-IsSafe p _ refl refl narrows s
  where
    narrows : (j : ℕ) → Narrows (wake n (update i (reporting key r) p.tasks j)) (p.tasks j)
    narrows j =
        let (c, h) = Narrows-update i (reporting key r) p.tasks (inl refl, inl refl) j in
        let t = update i (reporting key r) p.tasks j in
        (rw (carrier-wake n t) c, rw (holder-wake n t) h)

advance-IsSafe :
    (p : Pod) (i : ℕ) (env : Env) (t : Task) → p.tasks i ≡ t → IsSafe p → IsSafe (advance p i env t)
unfolding advance
advance-IsSafe p i env (arrived key ttl) e s = look-IsSafe p i ttl env key s
advance-IsSafe p i env (missed key ttl) e s = miss-IsSafe p i ttl env key s
advance-IsSafe p i env (woken key) e s = quiet-IsSafe p _ i _ refl refl refl refl refl s
advance-IsSafe p i env (fetching key ttl n) e s = go env.outcome
  where
    go :
        (r : Result Text Text)
        → IsSafe (advance p i (record env { outcome = r }) (fetching key ttl n))
    go (ok v) = settle-IsSafe p _ i ttl n key (ok v) e refl refl refl s
    go (err x) = settle-IsSafe p _ i ttl n key (err x) e refl refl refl s
advance-IsSafe p i env (settled key n r) e s = release-IsSafe p i n key r e s
advance-IsSafe p i env (removed key n r) e s = notify-IsSafe p i n env key r s
advance-IsSafe p i env (reporting key (ok v)) e s = quiet-IsSafe p _ i _ refl refl refl refl refl s
advance-IsSafe p i env (reporting key (err x)) e s = quiet-IsSafe p _ i _ refl refl refl refl refl s
advance-IsSafe p i env idle e s = s
advance-IsSafe p i env (waiting key n) e s = s
advance-IsSafe p i env (finished r) e s = s
advance-IsSafe p i env dropped e s = s

pub step-IsSafe : (p : Pod) (e : Event) → IsSafe p → IsSafe (step p e)
unfolding step
step-IsSafe p (request i key ttl) s = arrive-IsSafe p i ttl key (p.tasks i) s
step-IsSafe p (run i env) s = advance-IsSafe p i env (p.tasks i) refl s
step-IsSafe p (cancel i) s = quiet-IsSafe p _ i dropped refl refl refl refl refl s

pub steps-IsSafe : (p : Pod) (events : List Event) → IsSafe p → IsSafe (steps p events)
unfolding steps
steps-IsSafe p [] s = s
steps-IsSafe p (e ∷ events) s = steps-IsSafe (step p e) events (step-IsSafe p e s)

pub booted-IsSafe : IsSafe booted
unfolding lookup
booted-IsSafe = record {
  single = λ i j n a b. absurd (cc);
  held = λ i n key a. absurd (cc);
  used = λ i n a. absurd (cc);
  listed_used = λ key n a. absurd (cc);
}

-- In every state that a pod reaches, two tasks that fetch the same key are one task.
pub steps-single_flight :
    (events : List Event) (i j ttl ttl' n m : ℕ) (key : Text)
    → (steps booted events).tasks i ≡ fetching key ttl n
    → (steps booted events).tasks j ≡ fetching key ttl' m
    → i ≡ j
steps-single_flight events i j ttl ttl' n m key a b =
    let s = steps-IsSafe booted events booted-IsSafe in
    let ni = s.held i n key (ap holder a) in
    let mj = s.held j m key (ap holder b) in
    let same : n ≡ m = ground (arith, ni, mj) in
    s.single i j n (ap carrier a) (ap carrier b ∙ sym (ap some same))
