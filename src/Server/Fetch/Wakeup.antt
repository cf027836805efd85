-- ===== src/Server/Fetch/Wakeup.antt =====
-- The tasks of a pod that wait for a notify, and those that will fire it (server/src/fetch.rs).
use traintime_api.Common.{
  ℕ, ◌≡◌, refl, ap, ◌∙◌, ◌≢◌, inl, inr, some, List, [], ◌∷◌, arith, Option-cases, Result, ok, err,
  Text, lookup, All,
}
use traintime_api.Server.Cache.{lookup_with}
use traintime_api.Server.Fetch.{
  Task, idle, arrived, missed, waiting, woken, fetching, settled, removed, reporting, finished,
  dropped, Pod, Env, update, wake, advance, arrive, Event, request, run, cancel, step, steps,
  booted,
}
use traintime_api.Server.Fetch.Invariant.{
  carrier, holder, awaits, carrier-wake, holder-wake, carrier-holder,
}
use traintime_api.Server.Fetch.Live.{IsLive, widen-IsLive, lead-IsLive, release-IsLive}

awaits-wake : (n m : ℕ) (t : Task) → awaits (wake n t) ≡ some m → (awaits t ≡ some m) × (n ≢ m)
unfolding wake
awaits-wake n m (waiting key k) h = ground arith
awaits-wake n m _ h = absurd (cc)

notify-IsLive :
    (p : Pod) (i n : ℕ) (env : Env) (key : Text) (r : Result Text Text)
    → p.tasks i ≡ removed key n r
    → IsLive p
    → IsLive (advance p i env (removed key n r))
unfolding advance
notify-IsLive p i n env key r here l = record {
  awaited = λ a m h.
      let (waits, other) = awaits-wake n m (update i (reporting key r) p.tasks a) h in
      let (j, c) = l.awaited a m (ground arith) in
      (j, carrier-wake n (update i (reporting key r) p.tasks j) ∙ ground (arith, ap carrier here));
  listed = λ k m h.
      let (j, c) = l.listed k m h in
      (j, holder-wake n (update i (reporting key r) p.tasks j) ∙ ground (arith, ap holder here));
}

miss-IsLive :
    (p : Pod) (i ttl : ℕ) (env : Env) (key : Text)
    → p.tasks i ≡ missed key ttl
    → IsLive p
    → IsLive (advance p i env (missed key ttl))
unfolding advance
miss-IsLive p i ttl env key e l = elim (Option-cases (lookup key p.keys)) [
  | inl new ↦ rw (new, advance) (lead-IsLive p i ttl key (key ∷ p.fetches) e l)
  | inr (n, found) ↦
      let (j, h) = l.listed key n found in
      rw (found, advance)
        (widen-IsLive p _ i (waiting key n) refl refl (inl (ap carrier e), inl (ap holder e))
          (inr (inr (n, j, refl, carrier-holder (p.tasks j) key n h))) l)
]

look-IsLive :
    (p : Pod) (i ttl : ℕ) (env : Env) (key : Text)
    → p.tasks i ≡ arrived key ttl
    → IsLive p
    → IsLive (advance p i env (arrived key ttl))
unfolding advance
look-IsLive p i ttl env key e l = elim (Option-cases (lookup_with env.shared p.cache key env.now)) [
  | inl miss ↦
      rw (miss, advance)
        (widen-IsLive p _ i (missed key ttl) refl refl (inl (ap carrier e), inl (ap holder e))
          (inl refl) l)
  | inr (v, hit) ↦
      rw (hit, advance)
        (widen-IsLive p _ i _ refl refl (inl (ap carrier e), inl (ap holder e)) (inl refl) l)
]

advance-IsLive :
    (p : Pod) (i : ℕ) (env : Env) (t : Task) → p.tasks i ≡ t → IsLive p → IsLive (advance p i env t)
unfolding advance
advance-IsLive p i env (arrived key ttl) e l = look-IsLive p i ttl env key e l
advance-IsLive p i env (missed key ttl) e l = miss-IsLive p i ttl env key e l
advance-IsLive p i env (woken key) e l =
    widen-IsLive p _ i _ refl refl (inl (ap carrier e), inl (ap holder e)) (inl refl) l
advance-IsLive p i env (fetching key ttl n) e l = go env.outcome
  where
    go :
        (r : Result Text Text)
        → IsLive (advance p i (record env { outcome = r }) (fetching key ttl n))
    go (ok v) =
        widen-IsLive p _ i (settled key n (ok v)) refl refl (inr (ap carrier e), inr (ap holder e))
          (inl refl) l
    go (err x) =
        widen-IsLive p _ i (settled key n (err x)) refl refl (inr (ap carrier e), inr (ap holder e))
          (inl refl) l
advance-IsLive p i env (settled key n r) e l = release-IsLive p i n key r e l
advance-IsLive p i env (removed key n r) e l = notify-IsLive p i n env key r e l
advance-IsLive p i env (reporting key (ok v)) e l =
    widen-IsLive p _ i _ refl refl (inl (ap carrier e), inl (ap holder e)) (inl refl) l
advance-IsLive p i env (reporting key (err x)) e l =
    widen-IsLive p _ i _ refl refl (inl (ap carrier e), inl (ap holder e)) (inl refl) l
advance-IsLive p i env idle e l = l
advance-IsLive p i env (waiting key n) e l = l
advance-IsLive p i env (finished r) e l = l
advance-IsLive p i env dropped e l = l

arrive-IsLive :
    (p : Pod) (i ttl : ℕ) (key : Text) (t : Task)
    → p.tasks i ≡ t
    → IsLive p
    → IsLive (arrive p i key ttl t)
unfolding arrive
arrive-IsLive p i ttl key idle e l =
    widen-IsLive p _ i (arrived key ttl) refl refl (inl (ap carrier e), inl (ap holder e))
      (inl refl) l
arrive-IsLive p i ttl key _ e l = l

-- No call is dropped.
abbrev pub IsKept : Event → Type 0
IsKept (request i key ttl) = Unit
IsKept (run i env) = Unit
IsKept (cancel i) = ⊥

step-IsLive : (p : Pod) (e : Event) → IsKept e → IsLive p → IsLive (step p e)
unfolding step
step-IsLive p (request i key ttl) k l = arrive-IsLive p i ttl key (p.tasks i) refl l
step-IsLive p (run i env) k l = advance-IsLive p i env (p.tasks i) refl l
step-IsLive p (cancel i) k l = absurd k

pub steps-IsLive :
    (p : Pod) (events : List Event) → All IsKept events → IsLive p → IsLive (steps p events)
unfolding steps
steps-IsLive p [] k l = l
steps-IsLive p (e ∷ events) (k, ks) l = steps-IsLive (step p e) events ks (step-IsLive p e k l)

pub booted-IsLive : IsLive booted
unfolding lookup
booted-IsLive = record { awaited = λ i n h. absurd (cc); listed = λ key n h. absurd (cc) }

-- While no call is dropped, whoever waits has a task that will fire the notify it waits for.
pub steps-awaited :
    (events : List Event) (i n : ℕ) (key : Text)
    → All IsKept events
    → (steps booted events).tasks i ≡ waiting key n
    → (j : ℕ) × (carrier ((steps booted events).tasks j) ≡ some n)
steps-awaited events i n key kept waits =
    (steps-IsLive booted events kept booted-IsLive).awaited i n (ap awaits waits)
