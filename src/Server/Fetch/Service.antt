-- ===== src/Server/Fetch/Service.antt =====
-- A call that waits for another call's fetch (server/src/fetch.rs) until it has its answer.
use mathlib.Core.Path.{subst}
use traintime_api.Common.{
  ℕ, ◌≤◌, ◌≡◌, refl, sym, ap, ◌∙◌, ◌≢◌, ◌⊎◌, inl, inr, false, some, List, [], ◌∷◌, All, arith,
  if◌then◌else◌, Bool-cases, ◌==◌, ==_iff, Option-cases, Result-cases, ok, err, Text, lookup,
}
use traintime_api.Server.Cache.{lookup_with}
use traintime_api.Server.Fetch.{
  Fetched, Task, idle, arrived, missed, waiting, woken, fetching, settled, removed, reporting,
  finished, dropped, Pod, Env, update, wake, advance, arrive, Event, request, run, cancel, step,
  steps, booted,
}
use traintime_api.Server.Fetch.Invariant.{carrier, awaits}
use traintime_api.Server.Fetch.Progress.{at_self, steps-IsClear}
use traintime_api.Server.Fetch.Rank.{turn, turns}
use traintime_api.Server.Fetch.Wakeup.{IsKept}

-- What the turn of another task leaves of a task.
abbrev Leaves : Task → Task → Type 0
Leaves t t' = (t' ≡ t) ⊎ ((n : ℕ) × (t' ≡ wake n t))

update-other :
    (i j : ℕ) (t : Task) (tasks : ℕ → Task) → (j == i) ≡ false → update j t tasks i ≡ tasks i
update-other i j t tasks other = rw other refl

advance-Leaves :
    (p : Pod) (i j : ℕ) (env : Env) (t : Task)
    → (j == i) ≡ false
    → Leaves (p.tasks i) ((advance p j env t).tasks i)
unfolding advance
advance-Leaves p i j env (arrived key ttl) other =
    elim (Option-cases (lookup_with env.shared p.cache key env.now)) [
      | inl e ↦ rw (advance, e) (inl (update-other i j _ p.tasks other))
      | inr (v, e) ↦ rw (advance, e) (inl (update-other i j _ p.tasks other))
    ]
advance-Leaves p i j env (missed key ttl) other = elim (Option-cases (lookup key p.keys)) [
  | inl e ↦ rw (advance, e) (inl (update-other i j _ p.tasks other))
  | inr (n, e) ↦ rw (advance, e) (inl (update-other i j _ p.tasks other))
]
advance-Leaves p i j env (fetching key ttl n) other = elim (Result-cases env.outcome) [
  | inl (v, e) ↦ rw (advance, e) (inl (update-other i j _ p.tasks other))
  | inr (x, e) ↦ rw (advance, e) (inl (update-other i j _ p.tasks other))
]
advance-Leaves p i j env (settled key n r) other = inl (update-other i j _ p.tasks other)
advance-Leaves p i j env (removed key n r) other =
    inr (n, ap (wake n) (update-other i j (reporting key r) p.tasks other))
advance-Leaves p i j env (reporting key (ok v)) other = inl (update-other i j _ p.tasks other)
advance-Leaves p i j env (reporting key (err x)) other = inl (update-other i j _ p.tasks other)
advance-Leaves p i j env (woken key) other = inl (update-other i j _ p.tasks other)
advance-Leaves p i j env (waiting key n) other = inl refl
advance-Leaves p i j env idle other = inl refl
advance-Leaves p i j env (finished r) other = inl refl
advance-Leaves p i j env dropped other = inl refl

-- A request takes no slot that is used.
arrive-used :
    (p : Pod) (i j ttl : ℕ) (key : Text) (t : Task)
    → p.tasks j ≡ t
    → p.tasks i ≢ idle
    → (arrive p j key ttl t).tasks i ≡ p.tasks i
unfolding arrive
arrive-used p i j ttl key idle here used = elim (Bool-cases (j == i)) [
  | inl same ↦ absurd (used (sym (ap p.tasks ((==_iff j i).0 same)) ∙ here))
  | inr other ↦ update-other i j _ p.tasks other
]
arrive-used p i j ttl key _ here used = refl

-- Where a task may be after an event that is one of its turns, or is not.
abbrev Goes : Task → ℕ → Task → Type 0
Goes (waiting key n) own t' = (t' ≡ waiting key n) ⊎ (t' ≡ woken key)
Goes (woken key) own t' = ((own ≡ 0) × (t' ≡ woken key)) ⊎ ((r : Fetched) × (t' ≡ finished r))
Goes (finished r) own t' = t' ≡ finished r
Goes _ own t' = Unit

stays-Goes : (t : Task) → Goes t 0 t
stays-Goes (waiting key n) = inl refl
stays-Goes (woken key) = inl (refl, refl)
stays-Goes (finished r) = refl
stays-Goes _ = tt

wakes-Goes : (n : ℕ) (t : Task) → Goes t 0 (wake n t)
unfolding wake
wakes-Goes n (waiting key m) = elim (Bool-cases (n == m)) [
  | inl same ↦ rw (wake, same) (inr refl)
  | inr other ↦ rw (wake, other) (inl refl)
]
wakes-Goes n (woken key) = inl (refl, refl)
wakes-Goes n (finished r) = refl
wakes-Goes n _ = tt

Leaves-Goes : (t t' : Task) → Leaves t t' → Goes t 0 t'
Leaves-Goes t t' (inl e) = subst (Goes t 0) (sym e) (stays-Goes t)
Leaves-Goes t t' (inr (n, e)) = subst (Goes t 0) (sym e) (wakes-Goes n t)

-- Its own turn.
advance-Goes :
    (p : Pod) (i : ℕ) (env : Env) (t : Task)
    → p.tasks i ≡ t
    → Goes t 1 ((advance p i env t).tasks i)
unfolding advance
advance-Goes p i env (waiting key n) here = inl here
advance-Goes p i env (woken key) here = inr (_, at_self i _ p.tasks)
advance-Goes p i env (finished r) here = here
advance-Goes p i env _ here = tt

used-Goes : (t t' : Task) (own : ℕ) → (t ≢ idle → t' ≡ t) → own ≡ 0 → Goes t own t'
used-Goes (waiting key n) t' own same e = inl (same (λ h. cc))
used-Goes (woken key) t' own same e = inl (e, same (λ h. cc))
used-Goes (finished r) t' own same e = same (λ h. cc)
used-Goes _ t' own same e = tt

step-Goes :
    (p : Pod) (i : ℕ) (e : Event) → IsKept e → Goes (p.tasks i) (turn i e) ((step p e).tasks i)
unfolding step
step-Goes p i (request j key ttl) kept =
    used-Goes (p.tasks i) _ 0 (arrive-used p i j ttl key (p.tasks j) refl) refl
step-Goes p i (run j env) kept = elim (Bool-cases (j == i)) [
  | inl same ↦
      let e : i ≡ j = sym ((==_iff j i).0 same) in
      subst
        (λ (k : ℕ).
          Goes (p.tasks i) (if k == i then 1 else 0) ((advance p k env (p.tasks k)).tasks i))
        e (own_turn p i env)
  | inr other ↦ rw other (Leaves-Goes _ _ (advance-Leaves p i j env (p.tasks j) other))
]
  where
    own_turn :
        (p : Pod) (i : ℕ) (env : Env)
        → Goes (p.tasks i) (if i == i then 1 else 0) ((advance p i env (p.tasks i)).tasks i)
    own_turn p i env = rw ((==_iff i i).1 refl) (advance-Goes p i env (p.tasks i) refl)
step-Goes p i (cancel j) kept = elim kept [ ]

finished-steps :
    (p : Pod) (i : ℕ) (events : List Event) (r : Fetched)
    → All IsKept events
    → p.tasks i ≡ finished r
    → (steps p events).tasks i ≡ finished r
unfolding steps
finished-steps p i [] r kept e = e
finished-steps p i (event ∷ events) r kept e = finished-steps (step p event) i events r kept.1 (
    subst (λ (t : Task). Goes t (turn i event) ((step p event).tasks i)) e
      (step-Goes p i event kept.0))

-- Woken, or with its answer.
abbrev IsReady : Task → Text → Type 0
IsReady t key = (t ≡ woken key) ⊎ ((r : Fetched) × (t ≡ finished r))

IsReady-steps :
    (p : Pod) (i : ℕ) (events : List Event) (key : Text)
    → All IsKept events
    → IsReady (p.tasks i) key
    → IsReady ((steps p events).tasks i) key
      × ((turns i events ≡ 0) ⊎ ((r : Fetched) × ((steps p events).tasks i ≡ finished r)))
unfolding steps turns
IsReady-steps p i [] key kept ready = (ready, inl refl)
IsReady-steps p i (event ∷ events) key kept (inr (r, e)) =
    let done = finished-steps p i (event ∷ events) r kept e in (inr (r, done), inr (r, done))
IsReady-steps p i (event ∷ events) key kept (inl e) =
    elim (subst (λ (t : Task). Goes t (turn i event) ((step p event).tasks i)) e
      (step-Goes p i event kept.0)) [
        | inl (none_used, still) ↦
            let (ready, rest) = IsReady-steps (step p event) i events key kept.1 (inl still) in
            (ready, elim rest [ inl unused ↦ inl (omega arith) | inr done ↦ inr done ])
        | inr (r, e') ↦
            let done = finished-steps (step p event) i events r kept.1 e' in
            (inr (r, done), inr (r, done))
      ]

waiting-steps :
    (p : Pod) (i n : ℕ) (events : List Event) (key : Text)
    → All IsKept events
    → p.tasks i ≡ waiting key n
    → ((steps p events).tasks i ≡ waiting key n) ⊎ IsReady ((steps p events).tasks i) key
unfolding steps
waiting-steps p i n [] key kept e = inl e
waiting-steps p i n (event ∷ events) key kept e =
    elim (subst (λ (t : Task). Goes t (turn i event) ((step p event).tasks i)) e
      (step-Goes p i event kept.0)) [
        | inl still ↦ waiting-steps (step p event) i n events key kept.1 still
        | inr roused ↦ inr (IsReady-steps (step p event) i events key kept.1 (inl roused)).0
      ]

-- While no call is dropped, a call that waits for a notify has its answer, however the events are
-- ordered, once the task that carries the notify has taken three turns and it one of its own behind
-- them.
pub steps-finished :
    (before events later : List Event) (i j n : ℕ) (key : Text)
    → All IsKept before
    → All IsKept events
    → All IsKept later
    → (steps booted before).tasks i ≡ waiting key n
    → carrier ((steps booted before).tasks j) ≡ some n
    → 3 ≤ turns j events
    → 1 ≤ turns i later
    → (r : Fetched) × ((steps (steps (steps booted before) events) later).tasks i ≡ finished r)
steps-finished before events later i j n key kept kept' kept'' waits carries enough one =
    let p = steps booted before in
    let clear = steps-IsClear before events j n kept kept' carries enough in
    elim (waiting-steps p i n events key kept' waits) [
      | inl still ↦ absurd (clear i (ap awaits still))
      | inr ready ↦ elim (IsReady-steps (steps p events) i later key kept'' ready).1 [
        | inl unused ↦ absurd (omega arith)
        | inr done ↦ done
      ]
    ]
