-- ===== src/Server/Fetch/Progress.antt =====
-- The task that carries a notify and those that wait for it, over any further events of a pod
-- (server/src/fetch.rs).
use traintime_api.Common.{
  ℕ, ◌≤◌, ◌<◌, ◌≡◌, refl, sym, ap, ◌∙◌, ◌≢◌, ◌⊎◌, inl, inr, none, some, List, [], ◌∷◌, All, arith,
  Bool-cases, ◌==◌, ==_iff, Option-cases, Result-cases, ok, err, Text, lookup,
}
use mathlib.Core.Path.{subst}
use traintime_api.Server.Cache.{lookup_with}
use traintime_api.Server.Fetch.{
  Task, idle, arrived, missed, waiting, woken, fetching, settled, removed, reporting, finished,
  dropped, Pod, Env, update, advance, arrive, Event, request, run, cancel, step, steps, booted,
}
use traintime_api.Server.Fetch.Flight.{steps-IsSafe, booted-IsSafe}
use traintime_api.Server.Fetch.Invariant.{carrier, awaits, carrier-wake}
use traintime_api.Server.Fetch.Rank.{rank, IsBegun, turns}
use traintime_api.Server.Fetch.Turns.{rank-steps}
use traintime_api.Server.Fetch.Wakeup.{IsKept, steps-IsLive, booted-IsLive}

-- Nobody waits for the notify.
abbrev pub IsClear : Pod → ℕ → Type 0
IsClear p n = (i : ℕ) → awaits (p.tasks i) ≢ some n

pub at_self : (j : ℕ) (t : Task) (tasks : ℕ → Task) → update j t tasks j ≡ t
at_self j t tasks = ground arith

-- Who carries a notify that was already used carried it before, and no notify is used again.
record Inherits (p q : Pod) : Type 0 where
  grown : p.next ≤ q.next
  carried : (k n : ℕ) → carrier (q.tasks k) ≡ some n → n < p.next → carrier (p.tasks k) ≡ some n

update-carried :
    (i : ℕ) (t : Task) (tasks : ℕ → Task)
    → (carrier t ≡ none) ⊎ (carrier t ≡ carrier (tasks i))
    → (k n : ℕ) → carrier (update i t tasks k) ≡ some n
    → carrier (tasks k) ≡ some n
update-carried i t tasks kept k n c = elim (Bool-cases (i == k)) [
  | inl same ↦
      let e : i ≡ k = (==_iff i k).0 same in
      let c' : carrier t ≡ some n = rw same at c in
      elim kept [
        | inl silent ↦ absurd (cc)
        | inr old ↦ subst (λ (m : ℕ). carrier (tasks m) ≡ some n) e (sym old ∙ c')
      ]
  | inr other ↦ rw other at c
]

moved-Inherits :
    (p q : Pod) (i : ℕ) (t : Task)
    → q.next ≡ p.next
    → q.tasks ≡ update i t p.tasks
    → (carrier t ≡ none) ⊎ (carrier t ≡ carrier (p.tasks i))
    → Inherits p q
moved-Inherits p q i t same moved kept = record {
  grown = omega arith;
  carried = λ k n c h.
      update-carried i t p.tasks kept k n
        (subst (λ (f : ℕ → Task). carrier (f k) ≡ some n) moved c);
}

stays-Inherits : (p : Pod) → Inherits p p
stays-Inherits p = record { grown = omega arith; carried = λ k n c h. c }

advance-Inherits :
    (p : Pod) (i : ℕ) (env : Env) (t : Task) → p.tasks i ≡ t → Inherits p (advance p i env t)
unfolding advance
advance-Inherits p i env (arrived key ttl) e =
    elim (Option-cases (lookup_with env.shared p.cache key env.now)) [
      | inl miss ↦ rw (miss, advance) (moved-Inherits p _ i (missed key ttl) refl refl (inl refl))
      | inr (v, hit) ↦ rw (hit, advance) (moved-Inherits p _ i _ refl refl (inl refl))
    ]
advance-Inherits p i env (missed key ttl) e = elim (Option-cases (lookup key p.keys)) [
  | inl new ↦ rw (new, advance) (record { grown = omega arith; carried = λ k n c h. ground arith })
  | inr (n, found) ↦ rw (found, advance) (moved-Inherits p _ i (waiting key n) refl refl (inl refl))
]
advance-Inherits p i env (woken key) e = moved-Inherits p _ i _ refl refl (inl refl)
advance-Inherits p i env (fetching key ttl n) e = elim (Result-cases env.outcome) [
  | inl (v, out) ↦
      rw (out, advance)
        (moved-Inherits p _ i (settled key n (ok v)) refl refl (inr (sym (ap carrier e))))
  | inr (x, out) ↦
      rw (out, advance)
        (moved-Inherits p _ i (settled key n (err x)) refl refl (inr (sym (ap carrier e))))
]
advance-Inherits p i env (settled key n r) e =
    moved-Inherits p _ i (removed key n r) refl refl (inr (sym (ap carrier e)))
advance-Inherits p i env (removed key n r) e = record {
  grown = omega arith;
  carried = λ k m c h.
      update-carried i (reporting key r) p.tasks (inl refl) k m
        (sym (carrier-wake n (update i (reporting key r) p.tasks k)) ∙ c);
}
advance-Inherits p i env (reporting key (ok v)) e = moved-Inherits p _ i _ refl refl (inl refl)
advance-Inherits p i env (reporting key (err x)) e = moved-Inherits p _ i _ refl refl (inl refl)
advance-Inherits p i env idle e = stays-Inherits p
advance-Inherits p i env (waiting key n) e = stays-Inherits p
advance-Inherits p i env (finished r) e = stays-Inherits p
advance-Inherits p i env dropped e = stays-Inherits p

arrive-Inherits : (p : Pod) (i ttl : ℕ) (key : Text) (t : Task) → Inherits p (arrive p i key ttl t)
unfolding arrive
arrive-Inherits p i ttl key idle = moved-Inherits p _ i (arrived key ttl) refl refl (inl refl)
arrive-Inherits p i ttl key _ = stays-Inherits p

step-Inherits : (p : Pod) (e : Event) → Inherits p (step p e)
unfolding step
step-Inherits p (request i key ttl) = arrive-Inherits p i ttl key (p.tasks i)
step-Inherits p (run i env) = advance-Inherits p i env (p.tasks i) refl
step-Inherits p (cancel i) = moved-Inherits p _ i dropped refl refl (inl refl)

steps-Inherits : (p : Pod) (events : List Event) → Inherits p (steps p events)
unfolding steps
steps-Inherits p [] = stays-Inherits p
steps-Inherits p (e ∷ events) =
    let first = step-Inherits p e in
    let rest = steps-Inherits (step p e) events in
    record {
      grown = omega (arith, first.grown, rest.grown);
      carried = λ k n c h. first.carried k n (rest.carried k n c (omega (arith, first.grown))) h;
    }

-- A task that carries a notify has at least two turns to take, and at most four.
carrier-rank : (t : Task) (n : ℕ) → carrier t ≡ some n → IsBegun t × (2 ≤ rank t) × (rank t ≤ 4)
unfolding rank
carrier-rank (fetching key ttl m) n c = (tt, omega arith, omega arith)
carrier-rank (settled key m r) n c = (tt, omega arith, omega arith)
carrier-rank (removed key m r) n c = (tt, omega arith, omega arith)
carrier-rank _ n c = absurd (cc)

-- While no call is dropped, and however the events are ordered, a task that carries a notify leaves
-- nobody waiting for it once it has taken three turns of its own, whatever other tasks did in between
-- and whoever began to wait meanwhile.
pub steps-IsClear :
    (before events : List Event) (j n : ℕ)
    → All IsKept before
    → All IsKept events
    → carrier ((steps booted before).tasks j) ≡ some n
    → 3 ≤ turns j events
    → IsClear (steps (steps booted before) events) n
steps-IsClear before events j n kept kept' c enough i waits =
    let p = steps booted before in
    let safe = steps-IsSafe booted before booted-IsSafe in
    let live = steps-IsLive p events kept' (steps-IsLive booted before kept booted-IsLive) in
    let (k, c') = live.awaited i n waits in
    let old = (steps-Inherits p events).carried k n c' (safe.used j n c) in
    let same : k ≡ j = safe.single k j n old c in
    let last = subst (λ (m : ℕ). carrier ((steps p events).tasks m) ≡ some n) same c' in
    let (begun, two, four) = carrier-rank (p.tasks j) n c in
    let (begun', low) = rank-steps p j events begun in
    let (begun'', two', four') = carrier-rank ((steps p events).tasks j) n last in omega arith
