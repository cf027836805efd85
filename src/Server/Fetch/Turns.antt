-- ===== src/Server/Fetch/Turns.antt =====
-- How many turns a call of `cached` (server/src/fetch.rs) takes until it has its answer or waits for
-- another call's.
use traintime_api.Common.{ℕ, ◌-◌, ◌≤◌, ◌≡◌, refl, inl, inr, List, [], ◌∷◌, arith, Bool-cases, ◌==◌}
use traintime_api.Server.Fetch.{
  Task, idle, arrived, missed, waiting, woken, fetching, settled, removed, reporting, finished,
  dropped, Pod, Event, request, run, cancel, step, steps,
}
use traintime_api.Server.Fetch.Rank.{rank, IsBegun, turn, turns, Sinks, advance-Sinks, arrive-Sinks}

step-Sinks :
    (p : Pod) (i : ℕ) (e : Event)
    → IsBegun (p.tasks i)
    → Sinks (p.tasks i) (turn i e) ((step p e).tasks i)
unfolding step rank
step-Sinks p i (request j key ttl) h = arrive-Sinks p i j key ttl (p.tasks j) refl h
step-Sinks p i (run j env) h = advance-Sinks p i j env (p.tasks j) refl h
step-Sinks p i (cancel j) h = elim (Bool-cases (j == i)) [
  | inl own ↦ rw own (tt, omega arith)
  | inr other ↦ rw other (h, omega arith)
]

pub rank-steps :
    (p : Pod) (i : ℕ) (events : List Event)
    → IsBegun (p.tasks i)
    → IsBegun ((steps p events).tasks i)
      × (rank ((steps p events).tasks i) ≤ rank (p.tasks i) - turns i events)
unfolding steps turns
rank-steps p i [] h = (h, omega arith)
rank-steps p i (e ∷ events) h =
    let (begun, less) = step-Sinks p i e h in
    let (begun', less') = rank-steps (step p e) i events begun in (begun', omega arith)

-- A call with nothing left to do of its own: it has its answer, was dropped, waits for another
-- call's notify, or reads the cache at its next turn.
abbrev pub HasStopped : Task → Type 0
HasStopped (finished r) = Unit
HasStopped dropped = Unit
HasStopped (waiting key n) = Unit
HasStopped (woken key) = Unit
HasStopped t = ⊥

HasStopped-of_rank : (t : Task) → IsBegun t → rank t ≡ 0 → HasStopped t
unfolding rank
HasStopped-of_rank (arrived key ttl) h e = absurd (omega arith)
HasStopped-of_rank (missed key ttl) h e = absurd (omega arith)
HasStopped-of_rank (fetching key ttl n) h e = absurd (omega arith)
HasStopped-of_rank (settled key n r) h e = absurd (omega arith)
HasStopped-of_rank (removed key n r) h e = absurd (omega arith)
HasStopped-of_rank (reporting key r) h e = absurd (omega arith)
HasStopped-of_rank (waiting key n) h e = tt
HasStopped-of_rank (woken key) h e = tt
HasStopped-of_rank (finished r) h e = tt
HasStopped-of_rank dropped h e = tt
HasStopped-of_rank idle h e = elim h [ ]

rank-le : (t : Task) → rank t ≤ 6
unfolding rank
rank-le t = ground arith

-- However the events of a pod are ordered, a call that has begun and takes six turns of its own has
-- its answer, was dropped, waits for another call's notify, or was woken by it.
pub steps-HasStopped :
    (p : Pod) (i : ℕ) (events : List Event)
    → IsBegun (p.tasks i)
    → 6 ≤ turns i events
    → HasStopped ((steps p events).tasks i)
steps-HasStopped p i events h enough =
    let (begun, low) = rank-steps p i events h in
    HasStopped-of_rank ((steps p events).tasks i) begun (omega (arith, rank-le (p.tasks i)))
