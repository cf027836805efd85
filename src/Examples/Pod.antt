-- ===== src/Examples/Pod.antt =====
-- The cache of a pod and its requests, at concrete inputs.
use traintime_api.Common.{
  ℕ, ◌+◌, ◌*◌, ◌/◌, ◌-◌, ◌≡◌, refl, ◌≢◌, none, some, List, [], ◌∷◌, arith, if◌then◌else◌, ltb, ok,
  err, Text, codes, lookup, insert, remove, retain,
}
use traintime_api.Server.Cache.{second, stale_max_age, get, get_stale, put_at, lookup_with}
use traintime_api.Server.Cache.Laws.{
  get-put_at, get_stale-put_at, put_at-IsValid, get-put_at_ne, get_stale-put_at_ne, IsValid,
}
use traintime_api.Server.Cache.Overflow.{
  Put, puts_locked, puts, get_locked, all_fit, get_locked-puts_locked,
}
use traintime_api.Server.Fetch.{
  fetching, waiting, finished, fresh, Fetched, Env, Event, request, run, cancel, step, steps,
  booted,
}
use traintime_api.Server.Fetch.Invariant.{carrier}
use traintime_api.Server.Fetch.Flight.{steps-single_flight}
use traintime_api.Server.Fetch.Wakeup.{steps-awaited}
use traintime_api.Server.Fetch.Progress.{IsClear, steps-IsClear}
use traintime_api.Server.Fetch.Service.{steps-finished}
use traintime_api.Server.Fetch.Rank.{turns}
use traintime_api.Server.Fetch.Turns.{HasStopped, steps-HasStopped}
use traintime_api.Server.Fetch.Alone.{Course, turns_of, promised, steps-promised}
use traintime_api.Server.Fetch.Origin.{IsFrom, asked, brought}
use traintime_api.Server.Fetch.Provenance.{nothing_asked, steps-IsFrom}
use traintime_api.Server.Fetch.Cancel.{IsOrphan, steps-cancel-IsOrphan}

runs : Unit {0}
unfolding steps lookup lookup_with get insert remove retain put_at
runs = tt

abbrev bern : Text
bern = codes "departures:8507000:50"

abbrev calm : Env
calm = record { now = 5; later = 5; sweep = 6; shared = none; outcome = ok (codes "[]") }

-- Two requests miss the same key; the second one waits.
abbrev two_requests : List Event
two_requests =
    request 0 bern 60 ∷ request 1 bern 60 ∷ run 0 calm ∷ run 1 calm ∷ run 0 calm ∷ run 1 calm ∷ []

leader : (steps booted two_requests).tasks 0 ≡ fetching bern 60 0
unfolding runs
leader = refl

waiter : (steps booted two_requests).tasks 1 ≡ waiting bern 0
unfolding runs
waiter = refl

one_call : (steps booted two_requests).fetches ≡ bern ∷ []
unfolding runs
one_call = refl

steps-single_flight_example : ◌≡◌ {A = ℕ} 0 0
steps-single_flight_example = steps-single_flight two_requests 0 0 60 60 0 0 bern leader leader

steps-awaited_example : (j : ℕ) × (carrier ((steps booted two_requests).tasks j) ≡ some 0)
steps-awaited_example =
    steps-awaited two_requests 1 0 bern (tt, (tt, (tt, (tt, (tt, (tt, tt)))))) waiter

-- The call upstream fails, and a third request finds the key still in flight before it is removed.
abbrev broken : Env
broken = record { now = 5; later = 5; sweep = 6; shared = none; outcome = err (codes "429") }

abbrev late_waiter : List Event
late_waiter =
    run 0 broken
    ∷ request 2 bern 60
    ∷ run 2 calm
    ∷ run 2 calm
    ∷ run 0 calm
    ∷ run 1 calm
    ∷ run 0 calm
    ∷ []

steps-IsClear_example : IsClear (steps (steps booted two_requests) late_waiter) 0
steps-IsClear_example =
    steps-IsClear two_requests late_waiter 0 0 (tt, (tt, (tt, (tt, (tt, (tt, tt))))))
      (tt, (tt, (tt, (tt, (tt, (tt, (tt, tt))))))) (unfold runs in refl)
      (unfold turns in omega arith)

abbrev one_turn : List Event
one_turn = run 1 calm ∷ []

steps-finished_example :
    (r : Fetched) × ((steps (steps (steps booted two_requests) late_waiter) one_turn).tasks 1
      ≡ finished r)
steps-finished_example =
    steps-finished two_requests late_waiter one_turn 1 0 0 bern
      (tt, (tt, (tt, (tt, (tt, (tt, tt)))))) (tt, (tt, (tt, (tt, (tt, (tt, (tt, tt))))))) (tt, tt)
      waiter (unfold runs in refl) (unfold turns in omega arith) (unfold turns in omega arith)

steps-cancel-IsOrphan_example :
    IsOrphan (steps (step (steps booted two_requests) (cancel 0)) (run 1 calm ∷ [])) bern 0
    × ((steps (step (steps booted two_requests) (cancel 0)) (run 1 calm ∷ [])).tasks 1
        ≢ fetching bern 60 1)
steps-cancel-IsOrphan_example =
    steps-cancel-IsOrphan two_requests (run 1 calm ∷ []) 0 1 60 60 0 1 bern leader

get-put_at_example :
    get (put_at [] bern (codes "v") 60 0 0) bern second
    ≡ (if ltb second (0 + 60 * second) then some (codes "v") else none)
get-put_at_example = get-put_at [] bern (codes "v") 60 0 0 second

get_stale-put_at_example :
    get_stale (put_at [] bern (codes "v") 60 0 0) bern stale_max_age (299 * second) ≡ (
      if ltb stale_max_age (299 * second - 0)
      then none
      else some (codes "v", (299 * second - 0) / second))
get_stale-put_at_example = get_stale-put_at [] bern (codes "v") 60 0 0 (299 * second)

one_entry-IsValid : IsValid (put_at [] bern (codes "v") 60 0 0)
one_entry-IsValid =
    put_at-IsValid [] bern (codes "v") 60 0 0 (record { distinct = tt; bounded = tt }) (omega arith)

get-put_at_ne_example :
    get (put_at (put_at [] bern (codes "v") 60 0 0) (codes "x") (codes "w") 60 3 4) bern 9
    ≡ get (put_at [] bern (codes "v") 60 0 0) bern 9
get-put_at_ne_example =
    get-put_at_ne (put_at [] bern (codes "v") 60 0 0) (codes "x") bern (codes "w") 60 3 4 9
      one_entry-IsValid refl (omega arith)

get_stale-put_at_ne_example :
    get_stale
      (put_at (put_at [] bern (codes "v") 60 0 0) (codes "x") (codes "w") 60 3 4)
      bern
      stale_max_age
      (90 * second)
    ≡ get_stale (put_at [] bern (codes "v") 60 0 0) bern stale_max_age (90 * second)
get_stale-put_at_ne_example =
    get_stale-put_at_ne (put_at [] bern (codes "v") 60 0 0) (codes "x") bern (codes "w") 60 3 4
      (90 * second) one_entry-IsValid.distinct refl (omega arith)

-- Six turns of one call.
abbrev six_turns : List Event
six_turns = run 0 calm ∷ run 0 calm ∷ run 0 calm ∷ run 0 calm ∷ run 0 calm ∷ run 0 calm ∷ []

steps-HasStopped_example : HasStopped ((steps (step booted (request 0 bern 60)) six_turns).tasks 0)
steps-HasStopped_example =
    steps-HasStopped (step booted (request 0 bern 60)) 0 six_turns (unfold runs in tt)
      (unfold turns in omega arith)

-- A first call with its turns to itself.
abbrev alone : Course
alone = record {
  at_cache = calm;
  at_lock = calm;
  at_fetch = calm;
  at_removal = calm;
  at_notify = calm;
  at_end = calm;
}

steps-promised_example :
    ((steps booted (request 0 bern 60 ∷ turns_of 0 alone)).tasks 0
      ≡ finished (promised [] [] bern 60 alone none).answer)
    × ((steps booted (request 0 bern 60 ∷ turns_of 0 alone)).cache
        ≡ (promised [] [] bern 60 alone none).entries)
    × (lookup bern (steps booted (request 0 bern 60 ∷ turns_of 0 alone)).keys ≡ none)
    × ((steps booted (request 0 bern 60 ∷ turns_of 0 alone)).fetches
        ≡ (promised [] [] bern 60 alone none).fetches)
unfolding lookup lookup_with get
steps-promised_example = steps-promised booted 0 bern 60 alone refl refl

one_request : List Event
one_request = request 0 bern 60 ∷ six_turns

answered : (steps booted one_request).tasks 0 ≡ finished (fresh (codes "[]"))
unfolding runs one_request
answered = refl

steps-IsFrom_example :
    (key : Text) × (asked booted nothing_asked one_request 0 ≡ some key)
    × IsFrom (brought booted one_request) key (fresh (codes "[]"))
steps-IsFrom_example = steps-IsFrom one_request 0 (fresh (codes "[]")) answered

-- Two writes; the TTL of the second one is the largest that its variable can hold.
abbrev two_puts : List Put
two_puts =
    record { key = bern; value = codes "v"; ttl_secs = 60; fetched_at = second; now = second }
    ∷ record {
      key = codes "x";
      value = codes "w";
      ttl_secs = 18_446_744_073_709_551_615;
      fetched_at = 2 * second;
      now = 2 * second;
    }
    ∷ []

abbrev last_instant : ℕ
last_instant = 9_223_372_036_854_775_807 * second

get_locked-puts_locked_example :
    get_locked (puts_locked last_instant (some []) two_puts) bern second
    ≡ (if all_fit last_instant two_puts then some (get (puts [] two_puts) bern second) else none)
get_locked-puts_locked_example =
    get_locked-puts_locked last_instant two_puts bern second (omega arith)
