-- ===== src/Examples/Memcached.antt =====
-- The Memcached client at concrete inputs.
use traintime_api.Common.{
  ◌+◌, ◌*◌, ◌≤◌, ◌<◌, ◌≡◌, ◌↔◌, refl, ◌≢◌, Bool, Option, some, List, true, false, none, [], ◌∷◌,
  arith, ok, err, Text, codes,
}
use traintime_api.Common.Utf8.{as_bytes}
use traintime_api.Server.Cache.{Entries, second, put_at}
use traintime_api.Server.Cache.Shared.{Met, Use, looks, stores, answers, answers-outage}
use traintime_api.Server.Memcached.Pool.{Event, begins, ends, step, steps, opened, IsShared}
use traintime_api.Server.Memcached.Pool.Exclusive.{steps-IsShared}
use traintime_api.Server.Memcached.{
  Client, skipped, begin, begin_get, finish, skip_for, valid_key, begin-finish, skipping,
}

abbrev client : Client
client = record { idle = 1 ∷ 2 ∷ []; skip_until = none }

keys_run :
    (valid_key (codes "departures:8507000:50") ≡ true) × (valid_key (codes "has space") ≡ false)
unfolding valid_key as_bytes
keys_run = (refl, refl)

abbrev failed : Client
failed = (finish {T = Text} client (5 * second) 1 (err (codes "reset"))).1

begin-finish_example :
    (((begin failed (7 * second)).0 ≡ skipped) ↔ (7 * second < 5 * second + skip_for))
    × (((begin failed (7 * second)).1.skip_until ≡ none) ↔ (5 * second + skip_for ≤ 7 * second))
begin-finish_example = begin-finish Text client (5 * second) 1 (7 * second) (codes "reset")

-- Two calls open a connection each; both give it back, and a third call takes the one given last.
abbrev calls : List Event
calls =
    begins 0 1
    ∷ begins 1 2
    ∷ ends 0 3 (ok (codes "v"))
    ∷ ends 1 4 (ok (codes "w"))
    ∷ begins 2 5
    ∷ []

calls_run : ((steps opened calls).held 2 ≡ some 1) × ((steps opened calls).client.idle ≡ 0 ∷ [])
unfolding steps step begin finish skipping
calls_run = (refl, refl)

steps-IsShared_example : IsShared (steps opened calls)
steps-IsShared_example = steps-IsShared calls

-- A pod in front of a shared cache that resets the connection, and what it does within the window.
abbrev stored : Entries
unfolding put_at
stored = put_at [] (codes "k") (codes "v") 60 0 0

abbrev reset : Met (Option Text)
reset = record {
  started = 5 * second;
  ended = 6 * second;
  opened = 3;
  outcome = err (codes "reset");
}

abbrev answering : Met (Option Text)
answering = record {
  started = 7 * second;
  ended = 7 * second;
  opened = 4;
  outcome = ok (some (codes "theirs"));
}

abbrev written : Met Bool
written = record { started = 8 * second; ended = 8 * second; opened = 4; outcome = ok true }

abbrev uses : List Use
uses =
    looks (codes "k") (7 * second) answering
    ∷ stores (codes "l") (codes "w") 60 (8 * second) (8 * second) written
    ∷ []

starts : (begin_get client (codes "k") reset.started).0 ≢ skipped
unfolding begin_get begin valid_key as_bytes
starts h = cc

answers-outage_example :
    answers
      (record { entries = stored; shared = some client })
      (looks (codes "k") (5 * second) reset ∷ uses)
    ≡ answers
        (record { entries = stored; shared = none })
        (looks (codes "k") (5 * second) reset ∷ uses)
answers-outage_example =
    answers-outage stored client (codes "k") (5 * second) reset (codes "reset") uses starts refl
      (omega arith, (omega arith, tt))
