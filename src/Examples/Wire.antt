-- ===== src/Examples/Wire.antt =====
-- Calls of one client that share its connections, at a concrete run.
use traintime_api.Common.{
  ◌*◌, ◌≡◌, refl, true, some, List, [], ◌∷◌, arith, All, ok, Text, codes, lookup, insert, split,
  trim_end_matches,
}
use traintime_api.Common.Utf8.{as_bytes}
use traintime_api.Common.Utf8.Decode.{from_utf8}
use traintime_api.Common.Decimal.{print, parse_below}
use traintime_api.Server.Cache.{second}
use traintime_api.Server.Memcached.{valid_key, begin, finish}
use traintime_api.Server.Memcached.Protocol.{set_message, set_on, get_on}
use traintime_api.Server.Memcached.Fake.{serve}
use traintime_api.Server.Memcached.Exchange.{IsKey}
use traintime_api.Server.Memcached.Wire.{Act, starts, gets, sets, breaks, act, acts, blank}
use traintime_api.Server.Memcached.Wire.Reads.{IsRight, acts-IsRight}

abbrev key : Text
key = codes "k"

abbrev value : Text
value = codes "[]"

-- One call fails with a part of a reply unread; another one sets, and behind the skip window a third
-- one reads over the connection that was given back.
abbrev calls : List Act
calls =
    starts 0 1
    ∷ starts 1 2
    ∷ breaks 0 3 (codes "VALUE x")
    ∷ sets 1 4 key value 60
    ∷ starts 2 (40 * second)
    ∷ gets 2 (41 * second) key
    ∷ []

key_run : valid_key key ≡ true
unfolding valid_key as_bytes
key_run = refl

key_plain : IsKey key
key_plain = (omega arith, (refl, tt))

acts-IsRight_example : All IsRight (acts blank calls).reads
acts-IsRight_example = acts-IsRight calls (
  tt,
  (
    tt,
    (
      tt,
      (
        (key_run, key_plain, (omega arith, unfold as_bytes in omega arith), omega arith),
        (tt, ((key_run, key_plain), tt)),
      ),
    ),
  ),
)

calls_run : (acts blank calls).reads ≡ (ok (some value), some value) ∷ []
unfolding acts act begin serve set_message as_bytes from_utf8 print split trim_end_matches
    parse_below finish set_on get_on lookup insert
calls_run = refl
