-- ===== src/Examples/Protocol.antt =====
-- The text protocol of Memcached at concrete inputs.
use traintime_api.Server.Memcached.Lines.{crlf}
use traintime_api.Server.Memcached.RoundTrip.{header_of}
use traintime_api.Server.Memcached.Panic.{get_on-eq-panic_iff}
use traintime_api.Common.{
  ◌+◌, ◌^◌, ◌≤◌, ◌<◌, ◌↔◌, ◌++◌, err, ◌≡◌, refl, true, none, some, [], arith, ok, Text, codes,
  strip_prefix, trim, trim_end_matches,
}
use traintime_api.Common.Utf8.{as_bytes}
use traintime_api.Common.Utf8.Decode.{from_utf8}
use traintime_api.Server.Memcached.{valid_key, addr_of}
use traintime_api.Server.Memcached.Protocol.{
  panic, set_on, get_on, get_command, set_message, split_line,
}
use traintime_api.Server.Memcached.Fake.{Round, serve}
use traintime_api.Server.Memcached.Sharing.{replying, get_on-set_on}

abbrev key : Text
key = codes "k"

-- A value with a line end inside.
abbrev value : Text
value = codes "{\"a\":1}\r\nmore"

key_run : valid_key key ≡ true
unfolding valid_key as_bytes
key_run = refl

-- A miss, and a header whose count no buffer can hold.
missing :
    (get_on key (record { input = codes "END\r\n"; sent = []; writable = true })).out ≡ ok none
unfolding get_on split_line from_utf8 as_bytes trim_end_matches
missing = refl

address : addr_of (codes " memcached://cache:11211/ ") ≡ codes "cache:11211"
unfolding addr_of trim strip_prefix trim_end_matches
address = refl

get_on-set_on_example :
    (r : Round) × (r' : Round) × (serve [] (set_message key value 60) ≡ some r)
    × ((set_on key value 60 (replying r.reply)).out ≡ ok true)
    × (serve r.store (as_bytes (get_command key)) ≡ some r')
    × ((get_on key (replying r'.reply)).out ≡ ok (some value))
get_on-set_on_example =
    get_on-set_on [] key value 60 key_run (omega arith) (refl, tt) (omega arith) (omega arith)
      (unfold as_bytes in omega arith)

-- The smallest count that panics.
get_on-eq-panic_iff_example :
    ((get_on key (record {
      input = as_bytes (header_of key 9_223_372_036_854_775_806) ++ (crlf ++ []);
      sent = [];
      writable = true;
    })).out
      ≡ err panic)
    ↔ ((2 ^ 63 ≤ 9_223_372_036_854_775_806 + 2) × (9_223_372_036_854_775_806 + 2 < 2 ^ 64))
get_on-eq-panic_iff_example =
    get_on-eq-panic_iff key 9_223_372_036_854_775_806 [] [] key_run (omega arith) (omega arith)
