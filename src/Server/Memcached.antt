-- ===== src/Server/Memcached.antt =====
-- server/src/memcached.rs: the guards of the client, its skip window and its pool. A call takes two
-- steps, at whose ends other calls may run: `begin` up to the command, `finish` behind it. The
-- clock's readings are nanoseconds; a connection is known by a number.
pub mod Protocol
pub mod Lines
pub mod RoundTrip
pub mod Frames
pub mod Fake
pub mod Served
pub mod Sharing
pub mod Panic
pub mod Calls
pub mod Exchange
pub mod Refinement
pub mod Pool
pub mod Wire
use traintime_api.Common.{
  ℕ, ◌+◌, ◌*◌, ◌≤◌, ◌<◌, ◌≡◌, ◌↔◌, Bool, true, false, Option, none, some, List, [], ◌∷◌, arith, not,
  ◌&&◌, ◌||◌, if◌then◌else◌, ltb, leb, ◌==◌, any, length, is_empty, Result, ok, err, Text, codes,
  zero, suc, trim, trim_end_matches, strip_prefix,
}
use traintime_api.Common.Utf8.{as_bytes}
use traintime_api.Server.Cache.{second}

abbrev pub skip_for : ℕ
skip_for = 30 * second

abbrev pool_size : ℕ
pool_size = 8

abbrev max_key_len : ℕ
max_key_len = 250

-- The idle connections, the one used last first.
pub record Client : Type 0 where
  pub idle : List ℕ
  pub skip_until : Option ℕ

abbrev pub is_reserved : ℕ → Bool
is_reserved b = leb b b' ' || b == 127

unfoldable pub valid_key : Text → Bool
valid_key key =
    not (is_empty key)
    && (leb (length (as_bytes key)) max_key_len && not (any is_reserved (as_bytes key)))

-- Whether `set` talks to the server.
unfoldable pub is_written : Text → ℕ → Bool
is_written key ttl_secs = not (not (valid_key key) || ttl_secs == 0)

-- Whether the window is open; one that is over is cleared.
unfoldable pub skipping : Client → ℕ → Bool × Client
skipping c now = elim c.skip_until [
  | none ↦ (false, c)
  | some until ↦ if ltb now until then (true, c) else (false, record c { skip_until = none })
]

unfoldable pub mark_failed : Client → ℕ → Client
mark_failed c now = record c { skip_until = some (now + skip_for) }

-- What a call is about to use: a pooled connection, or one that it opens.
pub data Start : Type 0 where
  skipped : Start
  pooled : ℕ → Start
  connects : Start

unfoldable pub begin : Client → ℕ → Start × Client
unfolding skipping
begin c now =
    let (skip, c') = skipping c now in
    if skip then (skipped, c') else elim c'.idle [
      | [] ↦ (connects, c')
      | conn ∷ rest ↦ (pooled conn, record c' { idle = rest })
    ]

-- The outcome of the command is an error if it fails or if the time is up.
unfoldable pub finish : {T : Type 0} → Client → ℕ → ℕ → Result T Text → Option T × Client
unfolding mark_failed
finish c now conn (ok v) =
    (some v, (if ltb (length c.idle) pool_size then record c { idle = conn ∷ c.idle } else c))
finish c now conn (err e) = (none, mark_failed c now)

-- `get` and `set`: a key that is not valid, and a write without a life, start no call.
unfoldable pub begin_get : Client → Text → ℕ → Start × Client
unfolding begin
begin_get c key now = if valid_key key then begin c now else (skipped, c)

unfoldable pub begin_set : Client → Text → ℕ → ℕ → Start × Client
unfolding begin is_written
begin_set c key ttl_secs now = if is_written key ttl_secs then begin c now else (skipped, c)

-- `trim_start_matches` with a text that is not empty; the fuel is the length of the text.
trim_start_text : ℕ → Text → Text → Text
unfolding strip_prefix
trim_start_text zero p s = s
trim_start_text (suc fuel) p s = elim (strip_prefix p s) [
  | none ↦ s
  | some rest ↦ trim_start_text fuel p rest
]

-- `Memcached::new`: the address in a URL.
unfoldable pub addr_of : Text → Text
unfolding trim trim_start_text trim_end_matches
addr_of url =
    let bare = trim url in
    trim_end_matches (λ c. c == b'/') (trim_start_text (length bare) (codes "memcached://") bare)

-- Behind a call that failed, a call is not started exactly within the next thirty seconds, and
-- exactly from then on the window is cleared.
pub begin-finish :
    (T : Type 0) (c : Client) (failed_at conn now : ℕ) (e : Text)
    → (((begin (finish {T = T} c failed_at conn (err e)).1 now).0 ≡ skipped)
        ↔ (now < failed_at + skip_for))
      × (((begin (finish {T = T} c failed_at conn (err e)).1 now).1.skip_until ≡ none)
          ↔ (failed_at + skip_for ≤ now))
unfolding begin finish
begin-finish T c failed_at conn now e = ground arith

-- No step leaves more than eight connections in the pool, whatever the outcome.
length-idle_le :
    {T : Type 0} (c : Client) (now conn : ℕ) (r : Result T Text)
    → length c.idle ≤ 8
    → (length (begin c now).1.idle ≤ 8) × (length (finish c now conn r).1.idle ≤ 8)
unfolding begin finish
length-idle_le c now conn r h = ground arith
