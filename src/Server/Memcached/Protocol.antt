-- ===== src/Server/Memcached/Protocol.antt =====
-- server/src/memcached.rs: `get_on` and `set_on`, the text protocol over one connection. A
-- connection is what the peer sends until it closes and what was written to it; the timeout round
-- a command is the caller's.
use traintime_api.Common.{
  ℕ, ◌+◌, ◌%◌, ◌^◌, Bool, true, ◌||◌, Option, none, some, [], ◌∷◌, ◌++◌, if◌then◌else◌, ltb, ◌==◌,
  length, is_empty, get_elem?, take, drop, Result, ok, err, Text, codes, text_eq, split,
  strip_prefix, trim_end_matches,
}
use traintime_api.Common.Decimal.{print, parse_below}
use traintime_api.Common.Utf8.{Bytes, as_bytes}
use traintime_api.Common.Utf8.Decode.{from_utf8}

pub record Conn : Type 0 where
  pub input : Bytes
  pub sent : Bytes
  pub writable : Bool

-- `std::io::Error` with its text, and a panic.
pub data Fault : Type 0 where
  io : Text → Fault
  panic : Fault

-- A step on a connection.
pub record Done (A : Type 0) : Type 0 where
  pub out : Result A Fault
  pub conn : Conn

abbrev pub Io : Type 0 → Type 0
Io A = Conn → Done A

abbrev pub pure : {A : Type 0} → A → Io A
pure a conn = record { out = ok a; conn = conn }

abbrev pub fail : {A : Type 0} → Fault → Io A
fail e conn = record { out = err e; conn = conn }

abbrev pub resume : {A B : Type 0} → Result A Fault → (A → Io B) → Io B
resume (ok a) k = k a
resume (err e) k = fail e

-- `?`.
abbrev pub bind : {A B : Type 0} → Io A → (A → Io B) → Io B
bind m k conn = let d = m conn in resume d.out k d.conn

unfoldable pub protocol_error : Text → Fault
protocol_error what = io (codes "memcached protocol: " ++ what)

-- `write_all` on the socket.
unfoldable pub write_all : Bytes → Io Bool
write_all bytes conn =
    if conn.writable
    then record { out = ok true; conn = record conn { sent = conn.sent ++ bytes } }
    else record { out = err (io (codes "broken pipe")); conn = conn }

-- The bytes up to and with the first line feed, or all of them; and those behind.
unfoldable pub split_line : Bytes → Bytes × Bytes
split_line [] = ([], [])
split_line (b ∷ bs) =
    let (line, rest) = split_line bs in if b == b'\n' then (b ∷ [], bs) else (b ∷ line, rest)

abbrev pub is_line_end : ℕ → Bool
is_line_end c = c == b'\r' || c == b'\n'

-- `read_line`: the text of a line without its end.
unfoldable pub read_line : Io Text
unfolding split_line protocol_error trim_end_matches
read_line conn =
    let (line, rest) = split_line conn.input in
    let conn' = record conn { input = rest } in
    if is_empty line
    then fail (protocol_error (codes "connection closed")) conn'
    else elim (from_utf8 line) [
      | none ↦ fail (io (codes "stream did not contain valid UTF-8")) conn'
      | some text ↦ pure (trim_end_matches is_line_end text) conn'
    ]

-- `read_exact` into a buffer of `n` bytes.
unfoldable pub read_exact : ℕ → Io Bytes
read_exact n conn =
    if ltb (length conn.input) n
    then fail (io (codes "failed to fill whole buffer")) (record conn { input = [] })
    else pure (take n conn.input) (record conn { input = drop n conn.input })

-- The byte count of a header `VALUE <key> <flags> <bytes>`.
unfoldable pub value_len : Text → Option ℕ
unfolding strip_prefix split parse_below
value_len header = elim (strip_prefix (codes "VALUE ") header) [
  | none ↦ none
  | some rest ↦ elim (get_elem? (split b' ' rest) 2) [
    | none ↦ none
    | some n ↦ parse_below (2 ^ 64) n
  ]
]

-- The buffer has `len + 2` bytes, which wraps in a release build; a `Vec` of more than
-- `isize::MAX` bytes panics.
unfoldable pub read_value : ℕ → Io Text
unfolding read_exact read_line protocol_error
read_value len conn =
    let size = (len + 2) % 2 ^ 64 in
    if ltb (2 ^ 63) (size + 1)
    then fail panic conn
    else bind (read_exact size)
        (λ buffer. bind read_line (λ line.
          if text_eq line (codes "END")
          then elim (from_utf8 (take len buffer)) [
            | some value ↦ pure value
            | none ↦ fail (protocol_error (codes "value is not UTF-8"))
          ]
          else fail (protocol_error (codes "missing END"))))
        conn

-- What the header of a reply leads to.
unfoldable pub read_reply : Text → Io (Option Text)
unfolding value_len read_value protocol_error
read_reply header = if text_eq header (codes "END") then pure none else elim (value_len header) [
  | none ↦ fail (protocol_error header)
  | some len ↦ bind (read_value len) (λ value. pure (some value))
]

abbrev pub get_command : Text → Text
get_command key = codes "get " ++ (key ++ codes "\r\n")

unfoldable pub get_on : Text → Io (Option Text)
unfolding write_all read_line read_reply
get_on key = bind (write_all (as_bytes (get_command key))) (λ _. bind read_line read_reply)

-- The head of a write: `set <key> 0 <ttl> <bytes>`.
abbrev pub set_command : Text → Text → ℕ → Text
set_command key value ttl_secs =
    codes "set "
    ++ (key
        ++ (codes " 0 "
            ++ (print ttl_secs
                ++ (codes " " ++ (print (length (as_bytes value)) ++ codes "\r\n")))))

unfoldable pub set_message : Text → Text → ℕ → Bytes
set_message key value ttl_secs =
    as_bytes (set_command key value ttl_secs) ++ (as_bytes value ++ b'\r' ∷ b'\n' ∷ [])

unfoldable pub read_stored : Text → Io Bool
unfolding protocol_error
read_stored line = if text_eq line (codes "STORED") then pure true else fail (protocol_error line)

unfoldable pub set_on : Text → Text → ℕ → Io Bool
unfolding write_all read_line set_message read_stored
set_on key value ttl_secs =
    bind (write_all (set_message key value ttl_secs)) (λ _. bind read_line read_stored)
