-- ===== src/Server/Memcached/Fake.antt =====
-- server/src/memcached.rs, `fake::start`: the Memcached that the tests of the client talk to, a round
-- of its loop over one connection, and what it makes of the client's commands.
use traintime_api.Common.{
  ℕ, ◌+◌, ◌^◌, Option, none, some, List, [], ◌∷◌, ◌++◌, if◌then◌else◌, ltb, length, take, drop,
  is_empty, Text, codes, text_eq, is_whitespace, split, trim_end_matches, lookup, insert,
}
use traintime_api.Common.Decimal.{parse_below}
use traintime_api.Common.Utf8.{Bytes, as_bytes}
use traintime_api.Common.Utf8.Decode.{from_utf8}
use traintime_api.Server.Memcached.Protocol.{split_line}
use traintime_api.Server.Memcached.RoundTrip.{value_header}

-- The store of the fake: for each key the value and its TTL.
abbrev pub Store : Type 0
Store = List (Text × (Text × ℕ))

-- What a round leaves: the reply, the store, and the input that is not read yet.
pub record Round : Type 0 where
  pub reply : Bytes
  pub store : Store
  pub input : Bytes

abbrev error_of : Store → Bytes → Option Round
error_of store input =
    some (record { reply = as_bytes (codes "ERROR\r\n"); store = store; input = input })

-- `get`.
unfoldable pub reply_of : Text → Option (Text × ℕ) → Bytes
reply_of key none = as_bytes (codes "END\r\n")
reply_of key (some (v, ttl)) =
    as_bytes (value_header key v ++ (codes "\r\n" ++ (v ++ codes "\r\nEND\r\n")))

-- `set`: the block is read, and a block that is cut short, one that is no text, or a number that is
-- none ends the connection.
unfoldable pub take_block : Store → Text → Text → Text → Bytes → Option Round
take_block store key ttl len input = elim (parse_below (2 ^ 64) len) [
  | none ↦ none
  | some n ↦ if ltb (length input) (n + 2) then none else elim (from_utf8 (take n input)) [
    | none ↦ none
    | some value ↦ elim (parse_below (2 ^ 64) ttl) [
      | none ↦ none
      | some secs ↦ some (record {
        reply = as_bytes (codes "STORED\r\n");
        store = insert key (value, secs) store;
        input = drop (n + 2) input;
      })
    ]
  ]
]

-- The `match` on the words of a line.
unfoldable pub command : Store → Bytes → List Text → Option Round
unfolding reply_of take_block
command store input (name ∷ key ∷ []) =
    if text_eq name (codes "get")
    then some (record { reply = reply_of key (lookup key store); store = store; input = input })
    else error_of store input
command store input (name ∷ key ∷ flags ∷ ttl ∷ len ∷ []) =
    if text_eq name (codes "set") then take_block store key ttl len input else error_of store input
command store input [] = error_of store input
command store input (a ∷ []) = error_of store input
command store input (a ∷ b ∷ c ∷ []) = error_of store input
command store input (a ∷ b ∷ c ∷ d ∷ []) = error_of store input
command store input (a ∷ b ∷ c ∷ d ∷ e ∷ f ∷ more) = error_of store input

-- A round; `none` where the connection ends.
unfoldable pub serve : Store → Bytes → Option Round
unfolding split_line command
serve store input =
    let (line, rest) = split_line input in
    if is_empty line then none else elim (from_utf8 line) [
      | none ↦ none
      | some text ↦ command store rest (split b' ' (trim_end_matches is_whitespace text))
    ]
