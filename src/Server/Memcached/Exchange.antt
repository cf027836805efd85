-- ===== src/Server/Memcached/Exchange.antt =====
-- One command (server/src/memcached.rs) sent to the fake Memcached of its tests, next to a map.
use mathlib.Core.Path.{fun_ext}
use traintime_api.Common.{
  ℕ, ◌+◌, ◌^◌, ◌≤◌, ◌<◌, ◌≡◌, refl, sym, ap, ◌∙◌, inl, inr, Bool, true, Option, none, some, [],
  append-nil, arith, if◌then◌else◌, Bool-cases, ok, length, All, Text, codes, text_eq, lookup,
  insert, lookup-insert, All-lookup,
}
use traintime_api.Common.Utf8.{as_bytes}
use traintime_api.Common.Utf8.Decode.{IsScalar}
use traintime_api.Server.Memcached.{valid_key}
use traintime_api.Server.Memcached.Protocol.{
  Done, get_command, get_on, set_message, write_all, read_reply,
}
use traintime_api.Server.Memcached.Lines.{read_line-line}
use traintime_api.Server.Memcached.RoundTrip.{valid_key-IsPrintable, get_on-value_reply}
use traintime_api.Server.Memcached.Fake.{Store, reply_of, serve}
use traintime_api.Server.Memcached.Served.{IsVisible, serve-set_message, serve-get_command}
use traintime_api.Server.Memcached.Sharing.{replying, reply_of-value_reply, set_on-stored, spent}
use traintime_api.Server.Memcached.Calls.{told, exchange_get, exchange_set}

-- A map from keys to values.
abbrev pub Ideal : Type 0
Ideal = Text → Option Text

abbrev pub set_at : Text → Text → Ideal → Ideal
set_at key value m k = if text_eq key k then some value else m k

abbrev value_of : Option (Text × ℕ) → Option Text
value_of none = none
value_of (some (v, ttl)) = some v

abbrev pub view : Store → Ideal
view store key = value_of (lookup key store)

pub view-insert :
    (key value : Text) (ttl : ℕ) (store : Store)
    → view (insert key (value, ttl) store) ≡ set_at key value (view store)
view-insert key value ttl store = fun_ext (λ k. elim (Bool-cases (text_eq key k)) [
  | inl same ↦ rw (lookup-insert key k (value, ttl) store, same) refl
  | inr other ↦ rw (lookup-insert key k (value, ttl) store, other) refl
])

-- The value is made of characters, and its buffer has at most `isize::MAX` bytes.
abbrev pub IsStorable : Text → Type 0
IsStorable value = All IsScalar value × (length (as_bytes value) + 3 ≤ 2 ^ 63)

abbrev pub IsKey : Text → Type 0
IsKey key = All IsScalar key × All IsVisible key

abbrev pub HasValue : Text × (Text × ℕ) → Type 0
HasValue entry = IsStorable entry.1.0

abbrev IsHeld : Option (Text × ℕ) → Type 0
IsHeld none = Unit
IsHeld (some v) = IsStorable v.0

get_on-missing :
    (key : Text)
    → get_on key (replying (as_bytes (codes "END\r\n")))
      ≡ record { out = ok none; conn = spent (as_bytes (get_command key)) }
unfolding get_on write_all read_reply as_bytes
get_on-missing key =
    rw
      (
        get_on,
        read_line-line (codes "END") [] (as_bytes (get_command key)) true (omega arith)
            (omega arith),
      )
      refl

pub get_on-reply_of :
    (key : Text) (held : Option (Text × ℕ))
    → valid_key key ≡ true
    → All IsScalar key
    → IsHeld held
    → get_on key (replying (reply_of key held))
      ≡ record { out = ok (value_of held); conn = spent (as_bytes (get_command key)) }
unfolding reply_of
get_on-reply_of key none valid hk h = get_on-missing key
get_on-reply_of key (some (v, ttl)) valid hk (hv, small) =
    ap (λ (t : _). get_on key (replying t)) (reply_of-value_reply key v ttl)
    ∙ get_on-value_reply key v [] [] valid hk hv small

pub lookup-IsHeld : (store : Store) (key : Text) → All HasValue store → IsHeld (lookup key store)
lookup-IsHeld store key h = held (lookup key store) refl
  where
    held : (found : Option (Text × ℕ)) → lookup key store ≡ found → IsHeld found
    held none e = tt
    held (some (v, ttl)) e = All-lookup HasValue key (v, ttl) store h e

-- The round of the server for each command.
pub serve-get :
    (store : Store) (key : Text)
    → valid_key key ≡ true
    → IsKey key
    → serve store (as_bytes (get_command key))
      ≡ some (record { reply = reply_of key (lookup key store); store = store; input = [] })
serve-get store key valid (hk, visible) =
    let (filled, _, printable) = valid_key-IsPrintable key valid in
    serve-get_command store key filled printable hk visible

pub serve-set :
    (store : Store) (key value : Text) (ttl : ℕ)
    → valid_key key ≡ true
    → IsKey key
    → IsStorable value
    → ttl < 2 ^ 64
    → serve store (set_message key value ttl)
      ≡ some (record {
        reply = as_bytes (codes "STORED\r\n");
        store = insert key (value, ttl) store;
        input = [];
      })
serve-set store key value ttl valid (hk, visible) (hv, small) life =
    let (_, _, printable) = valid_key-IsPrintable key valid in
    ap (serve store) (sym (append-nil (set_message key value ttl)))
    ∙ serve-set_message store key value ttl [] printable hk hv life small

pub exchange_get_lem :
    (store : Store) (key : Text)
    → valid_key key ≡ true
    → IsKey key
    → All HasValue store
    → exchange_get store key ≡ (ok (view store key), store)
unfolding exchange_get
exchange_get_lem store key valid k h =
    rw (exchange_get, serve-get store key valid k)
      (ap (λ (d : Done (Option Text)). (told d.out, store))
        (get_on-reply_of key (lookup key store) valid k.0 (lookup-IsHeld store key h)))

pub exchange_set_lem :
    (store : Store) (key value : Text) (ttl : ℕ)
    → valid_key key ≡ true
    → IsKey key
    → IsStorable value
    → ttl < 2 ^ 64
    → exchange_set store key value ttl ≡ (ok true, insert key (value, ttl) store)
unfolding exchange_set
exchange_set_lem store key value ttl valid k storable life =
    rw (exchange_set, serve-set store key value ttl valid k storable life)
      (ap (λ (d : Done Bool). (told d.out, insert key (value, ttl) store))
        (set_on-stored key value ttl))
