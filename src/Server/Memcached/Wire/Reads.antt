-- ===== src/Server/Memcached/Wire/Reads.antt =====
-- The reads of a client (server/src/memcached.rs) along a run of its calls.
use mathlib.Core.Path.{subst}
use traintime_api.Common.{
  ℕ, ◌^◌, ◌<◌, ◌≡◌, refl, sym, ap, ◌∙◌, Bool, true, Option, none, some, List, [], ◌∷◌, ◌++◌, ok,
  All, Text, codes, lookup, insert, All-insert,
}
use traintime_api.Common.Utf8.{Bytes, as_bytes}
use traintime_api.Server.Memcached.{valid_key}
use traintime_api.Server.Memcached.Protocol.{Done, get_command, get_on, set_message, set_on}
use traintime_api.Server.Memcached.Fake.{serve, Store, reply_of}
use traintime_api.Server.Memcached.Sharing.{replying, spent, set_on-stored}
use traintime_api.Server.Memcached.Exchange.{
  view, IsStorable, IsKey, HasValue, get_on-reply_of, lookup-IsHeld, serve-get, serve-set,
}
use traintime_api.Server.Memcached.Pool.Exclusive.{IsKept, start-IsKept, stop-IsKept, opened-IsKept}
use traintime_api.Server.Memcached.Pool.Moves.{lose-IsExclusive}
use traintime_api.Server.Memcached.Wire.{
  Read, Wire, Act, starts, gets, sets, breaks, leaves, lands, landed, broken, lost, left, got_by,
  wrote_by, asks, tells, act, acts, blank,
}
use traintime_api.Server.Memcached.Wire.Clean.{
  IsCleanPool, lose-IsClean, stop-IsClean, lost-IsClean, start-IsClean,
}

-- A read that gave what the server held.
abbrev pub IsRight : Read → Type 0
IsRight read = read.0 ≡ ok read.1

-- A command that the client sends.
abbrev pub IsSound : Act → Type 0
IsSound (starts i now) = Unit
IsSound (gets i now key) = (valid_key key ≡ true) × IsKey key
IsSound (sets i now key value ttl) =
    (valid_key key ≡ true) × IsKey key × IsStorable value × (ttl < 2 ^ 64)
IsSound (breaks i now junk) = Unit
IsSound (leaves i junk) = Unit
IsSound (lands key value ttl) =
    (valid_key key ≡ true) × IsKey key × IsStorable value × (ttl < 2 ^ 64)

record IsSane (w : Wire) : Type 0 where
  kept : IsKept w.pool
  clean : IsCleanPool w.pool w.unread
  values : All HasValue w.store
  right : All IsRight w.reads

got_by-IsSane :
    (w : Wire) (i now conn : ℕ) (key : Text) (d : Done (Option Text)) (sent : Bytes)
    → w.pool.held i ≡ some conn
    → d ≡ record { out = ok (view w.store key); conn = spent sent }
    → IsSane w
    → IsSane (got_by w i now key conn w.store d)
got_by-IsSane w i now conn key d sent own e h =
    let v = view w.store key in
    subst (λ (x : Done (Option Text)). IsSane (got_by w i now key conn w.store x)) (sym e)
      (record {
        kept = stop-IsKept {T = Option Text} w.pool i now (ok v) (some conn) own h.kept;
        clean = stop-IsClean {T = Option Text} w.pool i now conn v w.unread h.clean;
        values = h.values;
        right = (refl, h.right);
      })

wrote_by-IsSane :
    (w : Wire) (i now conn : ℕ) (store : Store) (d : Done Bool) (sent : Bytes)
    → w.pool.held i ≡ some conn
    → d ≡ record { out = ok true; conn = spent sent }
    → All HasValue store
    → IsSane w
    → IsSane (wrote_by w i now conn store d)
wrote_by-IsSane w i now conn store d sent own e values h =
    subst (λ (x : Done Bool). IsSane (wrote_by w i now conn store x)) (sym e)
      (record {
        kept = stop-IsKept {T = Bool} w.pool i now (ok true) (some conn) own h.kept;
        clean = stop-IsClean {T = Bool} w.pool i now conn true w.unread h.clean;
        values = values;
        right = h.right;
      })

asks-IsSane :
    (w : Wire) (i now : ℕ) (key : Text) (conn : Option ℕ)
    → w.pool.held i ≡ conn
    → valid_key key ≡ true
    → IsKey key
    → IsSane w
    → IsSane (asks w i now key conn)
asks-IsSane w i now key none own valid k h = h
asks-IsSane w i now key (some conn) own valid k h = rw (serve-get w.store key valid k) (
    got_by-IsSane w i now conn key _ (as_bytes (get_command key)) own
      (ap (λ (t : Bytes). get_on key (replying (t ++ reply_of key (lookup key w.store))))
          (h.clean.held_read i conn own)
        ∙ get_on-reply_of key (lookup key w.store) valid k.0 (lookup-IsHeld w.store key h.values))
      h)

tells-IsSane :
    (w : Wire) (i now : ℕ) (key value : Text) (ttl : ℕ) (conn : Option ℕ)
    → w.pool.held i ≡ conn
    → valid_key key ≡ true
    → IsKey key
    → IsStorable value
    → ttl < 2 ^ 64
    → IsSane w
    → IsSane (tells w i now key value ttl conn)
tells-IsSane w i now key value ttl none own valid k storable life h = h
tells-IsSane w i now key value ttl (some conn) own valid k storable life h =
    rw (serve-set w.store key value ttl valid k storable life) (
      wrote_by-IsSane w i now conn (insert key (value, ttl) w.store) _ (set_message key value ttl)
        own
        (ap (λ (t : Bytes). set_on key value ttl (replying (t ++ as_bytes (codes "STORED\r\n"))))
            (h.clean.held_read i conn own)
          ∙ set_on-stored key value ttl)
        (All-insert HasValue key (value, ttl) w.store storable h.values) h)

lost-IsSane :
    (w : Wire) (i now : ℕ) (junk : Bytes) (conn : Option ℕ)
    → w.pool.held i ≡ conn
    → IsSane w
    → IsSane (lost w i now junk conn)
lost-IsSane w i now junk none own h = h
lost-IsSane w i now junk (some conn) own h = record {
  kept = stop-IsKept w.pool i now broken (some conn) own h.kept;
  clean = lost-IsClean w.pool i now conn junk w.unread own h.kept h.clean;
  values = h.values;
  right = h.right;
}

landed-IsSane :
    (w : Wire) (key value : Text) (ttl : ℕ)
    → valid_key key ≡ true
    → IsKey key
    → IsStorable value
    → ttl < 2 ^ 64
    → IsSane w
    → IsSane (landed w (serve w.store (set_message key value ttl)))
landed-IsSane w key value ttl valid k storable life h =
    rw (serve-set w.store key value ttl valid k storable life) (record {
      kept = h.kept;
      clean = h.clean;
      values = All-insert HasValue key (value, ttl) w.store storable h.values;
      right = h.right;
    })

left-IsSane :
    (w : Wire) (i : ℕ) (junk : Bytes) (conn : Option ℕ)
    → w.pool.held i ≡ conn
    → IsSane w
    → IsSane (left w i junk conn)
left-IsSane w i junk none own h = h
left-IsSane w i junk (some conn) own h =
    let p = w.pool in
    record {
      kept = lose-IsExclusive p.client.idle p.held p.next i h.kept;
      clean = lose-IsClean p.client.idle p.held p.next i conn junk w.unread own h.kept h.clean;
      values = h.values;
      right = h.right;
    }

act-IsSane : (w : Wire) (a : Act) → IsSound a → IsSane w → IsSane (act w a)
unfolding act
act-IsSane w (starts i now) sound h = record {
  kept = start-IsKept w.pool i now (w.pool.held i) h.kept;
  clean = start-IsClean w.pool i now (w.pool.held i) w.unread h.clean;
  values = h.values;
  right = h.right;
}
act-IsSane w (gets i now key) (valid, k) h = asks-IsSane w i now key (w.pool.held i) refl valid k h
act-IsSane w (sets i now key value ttl) (valid, k, storable, life) h =
    tells-IsSane w i now key value ttl (w.pool.held i) refl valid k storable life h
act-IsSane w (breaks i now junk) sound h = lost-IsSane w i now junk (w.pool.held i) refl h
act-IsSane w (leaves i junk) sound h = left-IsSane w i junk (w.pool.held i) refl h
act-IsSane w (lands key value ttl) (valid, k, storable, life) h =
    landed-IsSane w key value ttl valid k storable life h

acts-IsSane : (w : Wire) (run : List Act) → All IsSound run → IsSane w → IsSane (acts w run)
unfolding acts
acts-IsSane w [] sound h = h
acts-IsSane w (a ∷ run) (own, sound) h = acts-IsSane (act w a) run sound (act-IsSane w a own h)

blank-IsSane : IsSane blank
blank-IsSane = record {
  kept = opened-IsKept;
  clean = record { idle_read = tt; held_read = λ i n e. refl; fresh_read = λ n far. refl };
  values = tt;
  right = tt;
}

-- However the calls of a client interleave, with each other and with the sets of others, and wherever
-- calls fail, run out of time or are dropped in the middle of a reply, each get that ends has read
-- what the Memcached held for its own key when it was asked, never the rest of another reply. The keys are sent and have no white space, the texts
-- are made of characters, a TTL is one of 64 bits, and the buffer of a value with its line end has at
-- most `isize::MAX` bytes.
pub acts-IsRight : (run : List Act) → All IsSound run → All IsRight (acts blank run).reads
acts-IsRight run sound = (acts-IsSane blank run sound blank-IsSane).right
