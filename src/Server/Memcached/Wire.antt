-- ===== src/Server/Memcached/Wire.antt =====
-- The client's connections (server/src/memcached.rs) with the bytes that are not read yet, while its
-- calls interleave over the fake Memcached of its tests: a call may end, fail, run out of time or be
-- dropped in the middle of a reply.
pub mod Clean
pub mod Reads
use traintime_api.Common.{
  at, Bool, ℕ, ◌≡◌, Option, none, some, List, [], ◌∷◌, ◌++◌, Result, ok, err, Text, codes,
}
use traintime_api.Common.Utf8.{Bytes, as_bytes}
use traintime_api.Server.Memcached.Protocol.{Done, get_command, get_on, set_message, set_on}
use traintime_api.Server.Memcached.Fake.{Store, Round, serve}
use traintime_api.Server.Memcached.Sharing.{replying}
use traintime_api.Server.Memcached.Calls.{told}
use traintime_api.Server.Memcached.Exchange.{view}
use traintime_api.Server.Memcached.Pool.{Pool, start, stop, opened}

-- What a get read, and what the server held for its key when it was asked.
abbrev pub Read : Type 0
Read = Result (Option Text) Text × Option Text

-- The pool, the unread bytes of each connection, the server's store, and the reads, latest first.
pub record Wire : Type 0 where
  pub pool : Pool
  pub unread : ℕ → Bytes
  pub store : Store
  pub reads : List Read

-- A call begins; a call in flight gets or sets; it fails and leaves some bytes unread; it is dropped
-- and leaves some; and a set of another client, or of a call that has failed or was dropped, lands.
pub data Act : Type 0 where
  starts : ℕ → ℕ → Act
  gets : ℕ → ℕ → Text → Act
  sets : ℕ → ℕ → Text → Text → ℕ → Act
  breaks : ℕ → ℕ → Bytes → Act
  leaves : ℕ → Bytes → Act
  lands : Text → Text → ℕ → Act

abbrev pub broken : Result Text Text
broken = err (codes "broken")

abbrev pub lost : Wire → ℕ → ℕ → Bytes → Option ℕ → Wire
lost w i now junk none = w
lost w i now junk (some conn) = record w {
  pool = stop w.pool i now broken (some conn);
  unread = at conn junk w.unread;
}

abbrev pub left : Wire → ℕ → Bytes → Option ℕ → Wire
left w i junk none = w
left w i junk (some conn) = record w {
  pool = record w.pool { held = at i none w.pool.held };
  unread = at conn junk w.unread;
}

abbrev pub got_by : Wire → ℕ → ℕ → Text → ℕ → Store → Done (Option Text) → Wire
got_by w i now key conn store d = record {
  pool = stop w.pool i now (told d.out) (some conn);
  unread = at conn d.conn.input w.unread;
  store = store;
  reads = (told d.out, view w.store key) ∷ w.reads;
}

-- The reply comes behind the bytes that are not read yet.
abbrev pub got : Wire → ℕ → ℕ → Text → ℕ → Option Round → Wire
got w i now key conn none = lost w i now [] (some conn)
got w i now key conn (some r) =
    got_by w i now key conn r.store (get_on key (replying (w.unread conn ++ r.reply)))

abbrev pub wrote_by : Wire → ℕ → ℕ → ℕ → Store → Done Bool → Wire
wrote_by w i now conn store d = record {
  pool = stop w.pool i now (told d.out) (some conn);
  unread = at conn d.conn.input w.unread;
  store = store;
  reads = w.reads;
}

abbrev wrote : Wire → ℕ → ℕ → Text → Text → ℕ → ℕ → Option Round → Wire
wrote w i now key value ttl conn none = lost w i now [] (some conn)
wrote w i now key value ttl conn (some r) =
    wrote_by w i now conn r.store (set_on key value ttl (replying (w.unread conn ++ r.reply)))

abbrev pub asks : Wire → ℕ → ℕ → Text → Option ℕ → Wire
asks w i now key none = w
asks w i now key (some conn) = got w i now key conn (serve w.store (as_bytes (get_command key)))

abbrev pub tells : Wire → ℕ → ℕ → Text → Text → ℕ → Option ℕ → Wire
tells w i now key value ttl none = w
tells w i now key value ttl (some conn) =
    wrote w i now key value ttl conn (serve w.store (set_message key value ttl))

abbrev pub landed : Wire → Option Round → Wire
landed w none = w
landed w (some r) = record w { store = r.store }

unfoldable pub act : Wire → Act → Wire
act w (starts i now) = record w { pool = start w.pool i now (w.pool.held i) }
act w (gets i now key) = asks w i now key (w.pool.held i)
act w (sets i now key value ttl) = tells w i now key value ttl (w.pool.held i)
act w (breaks i now junk) = lost w i now junk (w.pool.held i)
act w (leaves i junk) = left w i junk (w.pool.held i)
act w (lands key value ttl) = landed w (serve w.store (set_message key value ttl))

unfoldable pub acts : Wire → List Act → Wire
acts w [] = w
acts w (a ∷ rest) = acts (act w a) rest

-- A new client and an empty Memcached.
abbrev pub blank : Wire
blank = record { pool = opened; unread = λ n. []; store = []; reads = [] }
