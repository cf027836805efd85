-- ===== src/Server/Memcached/Pool.antt =====
-- The connections of a pod's client (server/src/memcached.rs) while its calls interleave: a call takes
-- one from the pool or opens one, and gives it back or loses it.
pub mod Moves
pub mod Exclusive
use traintime_api.Common.{
  at, ℕ, suc, ◌≤◌, ◌≡◌, ◌≢◌, Option, none, some, List, [], ◌∷◌, Result, length, All, Text,
}
use traintime_api.Server.Memcached.{Client, Start, skipped, pooled, connects, begin, finish}

-- The client, the connection that each call in flight holds, and the number of the next one.
pub record Pool : Type 0 where
  pub client : Client
  pub held : ℕ → Option ℕ
  pub next : ℕ

-- A call begins, ends with its outcome, a timeout included, or is dropped; a call has a number.
pub data Event : Type 0 where
  begins : ℕ → ℕ → Event
  ends : ℕ → ℕ → Result Text Text → Event
  drops : ℕ → Event

abbrev pub taken : Pool → ℕ → Start × Client → Pool
taken p i (skipped, c) = record p { client = c }
taken p i (pooled conn, c) = record p { client = c; held = at i (some conn) p.held }
taken p i (connects, c) = record p {
  client = c;
  held = at i (some p.next) p.held;
  next = suc p.next;
}

-- A call that is in flight does not begin again; one that is not does not end.
abbrev pub start : Pool → ℕ → ℕ → Option ℕ → Pool
start p i now (some conn) = p
start p i now none = taken p i (begin p.client now)

abbrev pub stop : {T : Type 0} → Pool → ℕ → ℕ → Result T Text → Option ℕ → Pool
stop p i now r none = p
stop p i now r (some conn) = record p {
  client = (finish p.client now conn r).1;
  held = at i none p.held;
}

unfoldable pub step : Pool → Event → Pool
step p (begins i now) = start p i now (p.held i)
step p (ends i now r) = stop p i now r (p.held i)
step p (drops i) = record p { held = at i none p.held }

unfoldable pub steps : Pool → List Event → Pool
steps p [] = p
steps p (e ∷ events) = steps (step p e) events

-- `Memcached::new`.
abbrev pub opened : Pool
opened = record { client = record { idle = []; skip_until = none }; held = λ i. none; next = 0 }

-- The connection is not one of these.
abbrev pub IsOut : ℕ → List ℕ → Type 0
IsOut n idle = All (λ c. c ≢ n) idle

abbrev pub IsDistinct : List ℕ → Type 0
IsDistinct [] = Unit
IsDistinct (c ∷ idle) = IsOut c idle × IsDistinct idle

-- No connection is with two calls, with a call and in the pool, or in the pool twice.
pub record IsShared (p : Pool) : Type 0 where
  pub alone : (i j n : ℕ) → p.held i ≡ some n → p.held j ≡ some n → i ≡ j
  pub apart : (i n : ℕ) → p.held i ≡ some n → IsOut n p.client.idle
  pub distinct : IsDistinct p.client.idle
  pub room : length p.client.idle ≤ 8
