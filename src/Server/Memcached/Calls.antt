-- ===== src/Server/Memcached/Calls.antt =====
-- A call of a pod's client (server/src/memcached.rs) over the fake Memcached of its tests: the guards,
-- the pool and the text protocol in one step.
use traintime_api.Common.{
  ℕ, ◌≡◌, Bool, true, false, Option, none, some, arith, if◌then◌else◌, Result, ok, err, Text, codes,
}
use traintime_api.Common.Utf8.{as_bytes}
use traintime_api.Server.Cache.Shared.{Met, complete, shared_get, shared_set}
use traintime_api.Server.Memcached.{
  Client, Start, skipped, pooled, connects, begin, begin_get, begin_set, skipping, finish,
  valid_key, is_written,
}
use traintime_api.Server.Memcached.Protocol.{
  Fault, io, panic, get_command, get_on, set_message, set_on,
}
use traintime_api.Server.Memcached.Fake.{Store, serve}
use traintime_api.Server.Memcached.Sharing.{replying}

-- The outcome of a command as the call meets it; a panic of the command counts as a failure.
abbrev pub told : {A : Type 0} → Result A Fault → Result A Text
told (ok a) = ok a
told (err (io text)) = err text
told (err panic) = err (codes "panic")

-- A command sent to the fake, and what comes back: the outcome and the store behind it.
unfoldable pub exchange_get : Store → Text → Result (Option Text) Text × Store
exchange_get store key = elim (serve store (as_bytes (get_command key))) [
  | none ↦ (err (codes "connection closed"), store)
  | some r ↦ (told (get_on key (replying r.reply)).out, r.store)
]

unfoldable pub exchange_set : Store → Text → Text → ℕ → Result Bool Text × Store
exchange_set store key value ttl = elim (serve store (set_message key value ttl)) [
  | none ↦ (err (codes "connection closed"), store)
  | some r ↦ (told (set_on key value ttl (replying r.reply)).out, r.store)
]

abbrev pub met : {T : Type 0} → ℕ → Result T Text → Met T
met now out = record { started = now; ended = now; opened = 0; outcome = out }

abbrev is_sent : Start → Bool
is_sent skipped = false
is_sent (pooled conn) = true
is_sent connects = true

abbrev pub store_after : Start → Store → Store → Store
store_after start new old = if is_sent start then new else old

-- What a call leaves.
pub record Reached (A : Type 0) : Type 0 where
  pub out : A
  pub client : Client
  pub store : Store

unfoldable pub call_get : Client → Store → ℕ → Text → Reached (Option Text)
call_get c store now key =
    let exchanged = exchange_get store key in
    let called = shared_get c key (met now exchanged.0) in
    record {
      out = called.0;
      client = called.1;
      store = store_after (begin_get c key now).0 exchanged.1 store;
    }

unfoldable pub call_set : Client → Store → ℕ → Text → Text → ℕ → Reached (Unit {0})
call_set c store now key value ttl =
    let exchanged = exchange_set store key value ttl in
    record {
      out = tt;
      client = shared_set c key ttl (met now exchanged.0);
      store = store_after (begin_set c key ttl now).0 exchanged.1 store;
    }

-- A client outside the skip window, whose commands succeed.
pub shared_get-healthy :
    (c : Client) (key : Text) (now : ℕ) (o : Option Text)
    → c.skip_until ≡ none
    → valid_key key ≡ true
    → ((shared_get c key (met now (ok o))).0 ≡ o)
      × ((shared_get c key (met now (ok o))).1.skip_until ≡ none)
      × (is_sent (begin_get c key now).0 ≡ true)
unfolding shared_get complete begin_get begin skipping finish
shared_get-healthy c key now o h valid = ground arith

pub shared_set-healthy :
    (c : Client) (key : Text) (ttl now : ℕ) (done : Bool)
    → c.skip_until ≡ none
    → is_written key ttl ≡ true
    → ((shared_set c key ttl (met now (ok done))).skip_until ≡ none)
      × (is_sent (begin_set c key ttl now).0 ≡ true)
unfolding shared_set complete begin_set begin skipping finish
shared_set-healthy c key ttl now done h written = ground arith

-- A call that is not sent.
pub shared_get-unsent :
    (c : Client) (key : Text) (m : Met (Option Text))
    → valid_key key ≡ false
    → ((shared_get c key m).0 ≡ none)
      × ((shared_get c key m).1 ≡ c)
      × (is_sent (begin_get c key m.started).0 ≡ false)
unfolding shared_get complete begin_get
shared_get-unsent c key m bad = ground arith

pub shared_set-unsent :
    (c : Client) (key : Text) (ttl : ℕ) (m : Met Bool)
    → is_written key ttl ≡ false
    → (shared_set c key ttl m ≡ c) × (is_sent (begin_set c key ttl m.started).0 ≡ false)
unfolding shared_set complete begin_set
shared_set-unsent c key ttl m bad = ground arith
