-- ===== src/Server/Cache.antt =====
-- server/src/cache.rs: the cache of a pod. An `Instant` and a `Duration` are numbers of nanoseconds;
-- every reading of the clock is an argument.
pub mod Laws
pub mod Shared
pub mod Overflow
pub mod Replicas
pub mod Replication
use traintime_api.Common.{
  ℕ, ◌+◌, ◌-◌, ◌*◌, ◌/◌, Bool, Option, none, some, List, [], if◌then◌else◌, ltb, length, Text,
  lookup, insert, retain,
}

abbrev pub sweep_threshold : ℕ
sweep_threshold = 4096

abbrev pub second : ℕ
second = 1_000_000_000

abbrev pub stale_max_age : ℕ
stale_max_age = 300 * second

pub record Entry : Type 0 where
  pub value : Text
  pub expiry : ℕ
  pub fetched_at : ℕ

abbrev pub Entries : Type 0
Entries = List (Text × Entry)

unfoldable pub get : Entries → Text → ℕ → Option Text
get map key now = elim (lookup key map) [
  | none ↦ none
  | some e ↦ if ltb now e.expiry then some e.value else none
]

-- `elapsed` stops at zero.
unfoldable pub get_stale : Entries → Text → ℕ → ℕ → Option (Text × ℕ)
get_stale map key max_age now = elim (lookup key map) [
  | none ↦ none
  | some e ↦
      let age = now - e.fetched_at in if ltb max_age age then none else some (e.value, age / second)
]

-- `now` is the reading of the sweep.
unfoldable pub put_at : Entries → Text → Text → ℕ → ℕ → ℕ → Entries
put_at map key value ttl_secs fetched_at now =
    let swept =
      if ltb sweep_threshold (length map)
      then retain (λ (e : Entry). ltb now (e.fetched_at + stale_max_age)) map
      else map in
    insert key
      (record { value = value; expiry = fetched_at + ttl_secs * second; fetched_at = fetched_at })
      swept

-- The shared cache's answer first, `none` where it has none or there is none; then the pod's own.
unfoldable pub lookup_with : Option Text → Entries → Text → ℕ → Option Text
unfolding get
lookup_with (some v) map key now = some v
lookup_with none map key now = get map key now
