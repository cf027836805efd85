-- ===== src/Server/Cache/Overflow.antt =====
-- The cache of a pod (server/src/cache.rs) where an `Instant` has a greatest value: a sum of an
-- `Instant` and a `Duration` above it panics, and a panic under the lock of the entries poisons it,
-- so that `lock().unwrap()` panics from then on.
use traintime_api.Common.{
  ℕ, ◌+◌, ◌*◌, ◌≤◌, ◌≡◌, refl, ap, ◌∙◌, inl, inr, Bool, true, Option, none, some, List, [], ◌∷◌,
  arith, if◌then◌else◌, Bool-cases, ltb, leb, ◌&&◌, length, All, Text, insert, retain, All-insert,
  All-retain,
}
use traintime_api.Server.Cache.{second, stale_max_age, sweep_threshold, Entry, Entries, get, put_at}

-- The entries behind their lock; none once the lock is poisoned.
abbrev Locked : Type 0
Locked = Option Entries

-- A write: the key, the value, the TTL, the reading of the clock and the one of the sweep.
pub record Put : Type 0 where
  pub key : Text
  pub value : Text
  pub ttl_secs : ℕ
  pub fetched_at : ℕ
  pub now : ℕ

-- `Instant + Duration`; none is its panic.
unfoldable pub add : ℕ → ℕ → ℕ → Option ℕ
add max instant duration = if leb (instant + duration) max then some (instant + duration) else none

-- `retain` by the end of the stale window.
unfoldable pub sweep : ℕ → ℕ → Entries → Locked
sweep max now [] = some []
sweep max now ((key, e) ∷ map) = elim (add max e.fetched_at stale_max_age) [
  | none ↦ none
  | some until ↦ elim (sweep max now map) [
    | none ↦ none
    | some swept ↦ some (if ltb now until then (key, e) ∷ swept else swept)
  ]
]

put_locked : ℕ → Locked → Put → Locked
put_locked max none p = none
put_locked max (some map) p =
    elim (if ltb sweep_threshold (length map) then sweep max p.now map else some map) [
      | none ↦ none
      | some swept ↦ elim (add max p.fetched_at (p.ttl_secs * second)) [
        | none ↦ none
        | some expiry ↦ some (
            insert p.key (record { value = p.value; expiry = expiry; fetched_at = p.fetched_at })
              swept)
      ]
    ]

-- None is a panic.
pub get_locked : Locked → Text → ℕ → Option (Option Text)
get_locked none key now = none
get_locked (some map) key now = some (get map key now)

pub puts_locked : ℕ → Locked → List Put → Locked
puts_locked max map [] = map
puts_locked max map (p ∷ ps) = puts_locked max (put_locked max map p) ps

-- The writes where an `Instant` has no end.
unfoldable pub puts : Entries → List Put → Entries
puts map [] = map
puts map (p ∷ ps) = puts (put_at map p.key p.value p.ttl_secs p.fetched_at p.now) ps

abbrev pub fits : ℕ → Put → Bool
fits max p = leb (p.fetched_at + p.ttl_secs * second) max

abbrev pub all_fit : ℕ → List Put → Bool
all_fit max [] = true
all_fit max (p ∷ ps) = fits max p && all_fit max ps

-- The stale window of the write ends at an `Instant`.
abbrev IsEarly : ℕ → Put → Type 0
IsEarly max p = p.fetched_at + stale_max_age ≤ max

abbrev HasWindow : ℕ → Text × Entry → Type 0
HasWindow max entry = entry.1.fetched_at + stale_max_age ≤ max

sweep-retain :
    (max now : ℕ) (map : Entries)
    → All (HasWindow max) map
    → sweep max now map ≡ some (retain (λ (e : Entry). ltb now (e.fetched_at + stale_max_age)) map)
unfolding sweep retain add
sweep-retain max now [] h = refl
sweep-retain max now ((key, e) ∷ map) (own, h) = ground (arith, sweep-retain max now map h)

put_locked-put_at :
    (max : ℕ) (map : Entries) (p : Put)
    → All (HasWindow max) map
    → put_locked max (some map) p
      ≡ (if fits max p then some (put_at map p.key p.value p.ttl_secs p.fetched_at p.now) else none)
unfolding put_locked put_at add
put_locked-put_at max map p h = ground (arith, sweep-retain max p.now map h)

put_at-HasWindow :
    (max : ℕ) (map : Entries) (p : Put)
    → IsEarly max p
    → All (HasWindow max) map
    → All (HasWindow max) (put_at map p.key p.value p.ttl_secs p.fetched_at p.now)
unfolding put_at
put_at-HasWindow max map p early h =
    let e : Entry = record {
      value = p.value;
      expiry = p.fetched_at + p.ttl_secs * second;
      fetched_at = p.fetched_at;
    } in
    elim (Bool-cases (ltb sweep_threshold (length map))) [
      | inl full ↦
          rw (put_at, full)
            (All-insert (HasWindow max) p.key e _ early (
              All-retain (HasWindow max) (λ (e : Entry). ltb p.now (e.fetched_at + stale_max_age))
                map h))
      | inr room ↦ rw (put_at, room) (All-insert (HasWindow max) p.key e map early h)
    ]

puts_locked-none : (max : ℕ) (ps : List Put) → puts_locked max none ps ≡ none
unfolding puts_locked put_locked
puts_locked-none max [] = refl
puts_locked-none max (p ∷ ps) = puts_locked-none max ps

puts_locked-puts :
    (max : ℕ) (map : Entries) (ps : List Put)
    → All (HasWindow max) map
    → All (IsEarly max) ps
    → puts_locked max (some map) ps ≡ (if all_fit max ps then some (puts map ps) else none)
unfolding puts_locked puts
puts_locked-puts max map [] h early = refl
puts_locked-puts max map (p ∷ ps) h (own, early) = elim (Bool-cases (fits max p)) [
  | inl fit ↦
      let next = put_at map p.key p.value p.ttl_secs p.fetched_at p.now in
      ap (λ (m : Locked). puts_locked max m ps) (put_locked-put_at max map p h ∙ rw fit refl)
      ∙ puts_locked-puts max next ps (put_at-HasWindow max map p own h) early
      ∙ rw fit refl
  | inr over ↦
      ap (λ (m : Locked). puts_locked max m ps) (put_locked-put_at max map p h ∙ rw over refl)
      ∙ puts_locked-none max ps
      ∙ rw over refl
]

-- After any writes, each at least the stale window before the last `Instant`, a read of the pod's
-- cache answers as one whose clock has no end where every expiry is an `Instant`, and panics where
-- the expiry of one of them is none, whatever was written since and whatever key is read.
pub get_locked-puts_locked :
    (max : ℕ) (ps : List Put) (key : Text) (now : ℕ)
    → All (IsEarly max) ps
    → get_locked (puts_locked max (some []) ps) key now
      ≡ (if all_fit max ps then some (get (puts [] ps) key now) else none)
unfolding get_locked
get_locked-puts_locked max ps key now early =
    ap (λ (m : Locked). get_locked m key now) (puts_locked-puts max [] ps tt early)
    ∙ elim (Bool-cases (all_fit max ps)) [ inl fit ↦ rw fit refl | inr over ↦ rw over refl ]
