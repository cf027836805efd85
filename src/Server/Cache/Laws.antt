-- ===== src/Server/Cache/Laws.antt =====
-- What a pod's cache returns after a write.
use traintime_api.Common.{
  ℕ, ◌+◌, ◌-◌, ◌*◌, ◌/◌, ◌≤◌, ◌<◌, ◌≡◌, refl, inl, inr, Bool, false, none, some, [], ◌∷◌, arith,
  if◌then◌else◌, Bool-cases, Option-cases, ltb, length, Text, text_eq, lookup, insert, retain,
  lookup-insert, lookup-insert_self, lookup-retain, HasDistinctKeys, insert-HasDistinctKeys,
  retain-HasDistinctKeys, All,
}
use traintime_api.Server.Cache.{
  second, stale_max_age, sweep_threshold, Entry, Entries, get, get_stale, put_at,
}

-- A value that was written is read back until its TTL has passed, and no longer.
pub get-put_at :
    (map : Entries) (key value : Text) (ttl fetched now later : ℕ)
    → get (put_at map key value ttl fetched now) key later
      ≡ (if ltb later (fetched + ttl * second) then some value else none)
unfolding get put_at
get-put_at map key value ttl fetched now later = rw (lookup-insert_self, get) refl

-- On upstream failure it is served up to 300 seconds after the fetch, with its age.
pub get_stale-put_at :
    (map : Entries) (key value : Text) (ttl fetched now later : ℕ)
    → get_stale (put_at map key value ttl fetched now) key stale_max_age later ≡ (
        if ltb stale_max_age (later - fetched)
        then none
        else some (value, (later - fetched) / second))
unfolding get_stale put_at
get_stale-put_at map key value ttl fetched now later = rw (lookup-insert_self, get_stale) refl

-- The entries with one for a key, none of which outlives the stale window.
pub record IsValid (map : Entries) : Type 0 where
  pub distinct : HasDistinctKeys map
  pub bounded : All (λ (p : Text × Entry). p.1.expiry ≤ p.1.fetched_at + stale_max_age) map

bounded-lookup :
    (map : Entries) (key : Text) (e : Entry)
    → All (λ (p : Text × Entry). p.1.expiry ≤ p.1.fetched_at + stale_max_age) map
    → lookup key map ≡ some e
    → e.expiry ≤ e.fetched_at + stale_max_age
unfolding lookup
bounded-lookup [] key e h found = absurd (cc)
bounded-lookup ((j, x) ∷ map) key e h found = ground (arith, bounded-lookup map key e h.1)

bounded-insert :
    (map : Entries) (key : Text) (e : Entry)
    → e.expiry ≤ e.fetched_at + stale_max_age
    → All (λ (p : Text × Entry). p.1.expiry ≤ p.1.fetched_at + stale_max_age) map
    → All (λ (p : Text × Entry). p.1.expiry ≤ p.1.fetched_at + stale_max_age) (insert key e map)
unfolding insert
bounded-insert [] key e b h = (b, tt)
bounded-insert ((j, x) ∷ map) key e b h = elim (Bool-cases (text_eq j key)) [
  | inl same ↦ rw (same, All) (b, h.1)
  | inr other ↦ rw (other, All) (h.0, bounded-insert map key e b h.1)
]

bounded-retain :
    (p : Entry → Bool) (map : Entries)
    → All (λ (p : Text × Entry). p.1.expiry ≤ p.1.fetched_at + stale_max_age) map
    → All (λ (p : Text × Entry). p.1.expiry ≤ p.1.fetched_at + stale_max_age) (retain p map)
unfolding retain
bounded-retain p [] h = tt
bounded-retain p ((j, x) ∷ map) h = elim (Bool-cases (p x)) [
  | inl kept ↦ rw (kept, All) (h.0, bounded-retain p map h.1)
  | inr gone ↦ rw (gone, All) (bounded-retain p map h.1)
]

-- Writing with a TTL of at most 300 seconds keeps the entries valid.
pub put_at-IsValid :
    (map : Entries) (key value : Text) (ttl fetched now : ℕ)
    → IsValid map
    → ttl ≤ 300
    → IsValid (put_at map key value ttl fetched now)
unfolding put_at
put_at-IsValid map key value ttl fetched now v h =
    let e : Entry = record {
      value = value;
      expiry = fetched + ttl * second;
      fetched_at = fetched;
    } in
    let fits = λ (e : Entry). ltb now (e.fetched_at + stale_max_age) in
    elim (Bool-cases (ltb sweep_threshold (length map))) [
      | inl full ↦ rw full (record {
        distinct = insert-HasDistinctKeys key e _ (retain-HasDistinctKeys fits map v.distinct);
        bounded = bounded-insert _ key e (omega arith) (bounded-retain fits map v.bounded);
      })
      | inr room ↦ rw room (record {
        distinct = insert-HasDistinctKeys key e map v.distinct;
        bounded = bounded-insert map key e (omega arith) v.bounded;
      })
    ]

-- A write to one key hides nothing that could be read at another, though it may sweep.
pub get-put_at_ne :
    (map : Entries) (key other value : Text) (ttl fetched now later : ℕ)
    → IsValid map
    → text_eq key other ≡ false
    → now ≤ later
    → get (put_at map key value ttl fetched now) other later ≡ get map other later
unfolding get put_at
get-put_at_ne map key other value ttl fetched now later v ne le =
    let fits = λ (e : Entry). ltb now (e.fetched_at + stale_max_age) in
    elim (Bool-cases (ltb sweep_threshold (length map))) [
      | inl full ↦
          rw (full, lookup-insert, ne, lookup-retain fits other map v.distinct, get)
            (elim (Option-cases (lookup other map)) [
              | inl missing ↦ rw (missing, get) refl
              | inr (e, found) ↦
                  let b = bounded-lookup map other e v.bounded found in
                  rw (found, get) (ground arith)
            ])
      | inr room ↦ rw (room, lookup-insert, ne, get) refl
    ]

-- A write to one key takes no stale answer from another, though it may sweep: over entries with
-- distinct keys, what can be served at any other key for a failed call, and with what age, is after
-- the write what it was before, at every later reading of the clock.
pub get_stale-put_at_ne :
    (map : Entries) (key other value : Text) (ttl fetched now later : ℕ)
    → HasDistinctKeys map
    → text_eq key other ≡ false
    → now < later
    → get_stale (put_at map key value ttl fetched now) other stale_max_age later
      ≡ get_stale map other stale_max_age later
unfolding get_stale put_at
get_stale-put_at_ne map key other value ttl fetched now later distinct ne le =
    let fits = λ (e : Entry). ltb now (e.fetched_at + stale_max_age) in
    elim (Bool-cases (ltb sweep_threshold (length map))) [
      | inl full ↦
          rw (full, lookup-insert, ne, lookup-retain fits other map distinct, get_stale)
            (elim (Option-cases (lookup other map)) [
              | inl missing ↦ rw (missing, get_stale) refl
              | inr (e, found) ↦ rw (found, get_stale) (ground arith)
            ])
      | inr room ↦ rw (room, lookup-insert, ne, get_stale) refl
    ]
