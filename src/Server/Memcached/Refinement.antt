-- ===== src/Server/Memcached/Refinement.antt =====
-- The calls of a pod's client (server/src/memcached.rs) over the fake Memcached of its tests, next
-- to a map.
use traintime_api.Common.{
  ℕ, ◌^◌, ◌<◌, ◌≡◌, refl, sym, ap, ◌∙◌, inl, inr, Bool, true, Option, none, arith, if◌then◌else◌,
  Bool-cases, ◌&&◌, Result, ltb, All, Text, insert, All-insert,
}
use traintime_api.Server.Cache.Shared.{shared_get, shared_set}
use traintime_api.Server.Memcached.{Client, valid_key, is_written}
use traintime_api.Server.Memcached.Fake.{Store}
use traintime_api.Server.Memcached.Calls.{
  met, Reached, exchange_get, exchange_set, call_get, call_set, shared_get-healthy,
  shared_set-healthy, shared_get-unsent, shared_set-unsent,
}
use traintime_api.Server.Memcached.Exchange.{
  set_at, view, view-insert, IsStorable, IsKey, HasValue, exchange_get_lem, exchange_set_lem,
}

-- A call of a healthy client keeps it healthy, answers what the map holds, and changes the store as
-- the map.
pub record Refines {A : Type 0} (r : Reached A) (a : A) (store : Store) : Type 0 where
  pub answered : r.out ≡ a
  pub healthy : r.client.skip_until ≡ none
  pub stored : r.store ≡ store

pub call_get-Refines :
    (c : Client) (store : Store) (now : ℕ) (key : Text)
    → c.skip_until ≡ none
    → IsKey key
    → All HasValue store
    → Refines (call_get c store now key) (if valid_key key then view store key else none) store
unfolding call_get
call_get-Refines c store now key h k held = elim (Bool-cases (valid_key key)) [
  | inl valid ↦
      let swapped = exchange_get_lem store key valid k held in
      let (same, healthy, sent) = shared_get-healthy c key now (view store key) h valid in
      record {
        answered = rw valid (
            ap (λ (x : Result (Option Text) Text × Store). (shared_get c key (met now x.0)).0)
              swapped
            ∙ same);
        healthy =
            ap
              (λ (x : Result (Option Text) Text × Store).
                (shared_get c key (met now x.0)).1.skip_until)
              swapped
            ∙ healthy;
        stored = rw sent (ap (λ (x : Result (Option Text) Text × Store). x.1) swapped);
      }
  | inr bad ↦
      let (nothing, same, unsent) =
        shared_get-unsent c key (met now (exchange_get store key).0) bad in
      record {
        answered = rw bad nothing;
        healthy = ap (λ (d : Client). d.skip_until) same ∙ h;
        stored = rw unsent refl;
      }
]

pub stored_by : Store → Text → Text → ℕ → Store
stored_by store key value ttl = if is_written key ttl then insert key (value, ttl) store else store

is_written-valid_key : (key : Text) (ttl : ℕ) → is_written key ttl ≡ true → valid_key key ≡ true
unfolding is_written
is_written-valid_key key ttl h = ground arith

pub call_set-Refines :
    (c : Client) (store : Store) (now : ℕ) (key value : Text) (ttl : ℕ)
    → c.skip_until ≡ none
    → IsKey key
    → IsStorable value
    → ttl < 2 ^ 64
    → Refines (call_set c store now key value ttl) tt (stored_by store key value ttl)
unfolding call_set stored_by
call_set-Refines c store now key value ttl h k storable life =
    elim (Bool-cases (is_written key ttl)) [
      | inl written ↦
          let swapped =
            exchange_set_lem store key value ttl (is_written-valid_key key ttl written) k storable
              life in
          let (healthy, sent) = shared_set-healthy c key ttl now true h written in
          record {
            answered = refl;
            healthy =
                ap
                  (λ (x : Result Bool Text × Store).
                    (shared_set c key ttl (met now x.0)).skip_until)
                  swapped
                ∙ healthy;
            stored = rw (written, sent) (ap (λ (x : Result Bool Text × Store). x.1) swapped);
          }
      | inr bad ↦
          let (same, unsent) =
            shared_set-unsent c key ttl (met now (exchange_set store key value ttl).0) bad in
          record {
            answered = refl;
            healthy = ap (λ (d : Client). d.skip_until) same ∙ h;
            stored = rw (bad, unsent) refl;
          }
    ]

pub stored_by-HasValue :
    (store : Store) (key value : Text) (ttl : ℕ)
    → IsStorable value
    → All HasValue store
    → All HasValue (stored_by store key value ttl)
unfolding stored_by
stored_by-HasValue store key value ttl new held = elim (Bool-cases (is_written key ttl)) [
  | inl written ↦ rw (stored_by, written) (All-insert HasValue key (value, ttl) store new held)
  | inr bad ↦ rw (stored_by, bad) held
]

is_written-valid_key-ltb : (key : Text) (ttl : ℕ) → is_written key ttl ≡ valid_key key && ltb 0 ttl
unfolding is_written
is_written-valid_key-ltb key ttl = ground arith

pub view-stored_by :
    (store : Store) (key value : Text) (ttl : ℕ)
    → view (stored_by store key value ttl)
      ≡ (if valid_key key && ltb 0 ttl then set_at key value (view store) else view store)
unfolding stored_by
view-stored_by store key value ttl =
    rw (sym (is_written-valid_key-ltb key ttl)) (elim (Bool-cases (is_written key ttl)) [
      | inl written ↦ rw written (view-insert key value ttl store)
      | inr bad ↦ rw bad refl
    ])
