-- ===== src/Server/Memcached/Pool/Exclusive.antt =====
-- Where the connections of a client (server/src/memcached.rs) are along a run of its calls.
use traintime_api.Common.{
  at, ℕ, suc, ◌<◌, ◌≡◌, ◌⊎◌, refl, sym, inl, inr, Option, none, some, List, [], ◌∷◌, arith,
  Bool-cases, Result, ok, err, length, ltb, Text,
}
use mathlib.Core.Path.{subst}
use traintime_api.Server.Memcached.{
  Client, Start, skipped, pooled, connects, begin, finish, skipping, mark_failed, pool_size,
}
use traintime_api.Server.Memcached.Pool.{
  Pool, Event, begins, ends, drops, taken, start, stop, step, steps, opened, IsShared,
}
use traintime_api.Server.Memcached.Pool.Moves.{
  IsExclusive, lose-IsExclusive, return-IsExclusive, take-IsExclusive, open-IsExclusive,
}

-- Where a call begins.
pub data Begun (c : Client) (r : Start × Client) : Type 0 where
  skips : r.0 ≡ skipped → r.1.idle ≡ c.idle → Begun c r
  pops : (conn : ℕ) → r.0 ≡ pooled conn → c.idle ≡ conn ∷ r.1.idle → Begun c r
  dials : r.0 ≡ connects → r.1.idle ≡ c.idle → Begun c r

begin-Begun_of :
    (idle : List ℕ) (window : Option ℕ) (now : ℕ)
    → Begun
        (record { idle = idle; skip_until = window })
        (begin (record { idle = idle; skip_until = window }) now)
unfolding begin skipping
begin-Begun_of [] none now = dials refl refl
begin-Begun_of (conn ∷ idle) none now = pops conn refl refl
begin-Begun_of [] (some until) now =
    let c : Client = record { idle = []; skip_until = some until } in
    let cleared : Client = record { idle = []; skip_until = none } in
    elim (Bool-cases (ltb now until)) [
      | inl early ↦
          let e : begin c now ≡ (skipped, c) = ground arith in
          subst (Begun c) (sym e) (skips refl refl)
      | inr late ↦
          let e : begin c now ≡ (connects, cleared) = ground arith in
          subst (Begun c) (sym e) (dials refl refl)
    ]
begin-Begun_of (conn ∷ idle) (some until) now =
    let c : Client = record { idle = conn ∷ idle; skip_until = some until } in
    let rest : Client = record { idle = idle; skip_until = none } in
    elim (Bool-cases (ltb now until)) [
      | inl early ↦
          let e : begin c now ≡ (skipped, c) = ground arith in
          subst (Begun c) (sym e) (skips refl refl)
      | inr late ↦
          let e : begin c now ≡ (pooled conn, rest) = ground arith in
          subst (Begun c) (sym e) (pops conn refl refl)
    ]

pub begin-Begun : (c : Client) (now : ℕ) → Begun c (begin c now)
begin-Begun c now = begin-Begun_of c.idle c.skip_until now

abbrev pub IsKept : Pool → Type 0
IsKept p = IsExclusive p.client.idle p.held p.next

taken-IsKept :
    (p : Pool) (i : ℕ) (r : Start × Client) → Begun p.client r → IsKept p → IsKept (taken p i r)
taken-IsKept p i (skipped, c) (skips e same) h =
    subst (λ (l : List ℕ). IsExclusive l p.held p.next) (sym same) h
taken-IsKept p i (pooled n, c) (pops conn e same) h =
    let own : n ≡ conn = cc in
    subst (λ (m : ℕ). IsExclusive c.idle (at i (some m) p.held) p.next) (sym own)
      (take-IsExclusive c.idle p.held p.next i conn
        (subst (λ (l : List ℕ). IsExclusive l p.held p.next) same h))
taken-IsKept p i (connects, c) (dials e same) h =
    subst (λ (l : List ℕ). IsExclusive l (at i (some p.next) p.held) (suc p.next)) (sym same)
      (open-IsExclusive p.client.idle p.held p.next i h)
taken-IsKept p i (skipped, c) (pops conn e same) h = absurd (cc)
taken-IsKept p i (skipped, c) (dials e same) h = absurd (cc)
taken-IsKept p i (pooled n, c) (skips e same) h = absurd (cc)
taken-IsKept p i (pooled n, c) (dials e same) h = absurd (cc)
taken-IsKept p i (connects, c) (skips e same) h = absurd (cc)
taken-IsKept p i (connects, c) (pops conn e same) h = absurd (cc)

-- Where a call ends.
pub finish-idle :
    {T : Type 0} (c : Client) (now conn : ℕ) (r : Result T Text)
    → (((finish c now conn r).1.idle ≡ conn ∷ c.idle) × (length c.idle < 8))
      ⊎ ((finish c now conn r).1.idle ≡ c.idle)
unfolding finish mark_failed
finish-idle c now conn (err e) = inr refl
finish-idle c now conn (ok v) = elim (Bool-cases (ltb (length c.idle) pool_size)) [
  | inl small ↦ inl (rw (finish, small) refl, ground arith)
  | inr full ↦ inr (rw (finish, full) refl)
]

pub stop-IsKept :
    {T : Type 0} (p : Pool) (i now : ℕ) (r : Result T Text) (conn : Option ℕ)
    → p.held i ≡ conn
    → IsKept p
    → IsKept (stop p i now r conn)
stop-IsKept p i now r none own h = h
stop-IsKept p i now r (some conn) own h = elim (finish-idle p.client now conn r) [
  | inl (same, small) ↦
      subst (λ (l : List ℕ). IsExclusive l (at i none p.held) p.next) (sym same)
        (return-IsExclusive p.client.idle p.held p.next i conn own small h)
  | inr same ↦
      subst (λ (l : List ℕ). IsExclusive l (at i none p.held) p.next) (sym same)
        (lose-IsExclusive p.client.idle p.held p.next i h)
]

pub start-IsKept : (p : Pool) (i now : ℕ) (conn : Option ℕ) → IsKept p → IsKept (start p i now conn)
start-IsKept p i now none h = taken-IsKept p i (begin p.client now) (begin-Begun p.client now) h
start-IsKept p i now (some conn) h = h

step-IsKept : (p : Pool) (e : Event) → IsKept p → IsKept (step p e)
unfolding step
step-IsKept p (begins i now) h = start-IsKept p i now (p.held i) h
step-IsKept p (ends i now r) h = stop-IsKept p i now r (p.held i) refl h
step-IsKept p (drops i) h = lose-IsExclusive p.client.idle p.held p.next i h

steps-IsKept : (p : Pool) (events : List Event) → IsKept p → IsKept (steps p events)
unfolding steps
steps-IsKept p [] h = h
steps-IsKept p (e ∷ events) h = steps-IsKept (step p e) events (step-IsKept p e h)

pub opened-IsKept : IsKept opened
opened-IsKept = record {
  distinct = tt;
  below = tt;
  held_below = λ i n e. absurd (cc);
  apart = λ i n e. tt;
  alone = λ i j n e e'. absurd (cc);
  room = omega arith;
}

-- However the calls of a client begin, end and are dropped, no connection is with two calls, or with
-- a call and in the pool, or in the pool twice, and the pool has at most eight.
pub steps-IsShared : (events : List Event) → IsShared (steps opened events)
steps-IsShared events =
    let h = steps-IsKept opened events opened-IsKept in
    record { alone = h.alone; apart = h.apart; distinct = h.distinct; room = h.room }
