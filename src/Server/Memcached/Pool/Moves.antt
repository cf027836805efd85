-- ===== src/Server/Memcached/Pool/Moves.antt =====
-- A connection of a client (server/src/memcached.rs) that changes its place.
use traintime_api.Common.{
  at, ℕ, suc, ◌≤◌, ◌<◌, ◌≡◌, ◌≢◌, ◌⊎◌, refl, sym, ap, ◌∙◌, inl, inr, Option, none, some, List, [],
  ◌∷◌, arith, ==_iff, length, All,
}
use mathlib.Core.Path.{subst}
use traintime_api.Server.Memcached.Pool.{IsOut, IsDistinct}

abbrev IsOpen : ℕ → List ℕ → Type 0
IsOpen next idle = All (λ c. c < next) idle

-- No connection is in two places.
pub record IsExclusive (idle : List ℕ) (held : ℕ → Option ℕ) (next : ℕ) : Type 0 where
  pub distinct : IsDistinct idle
  pub below : IsOpen next idle
  pub held_below : (i n : ℕ) → held i ≡ some n → n < next
  pub apart : (i n : ℕ) → held i ≡ some n → IsOut n idle
  pub alone : (i j n : ℕ) → held i ≡ some n → held j ≡ some n → i ≡ j
  pub room : length idle ≤ 8

pub at-eq-none :
    (i j n : ℕ) (held : ℕ → Option ℕ) → at i none held j ≡ some n → (i ≢ j) × (held j ≡ some n)
at-eq-none i j n held h = ground (arith, ==_iff i j)

at-eq-some :
    (i j m n : ℕ) (held : ℕ → Option ℕ)
    → at i (some m) held j ≡ some n
    → ((i ≡ j) × (m ≡ n)) ⊎ ((i ≢ j) × (held j ≡ some n))
at-eq-some i j m n held h = ground (arith, ==_iff i j)

-- A call loses its connection.
pub lose-IsExclusive :
    (idle : List ℕ) (held : ℕ → Option ℕ) (next i : ℕ)
    → IsExclusive idle held next
    → IsExclusive idle (at i none held) next
lose-IsExclusive idle held next i h = record {
  distinct = h.distinct;
  below = h.below;
  held_below = λ j n e. h.held_below j n (at-eq-none i j n held e).1;
  apart = λ j n e. h.apart j n (at-eq-none i j n held e).1;
  alone = λ j k n e e'. h.alone j k n (at-eq-none i j n held e).1 (at-eq-none i k n held e').1;
  room = h.room;
}

-- A call gives its connection back.
pub return-IsExclusive :
    (idle : List ℕ) (held : ℕ → Option ℕ) (next i conn : ℕ)
    → held i ≡ some conn
    → length idle < 8
    → IsExclusive idle held next
    → IsExclusive (conn ∷ idle) (at i none held) next
return-IsExclusive idle held next i conn own small h = record {
  distinct = (h.apart i conn own, h.distinct);
  below = (h.held_below i conn own, h.below);
  held_below = λ j n e. h.held_below j n (at-eq-none i j n held e).1;
  apart = λ j n e.
      let (other, e') = at-eq-none i j n held e in
      ((λ same. other (h.alone i j n (own ∙ ap some same) e')), h.apart j n e');
  alone = λ j k n e e'. h.alone j k n (at-eq-none i j n held e).1 (at-eq-none i k n held e').1;
  room = omega (arith, small);
}

-- A call comes to hold a connection that nobody has.
place-IsExclusive :
    (idle : List ℕ) (held : ℕ → Option ℕ) (next i m : ℕ)
    → IsOut m idle
    → m < next
    → ((j : ℕ) → held j ≢ some m)
    → IsExclusive idle held next
    → IsExclusive idle (at i (some m) held) next
place-IsExclusive idle held next i m out small nobody h = record {
  distinct = h.distinct;
  below = h.below;
  held_below = λ j n e. elim (at-eq-some i j m n held e) [
    | inl (here, same) ↦ subst (λ (x : ℕ). x < next) same small
    | inr (other, e') ↦ h.held_below j n e'
  ];
  apart = λ j n e. elim (at-eq-some i j m n held e) [
    | inl (here, same) ↦ subst (λ (x : ℕ). IsOut x idle) same out
    | inr (other, e') ↦ h.apart j n e'
  ];
  alone = λ j k n e e'. elim (at-eq-some i j m n held e) [
    | inl (here, same) ↦ elim (at-eq-some i k m n held e') [
      | inl (here', same') ↦ sym here ∙ here'
      | inr (other', f') ↦ absurd (nobody k (f' ∙ ap some (sym same)))
    ]
    | inr (other, f) ↦ elim (at-eq-some i k m n held e') [
      | inl (here', same') ↦ absurd (nobody j (f ∙ ap some (sym same')))
      | inr (other', f') ↦ h.alone j k n f f'
    ]
  ];
  room = h.room;
}

-- A call takes a connection from the pool.
pub take-IsExclusive :
    (idle : List ℕ) (held : ℕ → Option ℕ) (next i conn : ℕ)
    → IsExclusive (conn ∷ idle) held next
    → IsExclusive idle (at i (some conn) held) next
take-IsExclusive idle held next i conn h =
    place-IsExclusive idle held next i conn h.distinct.0 h.below.0
      (λ j e. (h.apart j conn e).0 refl)
      (record {
        distinct = h.distinct.1;
        below = h.below.1;
        held_below = h.held_below;
        apart = λ j n e. (h.apart j n e).1;
        alone = h.alone;
        room = omega (arith, h.room);
      })

IsOpen-suc :
    (next : ℕ) (idle : List ℕ) → IsOpen next idle → IsOpen (suc next) idle × IsOut next idle
IsOpen-suc next [] h = (tt, tt)
IsOpen-suc next (c ∷ idle) (own, h) =
    let (below, out) = IsOpen-suc next idle h in ((omega arith, below), (omega arith, out))

-- A call opens a connection.
pub open-IsExclusive :
    (idle : List ℕ) (held : ℕ → Option ℕ) (next i : ℕ)
    → IsExclusive idle held next
    → IsExclusive idle (at i (some next) held) (suc next)
open-IsExclusive idle held next i h =
    let (below, out) = IsOpen-suc next idle h.below in
    place-IsExclusive idle held (suc next) i next out (omega arith)
      (λ j e. absurd (omega (arith, h.held_below j next e)))
      (record {
        distinct = h.distinct;
        below = below;
        held_below = λ j n e. omega (arith, h.held_below j n e);
        apart = h.apart;
        alone = h.alone;
        room = h.room;
      })
