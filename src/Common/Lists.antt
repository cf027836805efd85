-- ===== src/Common/Lists.antt =====
-- Lists with native lengths and Boolean predicates.
use mathlib.Core.Path.{◌≡◌, refl, ap}
use mathlib.Core.Logic.{◌⊎◌, inl, inr}
use mathlib.Core.Bool.{Bool, true, false, ◌||◌, ◌&&◌}
use mathlib.Core.Option.{Option, none, some}
use mathlib.Core.List.{List, [], ◌∷◌, ◌++◌}
use native.Mathlib.Omega.{arith}
use Prim.Native.Nat.{◌≤◌, ◌+◌, ℕ, suc, zero}
use traintime_api.Common.Tests.{if◌then◌else◌}

module _ {ℓ} {A : Type ℓ} where
  abbrev pub length : List A → ℕ
  length (_ ∷ l) = suc (length l)
  length [] = 0

  abbrev pub get_elem? : List A → ℕ → Option A
  get_elem? [] i = none
  get_elem? (x ∷ xs) zero = some x
  get_elem? (x ∷ xs) (suc i) = get_elem? xs i

  -- A write out of bounds changes nothing.
  abbrev pub set : List A → ℕ → A → List A
  set [] i v = []
  set (x ∷ xs) zero v = v ∷ xs
  set (x ∷ xs) (suc i) v = x ∷ set xs i v

  abbrev pub take : ℕ → List A → List A
  take (suc n) (x ∷ xs) = x ∷ take n xs
  take _ _ = []

  abbrev pub drop : ℕ → List A → List A
  drop (suc n) (x ∷ xs) = drop n xs
  drop _ l = l

  -- `Iterator::filter`, `any`, `all`, `find` and `slice::first`.
  abbrev pub filter : (A → Bool) → List A → List A
  filter p [] = []
  filter p (x ∷ xs) = if p x then x ∷ filter p xs else filter p xs

  abbrev pub any : (A → Bool) → List A → Bool
  any p [] = false
  any p (x ∷ xs) = p x || any p xs

  abbrev pub all : (A → Bool) → List A → Bool
  all p [] = true
  all p (x ∷ xs) = p x && all p xs

  abbrev pub find? : (A → Bool) → List A → Option A
  find? p [] = none
  find? p (x ∷ xs) = if p x then some x else find? p xs

  abbrev pub first : List A → Option A
  first [] = none
  first (x ∷ xs) = some x

  abbrev pub is_empty : List A → Bool
  is_empty [] = true
  is_empty (x ∷ xs) = false

  pub length-append : (xs ys : List A) → length (xs ++ ys) ≡ length xs + length ys
  length-append [] ys = omega arith
  length-append (x ∷ xs) ys = omega (arith, length-append xs ys)

  -- At most what was asked for.
  pub length-take-le : (limit : ℕ) (l : List A) → length (take limit l) ≤ limit
  length-take-le zero l = omega arith
  length-take-le (suc limit) [] = omega arith
  length-take-le (suc limit) (a ∷ l) = ground (arith, length-take-le limit l)

  pub take-append : (xs ys : List A) → take (length xs) (xs ++ ys) ≡ xs
  take-append [] ys = refl
  take-append (x ∷ xs) ys = ap (◌∷◌ x) (take-append xs ys)

  pub drop-append : (xs ys : List A) → drop (length xs) (xs ++ ys) ≡ ys
  drop-append [] ys = refl
  drop-append (x ∷ xs) ys = drop-append xs ys

  pub take-append-drop : (n : ℕ) (xs : List A) → take n xs ++ drop n xs ≡ xs
  take-append-drop (suc n) (x ∷ xs) = ap (◌∷◌ x) (take-append-drop n xs)
  take-append-drop _ _ = refl

  filter-append : (p : A → Bool) (xs ys : List A) → filter p (xs ++ ys) ≡ filter p xs ++ filter p ys
  filter-append p [] ys = refl
  filter-append p (x ∷ xs) ys = ground (arith, filter-append p xs ys)

-- Membership by recursion, which the tactics take apart.
module _ {A : Type 0} where
  abbrev pub Elem : A → List A → Type 0
  Elem a [] = ⊥
  Elem a (x ∷ xs) = (a ≡ x) ⊎ Elem a xs

  pub Elem-append_left : (a : A) (xs ys : List A) → Elem a xs → Elem a (xs ++ ys)
  Elem-append_left a [] ys m = elim m [ ]
  Elem-append_left a (x ∷ xs) ys m = ground (arith, Elem-append_left a xs ys)

  pub Elem-append_right : (a : A) (xs ys : List A) → Elem a ys → Elem a (xs ++ ys)
  Elem-append_right a [] ys m = m
  Elem-append_right a (x ∷ xs) ys m = inr (Elem-append_right a xs ys m)

  pub Elem-append : (a : A) (xs ys : List A) → Elem a (xs ++ ys) → Elem a xs ⊎ Elem a ys
  Elem-append a [] ys m = inr m
  Elem-append a (x ∷ xs) ys m = ground (arith, Elem-append a xs ys)

  pub Elem-take : (n : ℕ) (a : A) (xs : List A) → Elem a (take n xs) → Elem a xs
  Elem-take (suc n) a (x ∷ xs) (inl e) = inl e
  Elem-take (suc n) a (x ∷ xs) (inr m) = inr (Elem-take n a xs m)
  Elem-take zero a xs m = elim m [ ]
  Elem-take (suc n) a [] m = elim m [ ]

  Elem-filter :
      (p : A → Bool) (a : A) (xs : List A) → Elem a (filter p xs) → Elem a xs × (p a ≡ true)
  Elem-filter p a [] m = elim m [ ]
  Elem-filter p a (x ∷ xs) m = ground (arith, Elem-filter p a xs)

  Elem-filter_of :
      (p : A → Bool) (a : A) (xs : List A) → Elem a xs → p a ≡ true → Elem a (filter p xs)
  Elem-filter_of p a [] m h = elim m [ ]
  Elem-filter_of p a (x ∷ xs) m h = ground (arith, Elem-filter_of p a xs)

module _ {ℓ κ} {A : Type ℓ} (P : A → Type κ) where
  abbrev pub All : List A → Type κ
  All [] = Unit
  All (x ∷ xs) = P x × All xs

  pub All-append : (xs ys : List A) → All xs → All ys → All (xs ++ ys)
  All-append [] ys h k = k
  All-append (x ∷ xs) ys (p, h) k = (p, All-append xs ys h k)

  pub All-take : (n : ℕ) (xs : List A) → All xs → All (take n xs)
  All-take (suc n) (x ∷ xs) (p, h) = (p, All-take n xs h)
  All-take zero xs h = tt
  All-take (suc n) [] h = tt

pub All-Elem {κ} : {A : Type 0} (P : A → Type κ) (xs : List A) (a : A) → All P xs → Elem a xs → P a
All-Elem P [] a h m = elim m [ ]
All-Elem P (x ∷ xs) a h (inl e) = rw e h.0
All-Elem P (x ∷ xs) a h (inr m) = All-Elem P xs a h.1 m

pub All-of_Elem {κ} :
    {A : Type 0} (P : A → Type κ) (xs : List A) → ((a : A) → Elem a xs → P a) → All P xs
All-of_Elem P [] h = tt
All-of_Elem P (x ∷ xs) h = (h x (inl refl), All-of_Elem P xs (λ a m. h a (inr m)))

pub filter-eq_self {ℓ} :
    {A : Type ℓ} (p : A → Bool) (xs : List A) → ((a : A) → p a ≡ true) → filter p xs ≡ xs
filter-eq_self p [] h = refl
filter-eq_self p (x ∷ xs) h = rw (filter, h x, filter-eq_self p xs h) refl
