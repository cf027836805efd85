-- ===== src/Common/Sort.antt =====
-- `slice::sort_by_key` with an `i64` key: the stable sort, as insertion from the right.
use mathlib.Core.List.{List, [], ◌∷◌, Perm}
use mathlib.Core.List.Perm
use native.Mathlib.Omega.{arith}
use traintime_api.Common.Tests.{if◌then◌else◌, Bool-cases}
use mathlib.Core.Logic.{◌⊎◌, inl, inr}
use mathlib.Core.Path.{◌≡◌, refl, ap, ◌∙◌}
use Prim.Native.Nat.{ℕ, zero, suc}
use traintime_api.Common.Lists.{All, All-Elem, All-take, take, Elem, length}
use traintime_api.Common.Int.{ℤ, leb_ℤ, ◌≤ℤ◌}

module _ {ℓ} {A : Type ℓ} (key : A → ℤ) where
  insert_sorted : A → List A → List A
  insert_sorted x [] = x ∷ []
  insert_sorted x (y ∷ ys) = if leb_ℤ (key x) (key y) then x ∷ y ∷ ys else y ∷ insert_sorted x ys

  unfoldable pub sort_by_key : List A → List A
  unfolding insert_sorted
  sort_by_key [] = []
  sort_by_key (x ∷ xs) = insert_sorted x (sort_by_key xs)

  -- Each element is at most every later one.
  abbrev pub IsSorted : List A → Type 0
  IsSorted [] = Unit
  IsSorted (x ∷ xs) = All (λ y. key x ≤ℤ key y) xs × IsSorted xs

  insert_sorted-perm : (x : A) (ys : List A) → Perm (insert_sorted x ys) (x ∷ ys)
  unfolding insert_sorted
  insert_sorted-perm x [] = Perm.refl _
  insert_sorted-perm x (y ∷ ys) = elim (Bool-cases (leb_ℤ (key x) (key y))) [
    | inl le ↦ rw le (Perm.refl _)
    | inr gt ↦ rw gt (Perm.trans (Perm.cons y (insert_sorted-perm x ys)) (Perm.swap x y ys))
  ]

  sort_by_key-perm : (xs : List A) → Perm (sort_by_key xs) xs
  unfolding sort_by_key
  sort_by_key-perm [] = Perm.refl _
  sort_by_key-perm (x ∷ xs) =
      Perm.trans (insert_sorted-perm x (sort_by_key xs)) (Perm.cons x (sort_by_key-perm xs))

  insert_sorted-All {κ} :
      (P : A → Type κ) (x : A) (ys : List A) → P x → All P ys → All P (insert_sorted x ys)
  unfolding insert_sorted
  insert_sorted-All P x [] p h = (p, tt)
  insert_sorted-All P x (y ∷ ys) p (q, h) = elim (Bool-cases (leb_ℤ (key x) (key y))) [
    | inl le ↦ rw le (p, (q, h))
    | inr gt ↦ rw gt (q, insert_sorted-All P x ys p h)
  ]

  -- What holds of every element holds of every element of the sorted list.
  pub sort_by_key-All {κ} : (P : A → Type κ) (xs : List A) → All P xs → All P (sort_by_key xs)
  unfolding sort_by_key
  sort_by_key-All P [] h = tt
  sort_by_key-All P (x ∷ xs) (p, h) =
      insert_sorted-All P x (sort_by_key xs) p (sort_by_key-All P xs h)

  below_trans :
      (x y : A) (ys : List A)
      → key x ≤ℤ key y
      → All (λ z. key y ≤ℤ key z) ys
      → All (λ z. key x ≤ℤ key z) ys
  below_trans x y [] h k = tt
  below_trans x y (z ∷ ys) h (p, k) = (omega arith, below_trans x y ys h k)

  insert_sorted-IsSorted : (x : A) (ys : List A) → IsSorted ys → IsSorted (insert_sorted x ys)
  unfolding insert_sorted
  insert_sorted-IsSorted x [] s = (tt, tt)
  insert_sorted-IsSorted x (y ∷ ys) (below, s) = elim (Bool-cases (leb_ℤ (key x) (key y))) [
    | inl le ↦
        rw le
          (let h : key x ≤ℤ key y = ground arith in ((h, below_trans x y ys h below), (below, s)))
    | inr gt ↦ rw gt (
      insert_sorted-All (λ z. key y ≤ℤ key z) x ys (ground arith) below,
      insert_sorted-IsSorted x ys s,
    )
  ]

  pub sort_by_key-IsSorted : (xs : List A) → IsSorted (sort_by_key xs)
  unfolding sort_by_key
  sort_by_key-IsSorted [] = tt
  sort_by_key-IsSorted (x ∷ xs) =
      insert_sorted-IsSorted x (sort_by_key xs) (sort_by_key-IsSorted xs)

module _ {A : Type 0} (key : A → ℤ) where
  Elem-insert_sorted :
      (a x : A) (ys : List A) → (a ≡ x) ⊎ Elem a ys → Elem a (insert_sorted key x ys)
  unfolding insert_sorted
  Elem-insert_sorted a x [] m = m
  Elem-insert_sorted a x (y ∷ ys) m = elim (Bool-cases (leb_ℤ (key x) (key y))) [
    | inl le ↦ rw le m
    | inr gt ↦ rw gt (ground (arith, Elem-insert_sorted a x ys))
  ]

  -- Sorting loses no element.
  pub Elem-sort_by_key : (a : A) (xs : List A) → Elem a xs → Elem a (sort_by_key key xs)
  unfolding sort_by_key
  Elem-sort_by_key a [] m = m
  Elem-sort_by_key a (x ∷ xs) m =
      Elem-insert_sorted a x (sort_by_key key xs) (ground (arith, Elem-sort_by_key a xs))

  Elem-of_insert_sorted :
      (a x : A) (ys : List A) → Elem a (insert_sorted key x ys) → (a ≡ x) ⊎ Elem a ys
  unfolding insert_sorted
  Elem-of_insert_sorted a x [] m = m
  Elem-of_insert_sorted a x (y ∷ ys) m = ground (arith, Elem-of_insert_sorted a x ys)

  -- Sorting adds no element.
  pub Elem-of_sort_by_key : (a : A) (xs : List A) → Elem a (sort_by_key key xs) → Elem a xs
  unfolding sort_by_key
  Elem-of_sort_by_key a [] m = m
  Elem-of_sort_by_key a (x ∷ xs) m =
      ground (arith, Elem-of_insert_sorted a x (sort_by_key key xs) m, Elem-of_sort_by_key a xs)

  length-insert_sorted : (x : A) (ys : List A) → length (insert_sorted key x ys) ≡ suc (length ys)
  unfolding insert_sorted
  length-insert_sorted x [] = refl
  length-insert_sorted x (y ∷ ys) = ground (arith, length-insert_sorted x ys)

  pub length-sort_by_key : (xs : List A) → length (sort_by_key key xs) ≡ length xs
  unfolding sort_by_key
  length-sort_by_key [] = refl
  length-sort_by_key (x ∷ xs) =
      length-insert_sorted x (sort_by_key key xs) ∙ ap suc (length-sort_by_key xs)

  -- The first `n` of a sorted list hold an element, or they are `n` elements at most as large.
  pub take-Elem_of_IsSorted :
      (n : ℕ) (a : A) (xs : List A)
      → IsSorted key xs
      → Elem a xs
      → Elem a (take n xs) ⊎ ((length (take n xs) ≡ n) × All (λ x. key x ≤ℤ key a) (take n xs))
  take-Elem_of_IsSorted n a [] s m = elim m [ ]
  take-Elem_of_IsSorted zero a (x ∷ xs) s m = inr (refl, tt)
  take-Elem_of_IsSorted (suc n) a (x ∷ xs) s (inl e) = inl (inl e)
  take-Elem_of_IsSorted (suc n) a (x ∷ xs) s (inr m) = elim (take-Elem_of_IsSorted n a xs s.1 m) [
    | inl shown ↦ inl (inr shown)
    | inr (full, below) ↦ inr (ap suc full, (All-Elem (λ y. key x ≤ℤ key y) xs a s.0 m, below))
  ]

  pub take-IsSorted : (n : ℕ) (xs : List A) → IsSorted key xs → IsSorted key (take n xs)
  take-IsSorted (suc n) (x ∷ xs) s =
      (All-take (λ y. key x ≤ℤ key y) n xs s.0, take-IsSorted n xs s.1)
  take-IsSorted zero xs s = tt
  take-IsSorted (suc n) [] s = tt
