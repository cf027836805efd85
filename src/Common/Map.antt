-- ===== src/Common/Map.antt =====
-- `HashMap<String, V>` as an association list with one entry for a key.
use Prim.Native.Nat.{◌+◌, ◌≤◌}
use mathlib.Core.Path.{◌≡◌, refl, sym, subst}
use mathlib.Core.Logic.{inl, inr}
use mathlib.Core.Bool.{Bool, false}
use mathlib.Core.Option.{Option, none, some}
use mathlib.Core.List.{List, [], ◌∷◌}
use native.Mathlib.Omega.{arith}
use traintime_api.Common.Tests.{if◌then◌else◌, Bool-cases}
use traintime_api.Common.Lists.{length, All}
use traintime_api.Common.Texts.{Text, text_eq, text_eq_iff, text_eq_refl}

module _ {ℓ} {V : Type ℓ} where
  unfoldable pub lookup : Text → List (Text × V) → Option V
  lookup name [] = none
  lookup name (entry ∷ rest) = if text_eq entry.0 name then some entry.1 else lookup name rest

  -- In place where the name is there, else at the end.
  unfoldable pub insert : Text → V → List (Text × V) → List (Text × V)
  insert name v [] = (name, v) ∷ []
  insert name v ((other, w) ∷ rest) =
      if text_eq other name then (other, v) ∷ rest else (other, w) ∷ insert name v rest

  unfoldable pub remove : Text → List (Text × V) → List (Text × V)
  remove k [] = []
  remove k ((j, w) ∷ m) = if text_eq j k then remove k m else (j, w) ∷ remove k m

  -- `HashMap::retain` by a test on the value.
  unfoldable pub retain : (V → Bool) → List (Text × V) → List (Text × V)
  retain p [] = []
  retain p ((j, w) ∷ m) = if p w then (j, w) ∷ retain p m else retain p m

  pub lookup-insert :
      (k j : Text) (v : V) (m : List (Text × V))
      → lookup j (insert k v m) ≡ (if text_eq k j then some v else lookup j m)
  unfolding lookup insert
  lookup-insert k j v (entry ∷ rest) = ground (
    lookup-insert k j v rest,
    text_eq_iff entry.0 j,
    text_eq_iff entry.0 k,
    text_eq_iff k j,
    arith,
  )
  lookup-insert k j v [] = refl

  pub lookup-insert_self :
      (k : Text) (v : V) (m : List (Text × V)) → lookup k (insert k v m) ≡ some v
  lookup-insert_self k v m = ground (text_eq_refl k, lookup-insert k k v m, arith)

  pub lookup-remove :
      (k j : Text) (m : List (Text × V))
      → lookup j (remove k m) ≡ (if text_eq k j then none else lookup j m)
  unfolding lookup remove
  lookup-remove k j [] = ground arith
  lookup-remove k j ((i, w) ∷ m) =
      ground (arith, text_eq_iff k j, text_eq_iff i k, text_eq_iff i j, lookup-remove k j m)

  -- No key has two entries.
  abbrev IsFreshKey : Text → List (Text × V) → Type 0
  IsFreshKey k [] = Unit
  IsFreshKey k ((j, w) ∷ m) = (text_eq j k ≡ false) × IsFreshKey k m

  abbrev pub HasDistinctKeys : List (Text × V) → Type 0
  HasDistinctKeys [] = Unit
  HasDistinctKeys ((j, w) ∷ m) = IsFreshKey j m × HasDistinctKeys m

  IsFreshKey-lookup : (k : Text) (m : List (Text × V)) → IsFreshKey k m → lookup k m ≡ none
  unfolding lookup
  IsFreshKey-lookup k [] h = refl
  IsFreshKey-lookup k ((j, w) ∷ m) h = ground (arith, IsFreshKey-lookup k m h.1)

  IsFreshKey-insert :
      (i k : Text) (v : V) (m : List (Text × V))
      → text_eq k i ≡ false
      → IsFreshKey i m
      → IsFreshKey i (insert k v m)
  unfolding insert
  IsFreshKey-insert i k v [] d h = (d, tt)
  IsFreshKey-insert i k v ((j, w) ∷ m) d h = ground (arith, IsFreshKey-insert i k v m d h.1)

  pub insert-HasDistinctKeys :
      (k : Text) (v : V) (m : List (Text × V)) → HasDistinctKeys m → HasDistinctKeys (insert k v m)
  unfolding insert
  insert-HasDistinctKeys k v [] h = (tt, tt)
  insert-HasDistinctKeys k v ((j, w) ∷ m) h = ground (
    arith,
    insert-HasDistinctKeys k v m h.1,
    IsFreshKey-insert j k v m,
    text_eq_iff j k,
    text_eq_iff k j,
  )

  IsFreshKey-retain :
      (p : V → Bool) (i : Text) (m : List (Text × V)) → IsFreshKey i m → IsFreshKey i (retain p m)
  unfolding retain
  IsFreshKey-retain p i [] h = tt
  IsFreshKey-retain p i ((j, w) ∷ m) h = ground (arith, IsFreshKey-retain p i m h.1)

  pub retain-HasDistinctKeys :
      (p : V → Bool) (m : List (Text × V)) → HasDistinctKeys m → HasDistinctKeys (retain p m)
  unfolding retain
  retain-HasDistinctKeys p [] h = tt
  retain-HasDistinctKeys p ((j, w) ∷ m) h =
      ground (arith, retain-HasDistinctKeys p m h.1, IsFreshKey-retain p j m h.0)

  -- With one entry for a key, `retain` keeps the entry of a key exactly if its value passes.
  pub lookup-retain :
      (p : V → Bool) (k : Text) (m : List (Text × V))
      → HasDistinctKeys m
      → lookup k (retain p m)
        ≡ elim (lookup k m) [ none ↦ none | some v ↦ if p v then some v else none ]
  unfolding lookup retain
  lookup-retain p k [] h = refl
  lookup-retain p k ((j, w) ∷ m) h =
      ground (arith, lookup-retain p k m h.1, IsFreshKey-lookup j m h.0, text_eq_iff j k)

  length-insert-le : (k : Text) (v : V) (m : List (Text × V)) → length (insert k v m) ≤ length m + 1
  unfolding insert
  length-insert-le k v [] = omega arith
  length-insert-le k v ((j, w) ∷ m) = ground (arith, length-insert-le k v m)

-- A property of every entry.
module _ {ℓ} {V : Type ℓ} (P : Text × V → Type 0) where
  pub All-insert :
      (k : Text) (v : V) (m : List (Text × V)) → P (k, v) → All P m → All P (insert k v m)
  unfolding insert
  All-insert k v [] new h = (new, tt)
  All-insert k v ((j, w) ∷ m) new (old, h) = elim (Bool-cases (text_eq j k)) [
    | inl same ↦
        rw (insert, same) (subst (λ (i : Text). P (i, v)) (sym ((text_eq_iff j k).0 same)) new, h)
    | inr other ↦ rw (insert, other) (old, All-insert k v m new h)
  ]

  pub All-retain : (p : V → Bool) (m : List (Text × V)) → All P m → All P (retain p m)
  unfolding retain
  All-retain p [] h = tt
  All-retain p ((j, w) ∷ m) (old, h) = elim (Bool-cases (p w)) [
    | inl stays ↦ rw (retain, stays) (old, All-retain p m h)
    | inr goes ↦ rw (retain, goes) (All-retain p m h)
  ]

  pub All-lookup :
      (k : Text) (v : V) (m : List (Text × V)) → All P m → lookup k m ≡ some v → P (k, v)
  unfolding lookup
  All-lookup k v [] h found = absurd (cc)
  All-lookup k v ((j, w) ∷ m) (own, h) found = elim (Bool-cases (text_eq j k)) [
    | inl same ↦
        let e : w ≡ v = ground arith in
        subst (λ (u : V). P (k, u)) e
          (subst (λ (i : Text). P (i, w)) ((text_eq_iff j k).0 same) own)
    | inr other ↦ All-lookup k v m h (ground arith)
  ]
