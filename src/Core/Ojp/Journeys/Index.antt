-- ===== src/Core/Ojp/Journeys/Index.antt =====
-- The place of a journey among the rows of a board (core/src/ojp.rs, `keep_latest_per_journey`).
use traintime_api.Common.{
  ℕ, zero, suc, ◌≡◌, refl, ap, inl, inr, Option, none, some, List, [], ◌∷◌, ◌++◌, map, arith,
  if◌then◌else◌, Bool-cases, Text, text_eq, text_eq_iff, length, get_elem?, set,
}
use traintime_api.Core.Ojp.{FlatDeparture}
use traintime_api.Core.Ojp.Journeys.{Event}
use traintime_api.Core.Ojp.Journeys.Collapse.{later, place}

abbrev pub departures : List Event → List FlatDeparture
departures = map (λ (r : Event). r.1)

pub up : Option ℕ → Option ℕ
up none = none
up (some i) = some (suc i)

-- The place of a journey's row.
unfoldable pub index_of : Text → List Event → Option ℕ
unfolding up
index_of key [] = none
index_of key ((none, d) ∷ rows) = up (index_of key rows)
index_of key ((some j, d) ∷ rows) = if text_eq j key then some 0 else up (index_of key rows)

pub index_of-concat_none :
    (key : Text) (e : FlatDeparture) (rows : List Event)
    → index_of key (rows ++ (none, e) ∷ []) ≡ index_of key rows
unfolding index_of
index_of-concat_none key e [] = refl
index_of-concat_none key e ((none, d) ∷ rows) = ap up (index_of-concat_none key e rows)
index_of-concat_none key e ((some j, d) ∷ rows) =
    ap (λ (i : Option ℕ). if text_eq j key then some 0 else up i) (index_of-concat_none key e rows)

pub set_same {ℓ} :
    {A : Type ℓ} (xs : List A) (i : ℕ) (a : A) → get_elem? xs i ≡ some a → set xs i a ≡ xs
set_same [] i a h = refl
set_same (x ∷ xs) zero a h = ground arith
set_same (x ∷ xs) (suc i) a h = ap (◌∷◌ x) (set_same xs i a h)

pub place_new :
    (key : Text) (e : FlatDeparture) (rows : List Event)
    → index_of key rows ≡ none
    → place key e rows ≡ rows ++ (some key, e) ∷ []
unfolding index_of place
place_new key e [] h = refl
place_new key e ((none, d) ∷ rows) h = ap (◌∷◌ (none, d)) (place_new key e rows (ground arith))
place_new key e ((some j, d) ∷ rows) h = elim (Bool-cases (text_eq j key)) [
  | inl same ↦ absurd (ground arith)
  | inr other ↦ rw other (ap (◌∷◌ (some j, d)) (place_new key e rows (ground arith)))
]

pub place_old :
    (key : Text) (e : FlatDeparture) (rows : List Event) (at : ℕ)
    → index_of key rows ≡ some at
    → (d : FlatDeparture) × (get_elem? (departures rows) at ≡ some d)
      × (departures (place key e rows) ≡ set (departures rows) at (later d e))
unfolding index_of place
place_old key e [] at h = absurd (cc)
place_old key e ((none, d) ∷ rows) zero h = absurd (ground arith)
place_old key e ((none, d) ∷ rows) (suc at) h =
    let (d', found, placed) = place_old key e rows at (ground arith) in
    (d', found, ap (◌∷◌ d) placed)
place_old key e ((some j, d) ∷ rows) zero h = elim (Bool-cases (text_eq j key)) [
  | inl same ↦ (d, refl, rw same refl)
  | inr other ↦ absurd (ground arith)
]
place_old key e ((some j, d) ∷ rows) (suc at) h = elim (Bool-cases (text_eq j key)) [
  | inl same ↦ absurd (ground arith)
  | inr other ↦
      let (d', found, placed) = place_old key e rows at (ground arith) in
      (d', found, rw other (ap (◌∷◌ d) placed))
]

pub index_of-place_old :
    (key k : Text) (e : FlatDeparture) (rows : List Event) (at : ℕ)
    → index_of key rows ≡ some at
    → index_of k (place key e rows) ≡ index_of k rows
unfolding index_of place
index_of-place_old key k e [] at h = absurd (cc)
index_of-place_old key k e ((none, d) ∷ rows) zero h = absurd (ground arith)
index_of-place_old key k e ((none, d) ∷ rows) (suc at) h =
    ap up (index_of-place_old key k e rows at (ground arith))
index_of-place_old key k e ((some j, d) ∷ rows) zero h = elim (Bool-cases (text_eq j key)) [
  | inl same ↦ rw same refl
  | inr other ↦ absurd (ground arith)
]
index_of-place_old key k e ((some j, d) ∷ rows) (suc at) h = elim (Bool-cases (text_eq j key)) [
  | inl same ↦ absurd (ground arith)
  | inr other ↦ rw other (
      ap (λ (i : Option ℕ). if text_eq j k then some 0 else up i)
        (index_of-place_old key k e rows at (ground arith)))
]

pub index_of-concat_new :
    (key k : Text) (e : FlatDeparture) (rows : List Event)
    → index_of key rows ≡ none
    → index_of k (rows ++ (some key, e) ∷ [])
      ≡ (if text_eq key k then some (length (departures rows)) else index_of k rows)
unfolding index_of
index_of-concat_new key k e [] h = refl
index_of-concat_new key k e ((none, d) ∷ rows) h = ground (arith, index_of-concat_new key k e rows)
index_of-concat_new key k e ((some j, d) ∷ rows) h =
    ground (
      arith,
      index_of-concat_new key k e rows,
      text_eq_iff j key,
      text_eq_iff key k,
      text_eq_iff j k,
    )
