-- ===== src/Core/Favourites/Laws.antt =====
-- What parsing and picking favourites give.
use traintime_api.Common.{
  ℕ, zero, suc, ◌+◌, ◌≤◌, ◌≡◌, refl, ap, ◌∙◌, ◌≢◌, ◌⊎◌, inl, inr, ◌||◌, Option, none, some, List,
  [], ◌∷◌, ◌++◌, arith, if◌then◌else◌, ◌==◌, Bool-cases, Option-cases, length, take, drop, find?,
  is_empty, Elem, All, Text, text_eq_iff, Lacks, split_first, split_last, split, trim, find,
  sort_by_key, IsSorted, sort_by_key-IsSorted, length-sort_by_key, sort_by_key-All,
  Elem-sort_by_key, take-append-drop, take-append, length-take-le,
}
use mathlib.Core.Path.{subst, ap₂}
use traintime_api.Core.Ojp.{FlatDeparture}
use traintime_api.Core.Favourites.{
  parse_pair, filter_pairs, parse_favourites, is_match, first_matches, partition_favourites,
}

-- `find` splits a text at the first occurrence.
find_split :
    (c : ℕ) (s : Text) (i : ℕ)
    → find c s ≡ some i
    → (s ≡ take i s ++ c ∷ drop (suc i) s) × Lacks c (take i s)
unfolding find
find_split c [] i h = absurd (cc)
find_split c (d ∷ s) zero h = elim (Bool-cases (c == d)) [
  | inl same ↦ (ground arith, tt)
  | inr other ↦ absurd (ground arith)
]
find_split c (d ∷ s) (suc i) h = elim (Bool-cases (c == d)) [
  | inl same ↦ absurd (ground arith)
  | inr other ↦
      let (split_at, lacks) = find_split c s i (ground arith) in
      (ap (◌∷◌ d) split_at, (ground arith, lacks))
]

find_first : (c : ℕ) (s rest : Text) → Lacks c s → find c (s ++ c ∷ rest) ≡ some (length s)
unfolding find
find_first c [] rest h = ground arith
find_first c (d ∷ s) rest h = ground (arith, find_first c s rest h.1)

-- A pair is what stands round the first colon of the trimmed text, with neither side empty.
parse_pair-eq-some :
    (raw line dest : Text)
    → parse_pair raw ≡ some (line, dest)
    → (trim raw ≡ line ++ b':' ∷ dest) × Lacks b':' line × (line ≢ []) × (dest ≢ [])
unfolding parse_pair
parse_pair-eq-some raw line dest h = elim (Option-cases (find b':' (trim raw))) [
  | inl missing ↦ absurd (ground arith)
  | inr (i, found) ↦
      let (split_at, lacks) = find_split b':' (trim raw) i found in
      let e : i + 1 ≡ suc i = omega arith in
      let l : take i (trim raw) ≡ line = ground arith in
      let d : drop (suc i) (trim raw) ≡ dest = ground arith in
      (
        split_at ∙ ap₂ (λ (x y : Text). x ++ b':' ∷ y) l d,
        subst (Lacks b':') l lacks,
        ground arith,
        ground arith,
      )
]

find?-eq-some :
    (line dest : Text) (ds : List FlatDeparture) (d : FlatDeparture)
    → find? (is_match line dest) ds ≡ some d
    → Elem d ds × (d.number ≡ line) × (d.to ≡ dest)
find?-eq-some line dest [] d h = absurd (cc)
find?-eq-some line dest (x ∷ ds) d h =
    ground (arith, find?-eq-some line dest ds d, text_eq_iff x.number line, text_eq_iff x.to dest)

-- The favourites of a board: matches of the pairs, by departure, and one for every pair that
-- matches at all.
pub record IsPicked (ds : List FlatDeparture) (pairs : List (Text × Text))
    (favs : List FlatDeparture) : Type 0 where
  pub ascending : IsSorted (λ (d : FlatDeparture). d.departure) favs
  pub sound : All (λ (d : FlatDeparture). Elem d ds × Elem (d.number, d.to) pairs) favs
  pub first :
      All
        (λ (d : FlatDeparture).
          (p : Text × Text) × Elem p pairs × (find? (is_match p.0 p.1) ds ≡ some d))
        favs
  few : length favs ≤ length pairs
  pub complete :
      All
        (λ (p : Text × Text).
          (find? (is_match p.0 p.1) ds ≡ none)
          ⊎ ((d : FlatDeparture) × (find? (is_match p.0 p.1) ds ≡ some d) × Elem d favs))
        pairs

first_matches_sound :
    (ds : List FlatDeparture) (pairs all : List (Text × Text))
    → ((p : Text × Text) → Elem p pairs → Elem p all)
    → All (λ (d : FlatDeparture). Elem d ds × Elem (d.number, d.to) all) (first_matches ds pairs)
unfolding first_matches
first_matches_sound ds [] all sub = tt
first_matches_sound ds ((line, dest) ∷ pairs) all sub =
    let rest = first_matches_sound ds pairs all (λ p m. sub p (inr m)) in
    elim (Option-cases (find? (is_match line dest) ds)) [
      | inl missing ↦ rw (missing, All) rest
      | inr (d, found) ↦
          let (m, number, to) = find?-eq-some line dest ds d found in
          rw (found, All) ((m, rw (number, to) (sub (line, dest) (inl refl))), rest)
    ]

first_matches_first :
    (ds : List FlatDeparture) (pairs all : List (Text × Text))
    → ((p : Text × Text) → Elem p pairs → Elem p all)
    → All
        (λ (d : FlatDeparture).
          (p : Text × Text) × Elem p all × (find? (is_match p.0 p.1) ds ≡ some d))
        (first_matches ds pairs)
unfolding first_matches
first_matches_first ds [] all sub = tt
first_matches_first ds ((line, dest) ∷ pairs) all sub =
    let rest = first_matches_first ds pairs all (λ p m. sub p (inr m)) in
    elim (Option-cases (find? (is_match line dest) ds)) [
      | inl missing ↦ rw (missing, All) rest
      | inr (d, found) ↦
          rw (first_matches, found, All) (((line, dest), sub (line, dest) (inl refl), found), rest)
    ]

length-first_matches :
    (ds : List FlatDeparture) (pairs : List (Text × Text))
    → length (first_matches ds pairs) ≤ length pairs
unfolding first_matches
length-first_matches ds [] = omega arith
length-first_matches ds ((line, dest) ∷ pairs) =
    let rest = length-first_matches ds pairs in
    elim (Option-cases (find? (is_match line dest) ds)) [
      | inl missing ↦ rw (first_matches, missing) (omega arith)
      | inr (d, found) ↦ rw (first_matches, found) (omega arith)
    ]

first_matches_complete :
    (ds : List FlatDeparture) (pairs : List (Text × Text)) (favs : List FlatDeparture)
    → ((d : FlatDeparture) → Elem d (first_matches ds pairs) → Elem d favs)
    → All
        (λ (p : Text × Text).
          (find? (is_match p.0 p.1) ds ≡ none)
          ⊎ ((d : FlatDeparture) × (find? (is_match p.0 p.1) ds ≡ some d) × Elem d favs))
        pairs
unfolding first_matches
first_matches_complete ds [] favs sub = tt
first_matches_complete ds ((line, dest) ∷ pairs) favs sub =
    elim (Option-cases (find? (is_match line dest) ds)) [
      | inl missing ↦ (
        inl missing,
        first_matches_complete ds pairs favs (λ d m. sub d (rw (missing, first_matches) m)),
      )
      | inr (d, found) ↦ (
        inr (d, found, sub d (rw (found, first_matches) (inl refl))),
        first_matches_complete ds pairs favs (λ e m. sub e (rw (found, first_matches) (inr m))),
      )
    ]

-- The favourites are sorted by departure, each the first row of the board that matches some pair, at
-- most as many as the pairs, and hold the first match of every pair that has one; the rest is the
-- first `limit` rows of the board.
pub partition_favourites-IsPicked :
    (ds : List FlatDeparture) (pairs : List (Text × Text)) (limit : ℕ)
    → IsPicked ds pairs (partition_favourites ds pairs limit).0
      × ((partition_favourites ds pairs limit).1 ++ drop limit ds ≡ ds)
      × (length (partition_favourites ds pairs limit).1 ≤ limit)
unfolding partition_favourites
partition_favourites-IsPicked ds pairs limit =
    let key = λ (d : FlatDeparture). d.departure in
    (
      record {
        ascending = sort_by_key-IsSorted key (first_matches ds pairs);
        sound = sort_by_key-All key _ _ (first_matches_sound ds pairs pairs (λ p m. m));
        first = sort_by_key-All key _ _ (first_matches_first ds pairs pairs (λ p m. m));
        few =
            omega (
              arith,
              length-sort_by_key key (first_matches ds pairs),
              length-first_matches ds pairs,
            );
        complete =
            first_matches_complete ds pairs (sort_by_key key (first_matches ds pairs))
              (λ d m. Elem-sort_by_key key d (first_matches ds pairs) m);
      },
      take-append-drop limit ds,
      length-take-le limit ds,
    )

-- `line:dest`, as a client writes a favourite.
abbrev write_pair : Text × Text → Text
write_pair (line, dest) = line ++ b':' ∷ dest

-- The favourites as the client joins them by commas.
abbrev pub write_favourites : List (Text × Text) → Text
write_favourites [] = []
write_favourites (p ∷ []) = write_pair p
write_favourites (p ∷ q ∷ ps) = write_pair p ++ b',' ∷ write_favourites (q ∷ ps)

-- A pair that survives: no comma, no colon in the line, neither side empty, no white space at the
-- ends.
abbrev IsPlain : Text × Text → Type 0
IsPlain (line, dest) =
    Lacks b':' line
    × Lacks b',' (write_pair (line, dest))
    × (line ≢ [])
    × (dest ≢ [])
    × (trim (write_pair (line, dest)) ≡ write_pair (line, dest))

drop_after : (s : Text) (c : ℕ) (rest : Text) → drop (suc (length s)) (s ++ c ∷ rest) ≡ rest
drop_after [] c rest = refl
drop_after (d ∷ s) c rest = drop_after s c rest

parse_pair-write_pair :
    (line dest : Text)
    → IsPlain (line, dest)
    → parse_pair (write_pair (line, dest)) ≡ some (line, dest)
unfolding parse_pair
parse_pair-write_pair line dest (no_colon, no_comma, l, d, trimmed) =
    let e : length line + 1 ≡ suc (length line) = omega arith in
    rw (trimmed, find_first b':' line dest no_colon, parse_pair)
      (rw (trimmed, e, take-append line (b':' ∷ dest), drop_after line b':' dest)
        (both_filled line dest l d))
  where
    both_filled :
        (x y : Text)
        → x ≢ []
        → y ≢ []
        → ◌≡◌ {A = Option (Text × Text)}
            (if is_empty x || is_empty y then none else some (x, y))
            (some (x, y))
    both_filled [] y p q = absurd (p refl)
    both_filled (a ∷ x) [] p q = absurd (q refl)
    both_filled (a ∷ x) (b ∷ y) p q = refl

parse_favourites_nil : parse_favourites [] ≡ []
unfolding parse_favourites split find trim
parse_favourites_nil = refl

-- What a client writes is what the server reads.
pub parse_favourites-write_favourites :
    (pairs : List (Text × Text))
    → All IsPlain pairs
    → parse_favourites (write_favourites pairs) ≡ pairs
unfolding parse_favourites
parse_favourites-write_favourites [] h = parse_favourites_nil
parse_favourites-write_favourites (p ∷ []) h =
    rw (split_last b',' (write_pair p) h.0.1, filter_pairs)
      (rw (parse_pair-write_pair p.0 p.1 h.0, filter_pairs) refl)
parse_favourites-write_favourites (p ∷ q ∷ ps) h =
    rw (split_first b',' (write_pair p) (write_favourites (q ∷ ps)) h.0.1, filter_pairs)
      (rw (parse_pair-write_pair p.0 p.1 h.0, filter_pairs)
        (ap (◌∷◌ p) (parse_favourites-write_favourites (q ∷ ps) h.1)))
