-- ===== src/Core/Favourites.antt =====
-- core/src/favourites.rs: favourite lines and destinations.
pub mod Laws
use traintime_api.Common.{
  ℕ, ◌+◌, Bool, true, false, ◌&&◌, ◌||◌, Option, none, some, List, [], ◌∷◌, ◌++◌, if◌then◌else◌,
  take, drop, find?, is_empty, Text, text_eq, split, trim, find, sort_by_key,
}
use traintime_api.Core.Ojp.{FlatDeparture}

-- The closure of `filter_map`: a pair without a colon, or with an empty side, is dropped. The
-- text after the colon begins one character on.
unfoldable pub parse_pair : Text → Option (Text × Text)
parse_pair raw = elim (find b':' (trim raw)) [
  | none ↦ none
  | some colon ↦
      let line = take colon (trim raw) in
      let dest = drop (colon + 1) (trim raw) in
      if is_empty line || is_empty dest then none else some (line, dest)
]

filter_pairs : List Text → List (Text × Text)
filter_pairs [] = []
filter_pairs (p ∷ ps) = elim (parse_pair p) [
  | none ↦ filter_pairs ps
  | some pair ↦ pair ∷ filter_pairs ps
]

unfoldable pub parse_favourites : Text → List (Text × Text)
unfolding filter_pairs parse_pair
parse_favourites raw = filter_pairs (split b',' raw)

abbrev pub is_match : Text → Text → FlatDeparture → Bool
is_match line dest d = text_eq d.number line && text_eq d.to dest

-- The loop over the pairs.
unfoldable pub first_matches : List FlatDeparture → List (Text × Text) → List FlatDeparture
first_matches departures [] = []
first_matches departures ((line, dest) ∷ pairs) = elim (find? (is_match line dest) departures) [
  | none ↦ first_matches departures pairs
  | some d ↦ d ∷ first_matches departures pairs
]

unfoldable pub partition_favourites :
    List FlatDeparture → List (Text × Text) → ℕ → List FlatDeparture × List FlatDeparture
unfolding first_matches
partition_favourites departures fav_pairs limit = (
  sort_by_key (λ (d : FlatDeparture). d.departure) (first_matches departures fav_pairs),
  take limit departures,
)
