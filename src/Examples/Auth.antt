-- ===== src/Examples/Auth.antt =====
-- The key check, the freshness of a payload and the favourites, at concrete inputs.
use traintime_api.Common.{
  ◌+◌, ◌*◌, ◌/◌, ◌-◌, ◌≤◌, ◌<◌, ◌≡◌, refl, ◌↔◌, none, some, List, [], ◌∷◌, arith, Elem, ok, Text,
  codes, split, trim, Elem,
}
use traintime_api.Core.Auth.{ApiKeys, parse, matched, constant_time_eq}
use traintime_api.Core.Auth.Laws.{matched_iff}
use traintime_api.Common.Utf8.{as_bytes}
use traintime_api.Core.Cache.{classify, fresh, stale, expired, classify_iff}
use traintime_api.Core.Favourites.{parse_favourites}
use traintime_api.Core.Favourites.Laws.{write_favourites, parse_favourites-write_favourites}

abbrev two_keys : ApiKeys
two_keys = record { keys = codes "ios-1" ∷ codes "and-2" ∷ [] }

parse_run : parse (some (codes " ios-1 , ,and-2,")) none ≡ ok two_keys
unfolding parse split trim
parse_run = refl

matched_run : matched two_keys (codes "and-2") ≡ some (codes "and-2")
unfolding matched constant_time_eq as_bytes
matched_run = refl

matched_iff_example :
    ((matched two_keys (codes "and-2") ≡ some (codes "and-2")) ↔ Elem (codes "and-2") two_keys.keys)
    × ((matched two_keys (codes "and-2") ≡ none) ↔ (¬ Elem (codes "and-2") two_keys.keys))
matched_iff_example = matched_iff two_keys (codes "and-2") (omega arith) (omega arith)

classify_iff_example :
    ((classify 0 300_999 60 ≡ fresh) ↔ (300_999 < 0 + 60 * 1000))
    × ((classify 0 300_999 60 ≡ stale 300)
        ↔ ((0 + 60 * 1000 ≤ 300_999) × (300 ≡ (300_999 - 0) / 1000) × (300_999 < 0 + 301 * 1000)))
    × ((classify 0 300_999 60 ≡ expired) ↔ ((0 + 60 * 1000 ≤ 300_999) × (0 + 301 * 1000 ≤ 300_999)))
classify_iff_example = classify_iff 0 300_999 60 300 (omega arith)

abbrev pairs : List (Text × Text)
pairs = (codes "IC8", codes "Brig") ∷ (codes "IR90", codes "Visp") ∷ []

parse_favourites-write_favourites_example : parse_favourites (write_favourites pairs) ≡ pairs
unfolding trim
parse_favourites-write_favourites_example = parse_favourites-write_favourites pairs (
  (omega arith, omega arith, (λ e. cc), (λ e. cc), refl),
  ((omega arith, omega arith, (λ e. cc), (λ e. cc), refl), tt),
)
