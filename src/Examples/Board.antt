-- ===== src/Examples/Board.antt =====
-- Departure boards at concrete inputs.
use traintime_api.Common.{
  ℕ, ◌≤◌, ◌≡◌, refl, false, none, some, List, [], ◌∷◌, ◌++◌, map, drop, length, String, codes, pos,
  sort_by_key, lookup, insert,
}
use traintime_api.Core.Ojp.{FlatDeparture}
use traintime_api.Core.Ojp.Journeys.{Event, keep_latest_per_journey, keep}
use traintime_api.Core.Ojp.Journeys.Laws.{IsCollapse, keep_latest_per_journey_lem}
use traintime_api.Core.Favourites.{partition_favourites}
use traintime_api.Core.Favourites.Laws.{IsPicked, partition_favourites-IsPicked}

abbrev departing : String → ℕ → FlatDeparture
departing quay time = record {
  to = codes "Visp";
  category = codes "IR";
  number = codes "IR90";
  departure = pos time;
  delay = none;
  platform = codes quay;
  platform_changed = false;
  train_number = none;
  operator_ref = none;
}

-- Twins of one journey, the later first, and a row without a journey.
abbrev events : List Event
events =
    (some (codes "d|j"), departing "2" 1057)
    ∷ (some (codes "d|j"), departing "" 1056)
    ∷ (none, departing "7" 900)
    ∷ []

board : keep_latest_per_journey events ≡ some (departing "7" 900 ∷ departing "2" 1057 ∷ [])
unfolding keep_latest_per_journey keep lookup insert sort_by_key
board = refl

keep_latest_per_journey_lem_example :
    (rows : List Event) × (keep_latest_per_journey events
      ≡ some (sort_by_key (λ (d : FlatDeparture). d.departure) (map (λ (r : Event). r.1) rows)))
    × IsCollapse events rows
keep_latest_per_journey_lem_example = keep_latest_per_journey_lem events

abbrev rows : List FlatDeparture
rows = departing "7" 900 ∷ departing "2" 1057 ∷ []

partition_favourites-IsPicked_example :
    IsPicked rows
      ((codes "IR90", codes "Visp") ∷ [])
      (partition_favourites rows ((codes "IR90", codes "Visp") ∷ []) 1).0
    × ((partition_favourites rows ((codes "IR90", codes "Visp") ∷ []) 1).1 ++ drop 1 rows ≡ rows)
    × (length (partition_favourites rows ((codes "IR90", codes "Visp") ∷ []) 1).1 ≤ 1)
partition_favourites-IsPicked_example =
    partition_favourites-IsPicked rows ((codes "IR90", codes "Visp") ∷ []) 1
