-- ===== src/Core/Ojp/Journeys.antt =====
-- core/src/ojp.rs, `keep_latest_per_journey`: one row for a journey that is published twice.
pub mod Collapse
pub mod Index
pub mod Laws
pub mod Latest
pub mod Kept
use traintime_api.Common.{
  ℕ, ◌≡◌, Option, none, some, List, [], ◌∷◌, ◌++◌, if◌then◌else◌, length, get_elem?, set, Text,
  lookup, insert, ltb_ℤ, sort_by_key,
}
use traintime_api.Core.Ojp.{FlatDeparture}

-- An event with its journey key.
abbrev pub Event : Type 0
Event = Option Text × FlatDeparture

-- The variables of the loop: the rows kept, and the place of each journey among them.
pub record Board : Type 0 where
  pub kept : List FlatDeparture
  pub seen : List (Text × ℕ)

-- One round. `none` is the panic of an index out of range.
unfoldable pub keep : Board → Event → Option Board
keep b (none, event) = some (record b { kept = b.kept ++ event ∷ [] })
keep b (some key, event) = elim (lookup key b.seen) [
  | some at ↦ elim (get_elem? b.kept at) [
    | none ↦ none
    | some old ↦
        some (
          if ltb_ℤ old.departure event.departure
          then record b { kept = set b.kept at event }
          else b)
  ]
  | none ↦ some (record { kept = b.kept ++ event ∷ []; seen = insert key (length b.kept) b.seen })
]

unfoldable pub keep_all : Board → List Event → Option Board
keep_all b [] = some b
keep_all b (e ∷ events) = elim (keep b e) [ none ↦ none | some b' ↦ keep_all b' events ]

unfoldable pub keep_latest_per_journey : List Event → Option (List FlatDeparture)
unfolding keep_all
keep_latest_per_journey events = elim (keep_all (record { kept = []; seen = [] }) events) [
  | none ↦ none
  | some b ↦ some (sort_by_key (λ (d : FlatDeparture). d.departure) b.kept)
]
