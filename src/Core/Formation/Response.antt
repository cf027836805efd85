-- ===== src/Core/Formation/Response.antt =====
-- core/src/formation.rs, `parse_formation_response`: from the JSON of the formation API to one stop.
use traintime_api.Common.{
  Bool, false, Option, none, some, List, [], unwrap_or, find?, first, Result, ok, err, Text, codes,
  ℤ, pos, leb_ℤ, ◌&&◌,
}
use traintime_api.Common.Decimal.{parse_i64}
use traintime_api.Core.Error.{CoreError, missing_field, stop_not_found}
use traintime_api.Core.Formation.{FormationResult}
use traintime_api.Core.Formation.Scan.{Captures}
use traintime_api.Core.Formation.Wagons.{parse_formation_short_string}

-- What the JSON library offers on a value.
pub record Json : Type 1 where
  pub Value : Type 0
  pub get : Value → Text → Option Value
  pub pointer : Value → Text → Option Value
  pub as_array : Value → Option (List Value)
  pub as_i64 : Value → Option ℤ
  pub as_str : Value → Option Text

infixl 5 ◌>>=◌
abbrev pub ◌>>=◌ : {A B E : Type 0} → Result A E → (A → Result B E) → Result B E
ok a >>= k = k a
err e >>= k = err e

-- `ok_or`, and `and_then` on an option.
abbrev ok_or : {A E : Type 0} → Option A → E → Result A E
ok_or none e = err e
ok_or (some a) e = ok a

abbrev pub and_then : {A B : Type 0} → Option A → (A → Option B) → Option B
and_then none k = none
and_then (some a) k = k a

abbrev eq_ℤ : ℤ → ℤ → Bool
eq_ℤ a b = leb_ℤ a b && leb_ℤ b a

module _ (json : Json) (captures : Text → Option Captures) where
  open json use {Value, get, pointer, as_array, as_i64, as_str}

  -- The stop's number; a missing one is no match.
  is_stop : ℤ → Value → Bool
  is_stop uic_num s = elim (and_then (pointer s (codes "/scheduledStop/stopPoint/uic")) as_i64) [
    | none ↦ false
    | some id ↦ eq_ℤ id uic_num
  ]

  find_entry : List Value → Option Text → Result Value CoreError
  unfolding is_stop
  find_entry stops (some uic) =
      ok_or (find? (is_stop (unwrap_or (parse_i64 uic) (pos 0))) stops) (stop_not_found uic)
  find_entry stops none = ok_or (first stops) (missing_field (codes "stops in formation"))

  unfoldable pub parse_formation_response : Value → Option Text → Result FormationResult CoreError
  unfolding find_entry
  parse_formation_response body stop_uic = do
    stops ←
        ok_or (and_then (get body (codes "formationsAtScheduledStops")) as_array)
          (missing_field (codes "formationsAtScheduledStops"))
    entry ← find_entry stops stop_uic
    let track = unwrap_or (and_then (pointer entry (codes "/scheduledStop/track")) as_str) []
    short_string ←
        ok_or (and_then (pointer entry (codes "/formationShort/formationShortString")) as_str)
          (missing_field (codes "formationShortString"))
    let (sectors, wagons) = parse_formation_short_string captures short_string
    ok (record { track = track; sectors = sectors; wagons = wagons })
