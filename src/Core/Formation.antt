-- ===== src/Core/Formation.antt =====
-- core/src/formation.rs: the wagons of a train.
pub mod Scan
pub mod Wagons
pub mod Response
use traintime_api.Common.{
  ℕ, Bool, true, false, not, ◌||◌, Option, none, some, List, [], ◌∷◌, ◌++◌, if◌then◌else◌, any,
  Text, codes, text_eq, is_ascii_digit, trim_start_matches, rfind, ◌+◌, drop,
}

pub record Wagon : Type 0 where
  pub position : ℕ
  pub number : ℕ
  pub class : ℕ
  pub sector : Text
  pub features : List Text
  pub closed : Bool
  pub no_passage_after : Bool
  pub mixed_class : Bool
  pub bike_reservation : Bool
  pub number_unknown : Bool

pub record FormationResult : Type 0 where
  pub track : Text
  pub sectors : List Text
  pub wagons : List Wagon

unfoldable pub extract_train_number : Text → Text
unfolding trim_start_matches
extract_train_number raw = trim_start_matches (λ c. not (is_ascii_digit c)) raw

-- The part behind the last colon, or all of it.
last_part : Text → Text
last_part op_ref = elim (rfind b':' op_ref) [ none ↦ op_ref | some at ↦ drop (at + 1) op_ref ]

abbrev evu_codes : List (Text × Text)
evu_codes =
    (codes "11", codes "SBBP")
    ∷ (codes "33", codes "BLSP")
    ∷ (codes "65", codes "THURBO")
    ∷ (codes "82", codes "SOB")
    ∷ (codes "86", codes "ZB")
    ∷ (codes "53", codes "TPF")
    ∷ (codes "73", codes "TRN")
    ∷ (codes "72", codes "RhB")
    ∷ []

evu_of : List (Text × Text) → Text → Option Text
evu_of [] code = none
evu_of ((number, evu) ∷ table) code = if text_eq code number then some evu else evu_of table code

unfoldable pub operator_ref_to_evu : Text → Option Text
unfolding last_part evu_of
operator_ref_to_evu op_ref = evu_of evu_codes (last_part op_ref)

-- `struct Vehicle`.
pub record Vehicle : Type 0 where
  pub kind : Text
  pub sector : Text
  pub number : Option ℕ
  pub opens : Bool
  pub closes : Bool
  pub closed : Bool
  pub not_serving : Bool
  pub offers : List Text

abbrev pub is_one_of : Text → List Text → Bool
is_one_of s words = any (λ w. text_eq s w) words
