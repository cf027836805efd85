-- ===== src/Core/Formation/Wagons.antt =====
-- core/src/formation.rs, the second loop of `parse_formation_short_string`: vehicles to wagons.
pub mod Laws
use traintime_api.Common.{
  ℕ, ◌+◌, ◌%◌, ◌^◌, Bool, true, false, not, ◌&&◌, ◌||◌, Option, none, some, List, [], ◌∷◌, ◌++◌,
  if◌then◌else◌, is_none, unwrap_or, length, any, Text, codes, text_eq,
}
use traintime_api.Core.Formation.{Wagon, Vehicle, is_one_of}
use traintime_api.Core.Formation.Scan.{Captures, Scan, scan}

-- Traction, baggage, fictitious and parked vehicles.
unfoldable pub is_not_passenger : Vehicle → Bool
is_not_passenger v = is_one_of v.kind (codes "LK" ∷ codes "D" ∷ codes "F" ∷ codes "X" ∷ [])

abbrev pub has : Vehicle → Text → Bool
has v o = any (λ x. text_eq x o) v.offers

abbrev feature : Bool → Text → List Text
feature b name = if b then name ∷ [] else []

features_of : Vehicle → List Text
features_of v =
    feature (has v (codes "BHP")) (codes "wheelchair")
    ++ (feature (is_one_of v.kind (codes "WR" ∷ codes "W1" ∷ codes "W2" ∷ []) && not v.not_serving)
          (codes "restaurant")
        ++ (feature (text_eq v.kind (codes "FA") || has v (codes "FZ")) (codes "family")
            ++ (feature (has v (codes "BZ")) (codes "business")
                ++ (feature (has v (codes "NF")) (codes "low_floor")
                    ++ feature (has v (codes "VH") || has v (codes "VR")) (codes "bike")))))

-- The wagon that is pushed at a position.
unfoldable pub wagon_of : Vehicle → ℕ → Wagon
unfolding features_of
wagon_of v position = record {
  position = position;
  number = unwrap_or v.number (position % 2 ^ 32);
  class = if is_one_of v.kind (codes "1" ∷ codes "W1" ∷ codes "12" ∷ []) then 1 else 2;
  sector = v.sector;
  features = features_of v;
  closed = v.closed;
  no_passage_after = false;
  mixed_class = text_eq v.kind (codes "12");
  bike_reservation = has v (codes "VR");
  number_unknown = is_none v.number;
}

-- `if let Some(w) = wagons.last_mut() { w.no_passage_after = flag }`.
unfoldable pub flag_last : Bool → List Wagon → List Wagon
flag_last flag [] = []
flag_last flag (w ∷ []) = (record w { no_passage_after = flag }) ∷ []
flag_last flag (w ∷ w' ∷ ws) = w ∷ flag_last flag (w' ∷ ws)

-- `vehicles.get(i + 1).is_some_and(|n| n.opens)`, on the vehicles that follow.
abbrev pub next_opens : List Vehicle → Bool
next_opens [] = false
next_opens (v ∷ vs) = v.opens

-- The loop, with the wagons so far and `boundary_pending`.
unfoldable pub walk : List Wagon → Bool → List Vehicle → List Wagon
unfolding is_not_passenger wagon_of flag_last
walk wagons pending [] = wagons
walk wagons pending (v ∷ vs) =
    let skipped = walk wagons (pending || (v.closes || next_opens vs)) vs in
    let pushed =
      let marked = if pending || v.opens then flag_last true wagons else wagons in
      walk (marked ++ wagon_of v (length marked + 1) ∷ []) (v.closes || next_opens vs) vs in
    if is_not_passenger v then skipped else pushed

unfoldable pub wagons_of : List Vehicle → List Wagon
unfolding walk
wagons_of vehicles = flag_last false (walk [] false vehicles)

-- The sectors and the wagons of a formation string.
unfoldable pub parse_formation_short_string :
    (Text → Option Captures) → Text → List Text × List Wagon
unfolding scan wagons_of
parse_formation_short_string captures short =
    let st = scan captures short in (st.sectors, wagons_of st.vehicles)
