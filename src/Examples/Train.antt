-- ===== src/Examples/Train.antt =====
-- The wagons of a train, at concrete inputs.
use traintime_api.Common.{◌≡◌, refl, Bool, true, false, none, List, [], ◌∷◌, map, Text, codes}
use traintime_api.Core.Formation.{Wagon, Vehicle}
use traintime_api.Core.Formation.Wagons.{wagons_of}
use traintime_api.Core.Formation.Wagons.Laws.{expected, wagons_of-expected}

abbrev car : Text → Bool → Bool → Vehicle
car kind opens closes = record {
  kind = kind;
  sector = codes "A";
  number = none;
  opens = opens;
  closes = closes;
  closed = false;
  not_serving = false;
  offers = codes "VR" ∷ [];
}

-- A locomotive that closes off its end parts the two cars round it.
abbrev train : List Vehicle
train = car (codes "1") false false ∷ car (codes "LK") false true ∷ car (codes "2") false false ∷ []

no_passage : map (λ (w : Wagon). w.no_passage_after) (wagons_of train) ≡ true ∷ false ∷ []
unfolding wagons_of
no_passage = refl

wagons_of-expected_example : wagons_of train ≡ expected 1 train
wagons_of-expected_example = wagons_of-expected train
