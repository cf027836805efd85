-- ===== src/Examples/Nearby.antt =====
-- Nearby stations at concrete inputs, over a stand-in for the floats: natural numbers, on which the
-- distance of two places comes out as the double of a sum of differences.
use traintime_api.Common.{
  ℕ, ◌+◌, ◌-◌, ◌*◌, ◌/◌, ◌≡◌, refl, true, some, List, [], ◌∷◌, ltb, leb, String, codes, pos, negsuc,
  sort_by_key,
}
use traintime_api.Common.Float.{Float64}
use traintime_api.Core.Geo.{haversine_distance, max_distance}
use traintime_api.Core.Stations.{
  Station, NearbyStation, ModeGroups, group_nearby, default_station_id, attach_departures,
}
use traintime_api.Core.Stations.Grouping.{
  IsNearest, eligible, is_train, is_bus, is_tram, is_special, group_nearby-IsNearest,
}
use traintime_api.Core.Stations.Departures.{IsShown, attach_departures-default_station_id}

abbrev pub grid : Float64
grid = record {
  F = ℕ;
  lit = λ n. n;
  pi = 180;
  add = λ a b. a + b;
  sub = λ a b. a - b;
  mul = λ a b. a * b;
  div = λ a b. a / b;
  sin = λ a. a;
  cos = λ a. 1;
  sqrt = λ a. a;
  round = λ a. a;
  powi = λ a n. a * a;
  atan2 = λ a b. a / 1000;
  le = leb;
  gt = λ a b. ltb b a;
  is_finite = λ a. true;
  to_i64 = pos;
  of_i64 = λ n. elim n [ pos k ↦ k | negsuc k ↦ 0 ];
}

abbrev at : String → String → ℕ → Station grid
at id mode lat = record { id = codes id; name = codes id; lat = lat; lon = 0; mode = codes mode }

abbrev pub places : List (Station grid)
places = at "1" "train" 0 ∷ at "2" "bus" 0 ∷ at "3" "train" 9000 ∷ []

abbrev groups : ModeGroups grid
groups = group_nearby grid places 0 0

chosen : default_station_id grid groups (some (codes "bus")) ≡ some (codes "2")
unfolding default_station_id group_nearby haversine_distance max_distance sort_by_key
chosen = refl

group_nearby-IsNearest_example :
    IsNearest grid 0 0 (eligible grid 0 0 is_train places) groups.train
    × IsNearest grid 0 0 (eligible grid 0 0 is_bus places) groups.bus
    × IsNearest grid 0 0 (eligible grid 0 0 is_tram places) groups.tram
    × IsNearest grid 0 0 (eligible grid 0 0 is_special places) groups.special
group_nearby-IsNearest_example = group_nearby-IsNearest grid 0 0 places

attach_departures-default_station_id_example :
    (t : NearbyStation grid) × (t.id ≡ codes "2")
    × (t.departures ≡ some [])
    × IsShown grid (attach_departures grid groups (codes "2") []) t
attach_departures-default_station_id_example =
    attach_departures-default_station_id grid groups (some (codes "bus")) (codes "2") [] chosen
