-- ===== src/Core/Geo.antt =====
-- core/src/geo.rs: distances on the sphere and the search box, over the platform's floats.
use traintime_api.Common.{ℕ}
use traintime_api.Common.Float.{Float64}

abbrev pub max_per_mode : ℕ
max_per_mode = 5

module _ (f : Float64) where
  open f use {F, lit, pi, add, sub, mul, div, sin, cos, sqrt, powi, atan2}

  unfoldable pub max_distance : F
  max_distance = lit 5000

  to_rad : F → F
  to_rad deg = div (mul deg pi) (lit 180)

  unfoldable pub haversine_distance : F → F → F → F → F
  unfolding to_rad
  haversine_distance lat1 lon1 lat2 lon2 =
      let d_lat = to_rad (sub lat2 lat1) in
      let d_lon = to_rad (sub lon2 lon1) in
      let a =
        add (powi (sin (div d_lat (lit 2))) 2)
          (mul (mul (cos (to_rad lat1)) (cos (to_rad lat2))) (powi (sin (div d_lon (lit 2))) 2)) in
      mul (mul (lit 6371000) (lit 2)) (atan2 (sqrt a) (sqrt (sub (lit 1) a)))

  unfoldable pub bounding_box : F → F → F × F × F × F
  unfolding max_distance
  bounding_box lat lon =
      let dlat = div max_distance (lit 111000) in
      let dlon = div max_distance (lit 75700) in
      (sub lat dlat, add lat dlat, sub lon dlon, add lon dlon)
