-- ===== src/Server/Stations.antt =====
-- server/src/stations.rs: the station table and its search. `to_lowercase` is the standard
-- library's.
use traintime_api.Common.{
  Bool, true, Option, none, some, List, [], ◌∷◌, ◌&&◌, ◌||◌, filter, is_some, is_empty,
  if◌then◌else◌, Result, ok, err, Text, codes, ◌++◌, strip_prefix,
}
use traintime_api.Common.Float.{Float64}
use traintime_api.Core.Geo.{bounding_box}
use traintime_api.Core.Stations.{Station}

-- `str::contains`.
unfoldable pub contains : Text → Text → Bool
contains q [] = is_empty q
contains q (c ∷ s) = is_some (strip_prefix q (c ∷ s)) || contains q s

module _ (f : Float64) where
  open f use {F, le}

  -- The rows of a file that was read, which must not be empty.
  unfoldable pub load : Text → Result (List (Station f)) Text → Result (List (Station f)) Text
  load path (err e) = err (path ++ (codes ": " ++ e))
  load path (ok rows) =
      if is_empty rows then err (path ++ codes ": contains no stations") else ok rows

  unfoldable pub is_inside : F × F × F × F → Station f → Bool
  is_inside (lat_min, lat_max, lon_min, lon_max) s =
      le lat_min s.lat && (le s.lat lat_max && (le lon_min s.lon && le s.lon lon_max))

  abbrev pub is_named : (Text → Text) → Option Text → Station f → Bool
  is_named to_lowercase none s = true
  is_named to_lowercase (some q) s = contains q (to_lowercase s.name)

  unfoldable pub candidates :
      (Text → Text) → List (Station f) → F → F → Option Text → List (Station f)
  unfolding contains is_inside
  candidates to_lowercase rows lat lon name_like =
      filter (is_named to_lowercase name_like) (filter (is_inside (bounding_box f lat lon)) rows)
