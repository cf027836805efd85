-- ===== src/Core/Stations.antt =====
-- core/src/stations.rs: the nearby stations, bucketed by mode.
pub mod Grouping
pub mod Departures
use traintime_api.Common.{
  ℕ, Bool, true, false, Option, none, some, List, [], ◌∷◌, ◌++◌, map, if◌then◌else◌, length, take,
  first, Text, codes, text_eq, ℤ, sort_by_key,
}
use traintime_api.Common.Float.{Float64}
use traintime_api.Core.Geo.{haversine_distance, max_distance, max_per_mode}
use traintime_api.Core.Ojp.{FlatDeparture}

module _ (f : Float64) where
  open f use {F, gt, round, to_i64}

  pub record Station : Type 0 where
    pub id : Text
    pub name : Text
    pub lat : F
    pub lon : F
    pub mode : Text

  pub record NearbyStation : Type 0 where
    pub id : Text
    pub name : Text
    pub dist : ℤ
    pub lat : F
    pub lon : F
    pub departures : Option (List FlatDeparture)

  pub record ModeGroups : Type 0 where
    pub train : List NearbyStation
    pub bus : List NearbyStation
    pub tram : List NearbyStation
    pub special : List NearbyStation

  -- The loops of `attach_departures` over one group.
  attach : Text → List FlatDeparture → List NearbyStation → List NearbyStation
  attach id ds [] = []
  attach id ds (s ∷ group) =
      (if text_eq s.id id then record s { departures = some ds } else s) ∷ attach id ds group

  unfoldable pub attach_departures : ModeGroups → Text → List FlatDeparture → ModeGroups
  unfolding attach
  attach_departures g id ds = record {
    train = attach id ds g.train;
    bus = attach id ds g.bus;
    tram = attach id ds g.tram;
    special = attach id ds g.special;
  }

  -- The row that a candidate becomes.
  entry_at : F → F → Station → NearbyStation
  entry_at lat lon row = record {
    id = row.id;
    name = row.name;
    dist = to_i64 (round (haversine_distance f lat lon row.lat row.lon));
    lat = row.lat;
    lon = row.lon;
    departures = none;
  }

  -- The `match` on the mode.
  push : ModeGroups → Text → NearbyStation → ModeGroups
  push g mode entry =
      if text_eq mode (codes "bus")
      then record g { bus = g.bus ++ entry ∷ [] }
      else if text_eq mode (codes "tram")
      then record g { tram = g.tram ++ entry ∷ [] }
      else if text_eq mode (codes "special")
      then record g { special = g.special ++ entry ∷ [] }
      else record g { train = g.train ++ entry ∷ [] }

  -- The loop of `group_nearby` over the candidates.
  bucket : F → F → ModeGroups → List Station → ModeGroups
  unfolding entry_at push
  bucket lat lon g [] = g
  bucket lat lon g (row ∷ rows) =
      bucket lat lon
        (if gt (haversine_distance f lat lon row.lat row.lon) (max_distance f)
          then g
          else push g row.mode (entry_at lat lon row))
        rows

  -- `sort_by_key` and `truncate`.
  pub nearest : List NearbyStation → List NearbyStation
  nearest group = take max_per_mode (sort_by_key (λ (e : NearbyStation). e.dist) group)

  unfoldable pub group_nearby : List Station → F → F → ModeGroups
  unfolding bucket nearest
  group_nearby candidates lat lon =
      let g =
        bucket lat lon (record { train = []; bus = []; tram = []; special = [] }) candidates in
      record {
        train = nearest g.train;
        bus = nearest g.bus;
        tram = nearest g.tram;
        special = nearest g.special;
      }

  -- The groups in the order of the requested mode.
  ordered : ModeGroups → Option Text → List (List NearbyStation)
  ordered g none = g.train ∷ g.bus ∷ g.tram ∷ g.special ∷ []
  ordered g (some mode) =
      if text_eq mode (codes "bus")
      then g.bus ∷ g.train ∷ g.tram ∷ g.special ∷ []
      else if text_eq mode (codes "tram")
      then g.tram ∷ g.train ∷ g.bus ∷ g.special ∷ []
      else if text_eq mode (codes "special")
      then g.special ∷ g.train ∷ g.bus ∷ g.tram ∷ []
      else g.train ∷ g.bus ∷ g.tram ∷ g.special ∷ []

  -- `find_map` of the first station's id.
  first_id : List (List NearbyStation) → Option Text
  first_id [] = none
  first_id ([] ∷ groups) = first_id groups
  first_id ((s ∷ group) ∷ groups) = some s.id

  unfoldable pub default_station_id : ModeGroups → Option Text → Option Text
  unfolding ordered first_id
  default_station_id g requested_mode = first_id (ordered g requested_mode)
