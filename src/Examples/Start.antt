-- ===== src/Examples/Start.antt =====
-- The start of the server at a concrete environment.
use traintime_api.Common.{
  ℕ, ◌≡◌, refl, Bool, true, none, some, List, [], ◌∷◌, if◌then◌else◌, Result, ok, Text, codes,
  text_eq, split, trim,
}
use traintime_api.Core.Auth.{parse}
use traintime_api.Core.Stations.{Station}
use traintime_api.Examples.Nearby.{grid, places}
use traintime_api.Server.Config.{Var, Config, run}
use traintime_api.Server.Stations.{load}
use traintime_api.Server.Config.Laws.{IsServable, run-IsServable}

abbrev var : Var
var name =
    if text_eq name (codes "OJP_API_KEY")
    then some (codes "o")
    else if text_eq name (codes "FORMATION_API_KEY")
    then some (codes "f")
    else if text_eq name (codes "API_KEYS")
    then some (codes "k")
    else none

abbrev read : Text → Result (List (Station grid)) Text
read path = ok places

abbrev bind : ℕ → Result Bool Text
bind port = ok true

abbrev served : Config grid
served = record {
  db = places;
  shared = none;
  ojp_endpoint = codes "https://api.opentransportdata.swiss/ojp20";
  ojp_api_key = codes "o";
  formation_api_key = codes "f";
  cache_ttl = 60;
  api_keys = record { keys = codes "k" ∷ [] };
  port = 8080;
}

start : run grid var read (ok true) bind ≡ ok served
unfolding run parse split trim load
start = refl

run-IsServable_example : IsServable grid var read served
run-IsServable_example = run-IsServable grid var read (ok true) bind served start
