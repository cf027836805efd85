-- ===== src/Server/Config/Laws.antt =====
-- What the server has when it serves (server/src/main.rs, `run`).
use mathlib.Core.Path.{subst}
use traintime_api.Common.{
  ℕ, ◌^◌, ◌<◌, ◌≡◌, refl, ◌≢◌, inl, inr, Bool, Option, none, some, List, [], ◌∷◌, arith,
  if◌then◌else◌, Option-cases, Result, ok, err, Text, codes, ltb,
}
use traintime_api.Common.Decimal.{parse_below}
use traintime_api.Common.Float.{Float64}
use traintime_api.Core.Auth.{parse, matched}
use traintime_api.Core.Auth.Laws.{parse-matched_empty}
use traintime_api.Core.Stations.{Station}
use traintime_api.Core.Formation.Response.{◌>>=◌}
use traintime_api.Server.Config.{Var, required_env, number_or, Config, run, stations_path}
use traintime_api.Server.Stations.{load}

below :
    (m : ℕ) (o : Option ℕ) (n : ℕ)
    → elim o [ none ↦ none | some v ↦ if ltb v m then some v else none ] ≡ some n
    → n < m
below m none n h = absurd (cc)
below m (some v) n h = ground arith

parse_below-lt : (m : ℕ) (s : Text) (n : ℕ) → parse_below m s ≡ some n → n < m
unfolding parse_below
parse_below-lt m [] n h = absurd (cc)
parse_below-lt m (c ∷ s) n h = below m _ n h

number_or-lt : (m d : ℕ) (v : Option Text) → d < m → number_or m d v < m
unfolding number_or
number_or-lt m d none h = h
number_or-lt m d (some v) h = elim (Option-cases (parse_below m v)) [
  | inl e ↦ rw (number_or, e) h
  | inr (n, e) ↦ rw (number_or, e) (parse_below-lt m v n e)
]

required_env-ok : (var : Var) (name v : Text) → required_env var name ≡ ok v → var name ≡ some v
unfolding required_env
required_env-ok var name v h = ground arith

-- A step that succeeded.
bind-ok :
    {A B E : Type 0} (m : Result A E) (k : A → Result B E) (b : B)
    → (m >>= k) ≡ ok b
    → (a : A) × (m ≡ ok a) × (k a ≡ ok b)
bind-ok (ok a) k b h = (a, refl, h)
bind-ok (err e) k b h = absurd (cc)

ok_inj : {A E : Type 0} (a b : A) → ◌≡◌ {A = Result A E} (ok a) (ok b) → a ≡ b
ok_inj a b h = cc

module _ (f : Float64) where
  load-ok :
      (path : Text) (r : Result (List (Station f)) Text) (db : List (Station f))
      → load f path r ≡ ok db
      → (r ≡ ok db) × (db ≢ [])
  unfolding load
  load-ok path (err e) db h = absurd (cc)
  load-ok path (ok []) db h = absurd (cc)
  load-ok path (ok (s ∷ rows)) db h = ground arith

  -- A configuration that the server can serve with.
  pub record IsServable (var : Var) (read : Text → Result (List (Station f)) Text) (c : Config f)
      : Type 0 where
    pub stations : (read (stations_path f var) ≡ ok c.db) × (c.db ≢ [])
    pub keys : (c.api_keys.keys ≢ []) × (matched c.api_keys [] ≡ none)
    pub ojp : var (codes "OJP_API_KEY") ≡ some c.ojp_api_key
    pub formation : var (codes "FORMATION_API_KEY") ≡ some c.formation_api_key
    pub bounds : (c.port < 2 ^ 16) × (c.cache_ttl < 2 ^ 64)

  -- A server that starts has read at least one station, matches no empty key and has at least one,
  -- has both upstream keys, and its port and TTL are in the range of their types.
  pub run-IsServable :
      (var : Var) (read : Text → Result (List (Station f)) Text) (client : Result Bool Text)
      (bind : ℕ → Result Bool Text) (c : Config f)
      → run f var read client bind ≡ ok c
      → IsServable var read c
  unfolding run
  run-IsServable var read client bind c h =
      let (db, e1, h1) =
        bind-ok (load f (stations_path f var) (read (stations_path f var))) _ c h in
      let (built, e2, h2) = bind-ok client _ c h1 in
      let (ojp_key, e3, h3) = bind-ok (required_env var (codes "OJP_API_KEY")) _ c h2 in
      let (formation_key, e4, h4) = bind-ok (required_env var (codes "FORMATION_API_KEY")) _ c h3 in
      let (keys, e5, h5) =
        bind-ok (parse (var (codes "API_KEYS")) (var (codes "API_KEY"))) _ c h4 in
      let (bound, e6, h6) = bind-ok (bind _) _ c h5 in
      subst (IsServable var read) (ok_inj _ c h6) (record {
        stations = load-ok (stations_path f var) (read (stations_path f var)) db e1;
        keys = parse-matched_empty (var (codes "API_KEYS")) (var (codes "API_KEY")) e5;
        ojp = required_env-ok var (codes "OJP_API_KEY") ojp_key e3;
        formation = required_env-ok var (codes "FORMATION_API_KEY") formation_key e4;
        bounds = (
          number_or-lt (2 ^ 16) 8080 (var (codes "PORT")) (omega arith),
          number_or-lt (2 ^ 64) 60 (var (codes "DEPARTURE_CACHE_TTL")) (omega arith),
        );
      })
