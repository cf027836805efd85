-- ===== src/Worker/Routes/Formation.antt =====
-- src/routes/formation.rs.
use traintime_api.Common.{
  ℕ, Option, none, some, [], ◌++◌, if◌then◌else◌, unwrap_or, is_empty, Result, ok, err, Text, codes,
}
use traintime_api.Core.Formation.{FormationResult, extract_train_number, operator_ref_to_evu}
use traintime_api.Core.Reqlog.{CacheStatus}
use traintime_api.Http.{error, payload, Response, Serde, FormationQuery}
use traintime_api.Server.Routes.Formation.{Asked, Refused}
use traintime_api.Worker.Cache.{Cached}
use traintime_api.Worker.Routes.{Got, Reply, respond, fetch_through}

abbrev pub formation_cache_ttl : ℕ
formation_cache_ttl = 300

-- The `match` on `operatorRef`.
abbrev pub mapped : Option Text → Result Text Refused
mapped (some evu) = ok evu
mapped none = err (record { status = 404; reason = codes "No formation data" })

unfoldable pub choose_evu : Option Text → Option Text → Result Text Refused
choose_evu (some e) operator_ref = ok e
choose_evu none (some op) = mapped (operator_ref_to_evu op)
choose_evu none none = ok (codes "SBBP")

abbrev pub bad_request : Text → Result Asked Refused
bad_request reason = err (record { status = 400; reason = reason })

-- The head of the handler, in its order.
abbrev pub guard_number : FormationQuery → Text → Text → Result Asked Refused
guard_number params date train_number =
    if is_empty train_number
    then bad_request (codes "Invalid train number")
    else elim (choose_evu params.evu params.operator_ref) [
      | err r ↦ err r
      | ok evu ↦
          ok (record { evu = evu; date = date; train_number = train_number; stop = params.stop })
    ]

abbrev pub guard_date : FormationQuery → Text → Option Text → Result Asked Refused
guard_date params train_raw none = bad_request (codes "Missing date parameter")
guard_date params train_raw (some date) =
    if is_empty date
    then bad_request (codes "Missing date parameter")
    else guard_number params date (extract_train_number train_raw)

abbrev pub guard_train : FormationQuery → Option Text → Result Asked Refused
guard_train params none = bad_request (codes "Missing train parameter")
guard_train params (some train_raw) =
    if is_empty train_raw
    then bad_request (codes "Missing train parameter")
    else guard_date params train_raw params.date

unfoldable pub guard : FormationQuery → Result Asked Refused
unfolding choose_evu
guard params = guard_train params params.train

abbrev pub formation_key : Asked → Text
formation_key a =
    codes "formation:"
    ++ (a.evu
        ++ (codes ":"
            ++ (a.date
                ++ (codes ":"
                    ++ (a.train_number ++ (codes ":" ++ unwrap_or a.stop (codes "all")))))))

module _ {V : Type 0} (parse : Text → Result V Text) where
  unfoldable pub show_formation : CacheStatus → Text → Option ℕ → Response V
  unfolding respond
  show_formation cache json stale_age = elim (parse json) [
    | ok v ↦ respond 200 (payload v) stale_age cache
    | err e ↦ respond 500 (error e) none cache
  ]

  unfoldable pub answer_formation : Got → Reply V
  unfolding show_formation respond
  answer_formation got = record {
    response = elim got.outcome [
      | ok (json, stale_age) ↦ show_formation got.cache json stale_age
      | err e ↦ respond 404 (error (codes "No formation data")) none got.cache
    ];
    puts = got.puts;
  }

  unfoldable pub handle_formation :
      Serde FormationResult
      → (Text → ℕ → Cached)
      → (Asked → Result FormationResult Text)
      → FormationQuery
      → Reply V
  unfolding guard answer_formation fetch_through respond
  handle_formation serde get fetch_formation params = elim (guard params) [
    | err r ↦ record {
      response = respond r.status (error r.reason) none CacheStatus.none;
      puts = [];
    }
    | ok a ↦
        let key = formation_key a in
        answer_formation (
          fetch_through serde key formation_cache_ttl (get key formation_cache_ttl)
            (fetch_formation a))
  ]
