-- ===== src/Server/Routes/Formation.antt =====
-- server/src/routes/formation.rs.
use traintime_api.Common.{
  ℕ, Option, none, some, ◌++◌, if◌then◌else◌, unwrap_or, is_empty, Result, ok, err, Text, codes,
}
use traintime_api.Core.Formation.{FormationResult, extract_train_number, operator_ref_to_evu}
use traintime_api.Core.Reqlog.{CacheStatus}
use traintime_api.Http.{error, payload, Response, Serde, FormationQuery}
use traintime_api.Server.Fetch.{Fetched, cached, fresh, stale, failed, cache_status}
use traintime_api.Server.Routes.{Upstream, respond, to_json}

abbrev pub formation_cache_ttl : ℕ
formation_cache_ttl = 300

-- What a call of the formation API asks for.
pub record Asked : Type 0 where
  pub evu : Text
  pub date : Text
  pub train_number : Text
  pub stop : Option Text

-- A refusal before anything is fetched.
pub record Refused : Type 0 where
  pub status : ℕ
  pub reason : Text

abbrev no_formation_data : Text
no_formation_data = codes "No formation data"

-- The code asked for, else that of the operator, else the main one.
abbrev pub mapped : Option Text → Result Text Refused
mapped (some evu) = ok evu
mapped none = err (record { status = 404; reason = no_formation_data })

unfoldable pub choose_evu : Option Text → Option Text → Result Text Refused
choose_evu (some e) operator_ref = ok e
choose_evu none (some op) = mapped (operator_ref_to_evu op)
choose_evu none none = ok (codes "SBBP")

abbrev pub bad_request : Text → Result Asked Refused
bad_request reason = err (record { status = 400; reason = reason })

-- The head of the handler, in its order.
abbrev pub guard_number : FormationQuery → Text → Text → Result Asked Refused
guard_number params date train_number =
    if is_empty train_number
    then bad_request (codes "Invalid train number")
    else elim (choose_evu params.evu params.operator_ref) [
      | err r ↦ err r
      | ok evu ↦
          ok (record { evu = evu; date = date; train_number = train_number; stop = params.stop })
    ]

abbrev pub guard_date : FormationQuery → Text → Option Text → Result Asked Refused
guard_date params train_raw none = bad_request (codes "Missing date parameter")
guard_date params train_raw (some date) =
    if is_empty date
    then bad_request (codes "Missing date parameter")
    else guard_number params date (extract_train_number train_raw)

abbrev pub guard_train : FormationQuery → Option Text → Result Asked Refused
guard_train params none = bad_request (codes "Missing train parameter")
guard_train params (some train_raw) =
    if is_empty train_raw
    then bad_request (codes "Missing train parameter")
    else guard_date params train_raw params.date

unfoldable pub guard : FormationQuery → Result Asked Refused
unfolding choose_evu
guard params = guard_train params params.train

unfoldable pub formation_key : Asked → Text
formation_key a =
    codes "formation:"
    ++ (a.evu
        ++ (codes ":"
            ++ (a.date
                ++ (codes ":"
                    ++ (a.train_number ++ (codes ":" ++ unwrap_or a.stop (codes "all")))))))

-- `V` is the type of JSON values and `parse` the reading of one.
module _ {V : Type 0} (parse : Text → Result V Text) where
  unfoldable pub show_formation : CacheStatus → Text → Option ℕ → Response V
  unfolding respond
  show_formation cache json stale_age = elim (parse json) [
    | ok v ↦ respond 200 (payload v) stale_age cache
    | err e ↦ respond 500 (error e) none cache
  ]

  unfoldable pub answer_formation : Fetched → Response V
  unfolding show_formation cache_status respond
  answer_formation (fresh v) = show_formation (cache_status (fresh v)) v none
  answer_formation (cached v) = show_formation (cache_status (cached v)) v none
  answer_formation (stale v age) = show_formation (cache_status (stale v age)) v (some age)
  answer_formation (failed e) = respond 404 (error no_formation_data) none (cache_status (failed e))

  unfoldable pub handle_formation :
      Serde FormationResult
      → Upstream
      → (Asked → Result FormationResult Text)
      → FormationQuery
      → Response V
  unfolding guard formation_key answer_formation to_json respond
  handle_formation serde inflight fetch_formation params = elim (guard params) [
    | err r ↦ respond r.status (error r.reason) none CacheStatus.none
    | ok a ↦
        answer_formation
          (inflight (formation_key a) formation_cache_ttl (to_json serde (fetch_formation a)))
  ]
