-- ===== src/Core/Reqlog.antt =====
-- core/src/reqlog.rs: the one line that is logged for a request.
pub mod Fields
use traintime_api.Common.{ℕ, Option, ◌++◌, if◌then◌else◌, unwrap_or, Text, codes, text_eq}
use traintime_api.Common.Decimal.{print}

pub data CacheStatus : Type 0 where
  none hit miss : CacheStatus

unfoldable pub as_str : CacheStatus → Text
as_str none = codes "-"
as_str hit = codes "hit"
as_str miss = codes "miss"

unfoldable pub route_template : Text → Text
route_template path =
    if text_eq path (codes "/health")
    then codes "/health"
    else if text_eq path (codes "/v1/nearby")
    then codes "/v1/nearby"
    else if text_eq path (codes "/v1/departures")
    then codes "/v1/departures"
    else if text_eq path (codes "/v1/formation")
    then codes "/v1/formation"
    else codes "other"

unfoldable pub format_line : Text → Text → ℕ → ℕ → CacheStatus → Option Text → Text
unfolding as_str route_template
format_line method path status ms cache key =
    codes "req method="
    ++ (method
        ++ (codes " route="
            ++ (route_template path
                ++ (codes " status="
                    ++ (print status
                        ++ (codes " ms="
                            ++ (print ms
                                ++ (codes " cache="
                                    ++ (as_str cache
                                        ++ (codes " key=" ++ unwrap_or key (codes "-")))))))))))
