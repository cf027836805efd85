-- ===== src/Core/Error.antt =====
-- core/src/error.rs: `CoreError` and its `Display`.
use traintime_api.Common.{◌++◌, Text, codes}

pub data CoreError : Type 0 where
  missing_field : Text → CoreError
  stop_not_found : Text → CoreError

unfoldable pub fmt : CoreError → Text
fmt (missing_field field) = codes "No " ++ field
fmt (stop_not_found uic) = codes "Stop " ++ (uic ++ codes " not found in formation")
