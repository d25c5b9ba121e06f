-- ===== src/Telemetry/Logger.antt =====
-- go/telemetry/logger.go, up to the logger that slog makes of it. `to_lower` is strings.ToLower.
use dense_cloud.Prelude.{str_eq, if◌then◌else◌, String, ◌||◌, List, [], ◌∷◌}
use dense_cloud.Golang.Strings.{trim_space}

pub data LoggerLevel : Type 0 where
  level_debug level_info level_warn level_error : LoggerLevel

unfoldable pub parse_level : (String → String) → String → LoggerLevel
parse_level to_lower level =
    let name = to_lower (trim_space level) in
    if str_eq name "debug"
    then level_debug
    else if str_eq name "warn" || str_eq name "warning"
    then level_warn
    else if str_eq name "error"
    then level_error
    else level_info

-- The level of the handler, and the attributes that every entry has.
unfoldable pub logger_settings :
    (String → String) → String → String → String → LoggerLevel × List (String × String)
unfolding parse_level
logger_settings to_lower service_name version level = (
  parse_level to_lower level,
  if str_eq service_name "" then [] else ("service", service_name) ∷ ("version", version) ∷ [],
)
