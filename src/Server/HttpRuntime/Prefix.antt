-- ===== src/Server/HttpRuntime/Prefix.antt =====
-- The route prefixes of go/server/runtime.go, and the paths that the metrics are labelled with.
use dense_cloud.Prelude.{
  str_eq, if◌then◌else◌, String, ◌<>◌, ◌≡◌, ◌⊎◌, Bool, true, false, not, ◌||◌, Option, none, some,
  arith,
}
use dense_cloud.Golang.Strings.{has_prefix, trim_suffix_slash, contains_slashes}
use dense_cloud.Golang.NetHttp.{Request}

unfoldable pub normalize_route_prefix : String → String
normalize_route_prefix prefix =
    if str_eq prefix ""
    then "/"
    else trim_suffix_slash (if has_prefix prefix "/" then prefix else "/" <> prefix)

-- Whether validateRoutePrefix has no error; the message is left out.
unfoldable pub is_valid_route_prefix : String → Bool
is_valid_route_prefix prefix = not (contains_slashes prefix)

unfoldable pub normalize_label_prefix : String → String
unfolding normalize_route_prefix
normalize_label_prefix given =
    let prefix = normalize_route_prefix given in if str_eq prefix "" then "/" else prefix

unfoldable pub route_path_has_prefix : String → String → Bool
route_path_has_prefix path prefix =
    if str_eq prefix "" || str_eq prefix "/"
    then true
    else str_eq path prefix || has_prefix path (prefix <> "/")

-- The label of a path, for the normalized prefixes.
unfoldable pub default_label : String → String → String → String
unfolding route_path_has_prefix
default_label api_base_path metrics_path path =
    if str_eq path ""
    then "/"
    else if str_eq path metrics_path || (str_eq path "/health" || has_prefix path "/health/")
    then path
    else if route_path_has_prefix path api_base_path
    then (if str_eq api_base_path "/"
        then "/*"
        else if str_eq path api_base_path
        then api_base_path
        else api_base_path <> "/*")
    else path

-- metricsPathLabelerOrDefault
unfoldable pub metrics_path_labeler_or_default :
    Option (Request → String) → String → String → Request → String
metrics_path_labeler_or_default (some configured) api_base_path metrics_path r = configured r
metrics_path_labeler_or_default none api_base_path metrics_path r =
    default_label (normalize_label_prefix api_base_path) (normalize_label_prefix metrics_path)
      r.path

-- A path of DenseCloud's own.
abbrev pub is_own_path : String → String → Bool
is_own_path metrics_path path =
    str_eq path ""
    || str_eq path metrics_path
    || str_eq path "/health"
    || has_prefix path "/health/"

-- Without a configured labeler, a path below the API's prefix that is not DenseCloud's own has one of
-- two labels, which depend on the prefix alone: however many paths clients ask for there, the tables
-- of the metrics have at most two paths for them.
pub metrics_path_labeler-bounded :
    (api_base_path metrics_path : String) (r : Request)
    → is_own_path (normalize_label_prefix metrics_path) r.path ≡ false
    → route_path_has_prefix r.path (normalize_label_prefix api_base_path) ≡ true
    → let base = normalize_label_prefix api_base_path in
      let label = metrics_path_labeler_or_default none api_base_path metrics_path r in
      (label ≡ base) ⊎ (label ≡ (if str_eq base "/" then "/*" else base <> "/*"))
unfolding metrics_path_labeler_or_default default_label
metrics_path_labeler-bounded api_base_path metrics_path r other below = ground arith
