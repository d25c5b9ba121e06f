-- ===== src/Telemetry/Labels.antt =====
-- The labels of a metric in Prometheus' text format, from go/telemetry/metrics.go (`labels`,
-- `serviceLabel` and escapePrometheusLabelValue; the methods of GRPCMetrics are the same).
pub mod Reader
pub mod RoundTrip
use Prim.Native.Char.{Char, code}
use dense_cloud.Prelude.{◌==◌, str_eq, if◌then◌else◌, String, ◌<>◌, List, [], ◌∷◌, map}

-- What the replacer puts for a character: backslash, line feed and quote are escaped.
unfoldable pub escaped_char : Char → String → String
escaped_char c rest =
    if code c == b'\\'
    then String.◌∷◌ "\\" (String.◌∷◌ "\\" rest)
    else if code c == b'\n'
    then String.◌∷◌ "\\" (String.◌∷◌ "n" rest)
    else if code c == b'"'
    then String.◌∷◌ "\\" (String.◌∷◌ "\"" rest)
    else String.◌∷◌ c rest

unfoldable pub escape_prometheus_label_value : String → String
unfolding escaped_char
escape_prometheus_label_value String.[] = String.[]
escape_prometheus_label_value (String.◌∷◌ c s) = escaped_char c (escape_prometheus_label_value s)

-- `name + ="` and so on, for one pair.
unfoldable pub label_pair : String × String → String
label_pair (name, value) = name <> ("=\"" <> (escape_prometheus_label_value value <> "\""))

-- strings.Join with ","
unfoldable pub join_comma : List String → String
join_comma [] = ""
join_comma (part ∷ []) = part
join_comma (part ∷ next ∷ parts) = part <> ("," <> join_comma (next ∷ parts))

-- The pairs of `labels`, the service's in front.
abbrev pub with_service : String → List (String × String) → List (String × String)
with_service service_name kv = if str_eq service_name "" then kv else ("service", service_name) ∷ kv

-- labels; the arguments come in pairs.
unfoldable pub labels : String → List (String × String) → String
labels service_name kv = "{" <> (join_comma (map label_pair (with_service service_name kv)) <> "}")

-- serviceLabel
unfoldable pub service_label : String → String
service_label service_name =
    if str_eq service_name ""
    then ""
    else "{service=\"" <> (escape_prometheus_label_value service_name <> "\"}")
