-- ===== src/Telemetry/HttpMetrics/Render.antt =====
-- renderPrometheus and Handler of go/telemetry/metrics.go.
use dense_cloud.Prelude.{
  str_eq, if◌then◌else◌, String, ◌<>◌, Bool, false, not, ◌&&◌, Option, none, some, List, [], ◌∷◌,
}
use dense_cloud.Golang.NetHttp.{set_header, write_header, write, HttpHandler}
use dense_cloud.Golang.Strings.{is_empty, ends_with_line_feed}
use dense_cloud.Telemetry.Keys.{
  RequestMetricKey, DurationMetricKey, request_key_eq, duration_key_eq,
}
use dense_cloud.Telemetry.Labels.{labels, service_label}
use dense_cloud.Telemetry.Text.{Formats, str_ltb, metric_line, counter_lines, histogram_lines}
use dense_cloud.Telemetry.HttpMetrics.{HttpMetrics, HttpRecorded}

-- The orders of sortedRequestMetricKeys and sortedDurationMetricKeys.
unfoldable pub request_key_less : RequestMetricKey → RequestMetricKey → Bool
request_key_less a b =
    if not (str_eq a.method b.method)
    then str_ltb a.method b.method
    else if not (str_eq a.path b.path)
    then str_ltb a.path b.path
    else str_ltb a.status_class b.status_class

unfoldable pub duration_key_less : DurationMetricKey → DurationMetricKey → Bool
duration_key_less a b =
    if not (str_eq a.method b.method) then str_ltb a.method b.method else str_ltb a.path b.path

-- The labels of a key; `more` is "le" with its value, or nothing.
abbrev pub request_key_labels : String → RequestMetricKey → String
unfolding labels
request_key_labels service_name key =
    labels service_name
      (("method", key.method) ∷ ("path", key.path) ∷ ("status_class", key.status_class) ∷ [])

abbrev pub duration_key_labels : String → DurationMetricKey → List (String × String) → String
unfolding labels
duration_key_labels service_name key more =
    labels service_name (("method", key.method) ∷ ("path", key.path) ∷ more)

unfoldable pub render_prometheus_own : Formats → HttpMetrics → HttpRecorded → String
render_prometheus_own f m recorded =
    "# HELP densecloud_http_in_flight_requests Current number of in-flight HTTP requests.\n"
    <> "# TYPE densecloud_http_in_flight_requests gauge\n"
    <> metric_line "densecloud_http_in_flight_requests" (service_label m.service_name)
        (f.signed recorded.in_flight)
    <> "# HELP densecloud_http_requests_total Total number of HTTP requests completed by the DenseCloud runtime.\n"
    <> "# TYPE densecloud_http_requests_total counter\n"
    <> counter_lines ⦃e = request_key_eq⦄ f request_key_less "densecloud_http_requests_total"
        (request_key_labels m.service_name) recorded.tables.requests
    <> "# HELP densecloud_http_request_errors_total Total number of HTTP requests that completed with client/server errors.\n"
    <> "# TYPE densecloud_http_request_errors_total counter\n"
    <> counter_lines ⦃e = request_key_eq⦄ f request_key_less "densecloud_http_request_errors_total"
        (request_key_labels m.service_name) recorded.tables.errors
    <> "# HELP densecloud_http_request_duration_seconds HTTP request latency in seconds.\n"
    <> "# TYPE densecloud_http_request_duration_seconds histogram\n"
    <> histogram_lines ⦃e = duration_key_eq⦄ f duration_key_less
        "densecloud_http_request_duration_seconds" (duration_key_labels m.service_name) m.buckets
        recorded.tables.durations

-- The loop over the collectors; each of them starts on a line of its own.
unfoldable pub append_collectors : List (Option (String → String)) → String → String
append_collectors [] written = written
append_collectors (none ∷ collectors) written = append_collectors collectors written
append_collectors (some collector ∷ collectors) written = append_collectors collectors (
    collector (
      if not (is_empty written) && not (ends_with_line_feed written)
      then written <> "\n"
      else written))

unfoldable pub render_prometheus : Formats → HttpMetrics → HttpRecorded → String
unfolding render_prometheus_own append_collectors
render_prometheus f m recorded = append_collectors m.collectors (render_prometheus_own f m recorded)

module _ {S : Type 0} where
  -- Handler; `none` is a nil *HTTPMetrics.
  unfoldable pub metrics_handler : Formats → Option HttpMetrics → HttpHandler (HttpRecorded × S)
  metrics_handler f none r headers s = (s, write_header 404 ∷ [], false)
  metrics_handler f (some m) r headers (recorded, s) = (
    (recorded, s),
    set_header "Content-Type" "text/plain; version=0.0.4; charset=utf-8"
        ∷ write (render_prometheus f m recorded)
        ∷ [],
    false,
  )
