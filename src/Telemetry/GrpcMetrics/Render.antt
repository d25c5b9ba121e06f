-- ===== src/Telemetry/GrpcMetrics/Render.antt =====
-- AppendPrometheus of go/telemetry/grpc_metrics.go.
use dense_cloud.Prelude.{
  str_eq, if◌then◌else◌, String, ◌<>◌, Bool, not, Option, none, some, List, [], ◌∷◌,
}
use dense_cloud.Telemetry.Keys.{
  GrpcRequestMetricKey, GrpcDurationMetricKey, grpc_request_key_eq, grpc_duration_key_eq,
}
use dense_cloud.Telemetry.Labels.{labels, service_label}
use dense_cloud.Telemetry.Text.{Formats, str_ltb, metric_line, counter_lines, histogram_lines}
use dense_cloud.Telemetry.GrpcMetrics.{GrpcMetrics}

-- The orders of sortedGRPCRequestMetricKeys and sortedGRPCDurationMetricKeys.
unfoldable pub grpc_request_key_less : GrpcRequestMetricKey → GrpcRequestMetricKey → Bool
grpc_request_key_less a b =
    if not (str_eq a.method b.method)
    then str_ltb a.method b.method
    else if not (str_eq a.rpc_type b.rpc_type)
    then str_ltb a.rpc_type b.rpc_type
    else str_ltb a.code b.code

unfoldable pub grpc_duration_key_less : GrpcDurationMetricKey → GrpcDurationMetricKey → Bool
grpc_duration_key_less a b =
    if not (str_eq a.method b.method)
    then str_ltb a.method b.method
    else str_ltb a.rpc_type b.rpc_type

-- serviceLabel and labels of GRPCMetrics, which are those of HTTPMetrics
abbrev pub grpc_service_label : String → String
grpc_service_label service_name = service_label service_name

abbrev pub grpc_labels : String → List (String × String) → String
unfolding labels
grpc_labels service_name pairs = labels service_name pairs

-- The labels of a key; `more` is "le" with its value, or nothing.
abbrev pub grpc_request_key_labels : String → GrpcRequestMetricKey → String
unfolding labels
grpc_request_key_labels service_name key =
    grpc_labels service_name
      (("method", key.method) ∷ ("rpc_type", key.rpc_type) ∷ ("code", key.code) ∷ [])

abbrev pub grpc_duration_key_labels :
    String → GrpcDurationMetricKey → List (String × String) → String
unfolding labels
grpc_duration_key_labels service_name key more =
    grpc_labels service_name (("method", key.method) ∷ ("rpc_type", key.rpc_type) ∷ more)

unfoldable pub render_grpc : Formats → GrpcMetrics → String
render_grpc f m =
    "# HELP densecloud_grpc_in_flight_requests Current number of in-flight gRPC requests.\n"
    <> "# TYPE densecloud_grpc_in_flight_requests gauge\n"
    <> metric_line "densecloud_grpc_in_flight_requests" (grpc_service_label m.service_name)
        (f.signed m.in_flight)
    <> "# HELP densecloud_grpc_requests_total Total number of gRPC requests completed by the DenseCloud runtime.\n"
    <> "# TYPE densecloud_grpc_requests_total counter\n"
    <> counter_lines ⦃e = grpc_request_key_eq⦄ f grpc_request_key_less
        "densecloud_grpc_requests_total" (grpc_request_key_labels m.service_name) m.tables.requests
    <> "# HELP densecloud_grpc_request_errors_total Total number of gRPC requests that completed with non-OK status.\n"
    <> "# TYPE densecloud_grpc_request_errors_total counter\n"
    <> counter_lines ⦃e = grpc_request_key_eq⦄ f grpc_request_key_less
        "densecloud_grpc_request_errors_total" (grpc_request_key_labels m.service_name)
        m.tables.errors
    <> "# HELP densecloud_grpc_request_duration_seconds gRPC request latency in seconds.\n"
    <> "# TYPE densecloud_grpc_request_duration_seconds histogram\n"
    <> histogram_lines ⦃e = grpc_duration_key_eq⦄ f grpc_duration_key_less
        "densecloud_grpc_request_duration_seconds" (grpc_duration_key_labels m.service_name)
        m.buckets m.tables.durations

-- AppendPrometheus, as a change of the builder's text.
unfoldable pub append_prometheus : Formats → Option GrpcMetrics → String → String
unfolding render_grpc
append_prometheus f none written = written
append_prometheus f (some m) written = written <> render_grpc f m
