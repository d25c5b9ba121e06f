-- ===== src/Telemetry/MetricsRuns.antt =====
-- Runs of the metrics of go/telemetry, and their theorems at them.
use mathlib.Core.List.{Permᴰ}
use dense_cloud.Prelude.{
  ◌==◌, if◌then◌else◌, pos, negsuc, get_or, ℕ, suc, String, ◌≡◌, refl, true, none, some, List, [],
  ◌∷◌, arith,
}
use dense_cloud.Golang.Contexts.{background}
use dense_cloud.Golang.NetHttp.{set_header, serve, unsent, Request, HttpHandler}
use dense_cloud.Telemetry.Histogram.{expected_counts}
use dense_cloud.Telemetry.Keys.{
  RequestMetricKey, DurationMetricKey, GrpcRequestMetricKey, GrpcDurationMetricKey,
  grpc_request_key_eq, grpc_duration_key_eq,
}
use dense_cloud.Telemetry.Tables.{no_requests, durations_of, rendered_counts}
use dense_cloud.Telemetry.Labels.{labels}
use dense_cloud.Telemetry.Labels.Reader.{read_labels}
use dense_cloud.Telemetry.Labels.RoundTrip.{read_labels-labels}
use dense_cloud.Telemetry.HttpMetrics.{
  HttpMetricsConfig, HttpMetrics, HttpRecorded, default_path_labeler, new_http_metrics,
  http_observation, http_observe, add_in_flight, metrics_middleware,
}
use dense_cloud.Telemetry.HttpMetrics.Counted.{counted_status, metrics_middleware-counts}
use dense_cloud.Telemetry.HttpMetrics.Tables.{CompletedRequest}
use dense_cloud.Telemetry.HttpMetrics.Order.{render_prometheus-Perm}
use dense_cloud.Telemetry.HttpMetrics.Render.{render_prometheus}
use dense_cloud.Telemetry.GrpcMetrics.{GrpcMetrics, new_grpc_metrics, grpc_observation}
use dense_cloud.Telemetry.GrpcMetrics.Counted.{
  RpcEvent, begins, completes, rpc_run, completed, rpc_run-counts,
}
use dense_cloud.Telemetry.Text.{Formats}

-- A value that tries to end its label.
abbrev hostile : List (String × String)
hostile = ("method", "GET") ∷ ("path", "/a\",code=\"200\\\n") ∷ []

read_labels-labels_example :
    read_labels (labels "dense" hostile) ≡ some (("service", "dense") ∷ hostile)
read_labels-labels_example =
    read_labels-labels "dense" hostile
      ((refl, (refl, (refl, (refl, (refl, (refl, tt)))))), ((refl, (refl, (refl, (refl, tt)))), tt))

abbrev digits : ℕ → String
digits n = if n == 2 then "2" else if n == 5 then "5" else "4"

-- The handler sets a header and panics.
abbrev breaks : HttpHandler (HttpRecorded × ℕ)
breaks r headers (recorded, n) = ((recorded, suc n), set_header "X-Item" "7" ∷ [], true)

abbrev get_item : Request
get_item = record {
  method = "GET";
  path = "/v1/items/7";
  headers = [];
  remote_addr = "10.0.0.1:4711";
  content_length = pos 0;
  body_limit = none;
  ctx = background;
  request_id = none;
}

abbrev config : HttpMetricsConfig
config = record {
  service_name = "dense";
  buckets = 5 ∷ 10 ∷ [];
  ignore_paths = "" ∷ "/metrics" ∷ [];
  path_labeler = none;
  collectors = [];
}

abbrev dense_metrics : HttpMetrics
unfolding new_http_metrics
dense_metrics = (new_http_metrics config).0

abbrev nothing_recorded : HttpRecorded
nothing_recorded = record { in_flight = pos 0; tables = no_requests }

metrics_middleware-counts_example :
    let ((recorded₁, s₁), calls, panicked) =
      breaks get_item [] (add_in_flight (pos 1) nothing_recorded, 0) in
    let (end, passed, panics) =
      metrics_middleware
        (λ bytes. 1)
        digits
        (λ n. n)
        dense_metrics
        breaks
        get_item
        []
        (nothing_recorded, 0) in
    let status = counted_status panicked (serve unsent calls) in
    let o = http_observation digits "GET" (dense_metrics.path_labeler get_item) status s₁ in
    (serve unsent passed ≡ serve unsent calls)
    × (panics ≡ panicked)
    × (end ≡ (add_in_flight (negsuc 0) (http_observe dense_metrics o recorded₁), s₁))
unfolding dense_metrics default_path_labeler
metrics_middleware-counts_example =
    metrics_middleware-counts (λ bytes. 1) digits (λ n. n) dense_metrics breaks get_item []
      nothing_recorded 0 refl tt

abbrev two_requests : List CompletedRequest
two_requests =
    record { method = "GET"; path = "/v1/*"; status_code = 200; duration = 7 }
    ∷ record { method = "GET"; path = "/v1/*"; status_code = 503; duration = 70 }
    ∷ []

abbrev get_5xx : RequestMetricKey
get_5xx = record { method = "GET"; path = "/v1/*"; status_class = "5xx" }

abbrev get_api : DurationMetricKey
get_api = record { method = "GET"; path = "/v1/*" }

-- The second call began before the first one completed.
abbrev overlapping : List RpcEvent
overlapping = completes "/Items/Get" "unary" "NotFound" 7 ∷ begins ∷ begins ∷ []

abbrev not_found : GrpcRequestMetricKey
not_found = record { method = "/Items/Get"; rpc_type = "unary"; code = "NotFound" }

abbrev unary_get : GrpcDurationMetricKey
unary_get = record { method = "/Items/Get"; rpc_type = "unary" }

rpc_run-counts_example :
    (m : GrpcMetrics) × (rpc_run overlapping (some (new_grpc_metrics "dense" (5 ∷ 10 ∷ [])))
      ≡ some m)
    × (m.in_flight ≡ pos 1)
    × (get_or ⦃e = grpc_request_key_eq⦄ 0 not_found m.tables.requests ≡ 1)
    × (get_or ⦃e = grpc_request_key_eq⦄ 0 not_found m.tables.errors
        ≡ get_or ⦃e = grpc_request_key_eq⦄ 0 not_found m.tables.requests)
    × (rendered_counts ⦃f = grpc_duration_key_eq⦄ m.buckets unary_get m.tables
        ≡ expected_counts m.buckets
            (durations_of ⦃f = grpc_duration_key_eq⦄ unary_get (completed overlapping)))
unfolding grpc_observation
rpc_run-counts_example =
    rpc_run-counts "dense" (5 ∷ 10 ∷ []) overlapping not_found unary_get
      ((omega arith, tt), (tt, tt))

abbrev get_2xx : RequestMetricKey
get_2xx = record { method = "GET"; path = "/v1/*"; status_class = "2xx" }

abbrev one_order : HttpRecorded
one_order = record {
  in_flight = pos 1;
  tables = record {
    requests = (get_5xx, 1) ∷ (get_2xx, 4) ∷ [];
    errors = (get_5xx, 1) ∷ [];
    durations = [];
  };
}

abbrev other_order : HttpRecorded
other_order = record {
  in_flight = pos 1;
  tables = record {
    requests = (get_2xx, 4) ∷ (get_5xx, 1) ∷ [];
    errors = (get_5xx, 1) ∷ [];
    durations = [];
  };
}

abbrev texts : Formats
texts = record { unsigned = digits; signed = λ n. "1"; seconds = λ n. "0.007" }

render_prometheus-Perm_example :
    render_prometheus texts dense_metrics one_order
    ≡ render_prometheus texts dense_metrics other_order
render_prometheus-Perm_example =
    render_prometheus-Perm texts dense_metrics one_order other_order refl (refl, (refl, tt))
      (refl, tt) tt (Permᴰ.swap refl refl) (Permᴰ.cons refl Permᴰ.nil) Permᴰ.nil
