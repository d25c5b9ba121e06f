-- ===== src/Telemetry/HttpMetrics.antt =====
-- HTTPMetrics of go/telemetry/metrics.go: its constructor, `observe`, and the middleware with its
-- response writer. `decimal` is %d of package fmt, and `elapsed` reads the clock of the state.
pub mod Counted
pub mod Order
pub mod Render
pub mod Tables
use dense_cloud.Prelude.{
  leb, str_eq, if◌then◌else◌, any, ℤ, pos, negsuc, ◌+ℤ◌, ℕ, ◌+◌, ◌/◌, String, ◌<>◌, Bool, true,
  false, not, ◌&&◌, Option, none, some, List, [], ◌∷◌, ◌++◌,
}
use dense_cloud.Golang.NetHttp.{
  WriterCall, set_header, add_header, write_header, write, read_from, Request, HttpMiddleware,
}
use dense_cloud.Telemetry.Keys.{
  RequestMetricKey, DurationMetricKey, request_key_eq, duration_key_eq,
}
use dense_cloud.Telemetry.Tables.{RedTables, Observation, no_requests, observe_in}

-- In nanoseconds, from 5ms to 10s.
abbrev pub default_http_metrics_buckets : List ℕ
default_http_metrics_buckets =
    5000000 ∷ 10000000 ∷ 25000000 ∷ 50000000 ∷ 100000000 ∷ 250000000 ∷ 500000000 ∷ 1000000000
    ∷ 2500000000 ∷ 5000000000 ∷ 10000000000 ∷ []

-- A collector appends to a text; `none` is a nil collector.
pub record HttpMetricsConfig : Type 0 where
  pub service_name : String
  pub buckets : List ℕ
  pub ignore_paths : List String
  pub path_labeler : Option (Request → String)
  pub collectors : List (Option (String → String))

-- What the constructor sets for good, and what the handlers change.
pub record HttpMetrics : Type 0 where
  pub service_name : String
  pub buckets : List ℕ
  pub path_labeler : Request → String
  pub ignored : List String
  pub collectors : List (Option (String → String))

pub record HttpRecorded : Type 0 where
  pub in_flight : ℤ
  pub tables : RedTables RequestMetricKey DurationMetricKey

-- `if len(buckets) == 0`
abbrev pub buckets_or_default : List ℕ → List ℕ
buckets_or_default [] = default_http_metrics_buckets
buckets_or_default (bound ∷ bounds) = bound ∷ bounds

abbrev pub drop_empty : List String → List String
drop_empty [] = []
drop_empty (path ∷ paths) =
    let rest = drop_empty paths in if str_eq path "" then rest else path ∷ rest

unfoldable pub default_path_labeler : Request → String
default_path_labeler r = if str_eq r.path "" then "/" else r.path

unfoldable pub new_http_metrics : HttpMetricsConfig → HttpMetrics × HttpRecorded
new_http_metrics cfg = (
  record {
    service_name = cfg.service_name;
    buckets = buckets_or_default cfg.buckets;
    path_labeler = elim cfg.path_labeler [ none ↦ default_path_labeler | some labeler ↦ labeler ];
    ignored = drop_empty cfg.ignore_paths;
    collectors = cfg.collectors;
  },
  record { in_flight = pos 0; tables = no_requests },
)

-- `metricsResponseWriter`, without the writer in it.
pub record MetricsResponseWriter : Type 0 where
  pub status_code : ℕ
  pub written : ℕ
  pub wrote : Bool

abbrev pub new_metrics_writer : MetricsResponseWriter
new_metrics_writer = record { status_code = 0; written = 0; wrote = false }

-- WriteHeader, and the call of the writer in it that follows, if any.
unfoldable pub metrics_write_header :
    ℕ → MetricsResponseWriter → MetricsResponseWriter × List WriterCall
metrics_write_header code writer =
    if writer.wrote
    then (writer, [])
    else (record writer { wrote = true; status_code = code }, write_header code ∷ [])

-- Write and ReadFrom: a status first, then the body; `n` bytes of it are written.
unfoldable pub metrics_body :
    ℕ → WriterCall → MetricsResponseWriter → MetricsResponseWriter × List WriterCall
unfolding metrics_write_header
metrics_body n call writer =
    let (writer₁, first) = metrics_write_header 200 writer in
    (record writer₁ { written = writer₁.written + n }, first ++ call ∷ [])

unfoldable pub metrics_call :
    (String → ℕ) → WriterCall → MetricsResponseWriter → MetricsResponseWriter × List WriterCall
unfolding metrics_write_header metrics_body
metrics_call size (set_header key value) writer = (writer, set_header key value ∷ [])
metrics_call size (add_header key value) writer = (writer, add_header key value ∷ [])
metrics_call size (write_header code) writer = metrics_write_header code writer
metrics_call size (write bytes) writer = metrics_body (size bytes) (write bytes) writer
metrics_call size (read_from bytes) writer = metrics_body (size bytes) (read_from bytes) writer

unfoldable pub metrics_calls :
    (String → ℕ) → List WriterCall → MetricsResponseWriter → MetricsResponseWriter × List WriterCall
metrics_calls size [] writer = (writer, [])
metrics_calls size (call ∷ calls) writer =
    let (writer₁, first) = metrics_call size call writer in
    let (writer₂, rest) = metrics_calls size calls writer₁ in (writer₂, first ++ rest)

-- StatusCode
unfoldable pub metrics_status_code : MetricsResponseWriter → ℕ
metrics_status_code writer = if writer.wrote then writer.status_code else 200

-- The keys and the failure of a request.
unfoldable pub http_observation :
    (ℕ → String) → String → String → ℕ → ℕ → Observation RequestMetricKey DurationMetricKey
http_observation decimal method path status_code duration = record {
  key = record { method = method; path = path; status_class = decimal (status_code / 100) <> "xx" };
  duration_key = record { method = method; path = path };
  failed = leb 400 status_code;
  duration = duration;
}

-- `observe`, and then `m.inFlight.Add(-1)`.
unfoldable pub http_observe :
    HttpMetrics → Observation RequestMetricKey DurationMetricKey → HttpRecorded → HttpRecorded
http_observe m o recorded = record recorded {
  tables = observe_in ⦃e = request_key_eq⦄ ⦃f = duration_key_eq⦄ m.buckets o recorded.tables;
}

abbrev pub add_in_flight : ℤ → HttpRecorded → HttpRecorded
add_in_flight n recorded = record recorded { in_flight = recorded.in_flight +ℤ n }

module _ {S : Type 0} where
  -- The deferred function: the status, the metrics behind it, and the panic that goes on.
  unfoldable pub metrics_deferred :
      (String → ℕ)
      → (ℕ → String)
      → (S → ℕ)
      → HttpMetrics
      → Request
      → (HttpRecorded × S) × List WriterCall × Bool
      → (HttpRecorded × S) × List WriterCall × Bool
  metrics_deferred size decimal elapsed m r ((recorded, s), calls, panicked) =
      let (writer, passed) = metrics_calls size calls new_metrics_writer in
      let status = if panicked && not writer.wrote then 500 else metrics_status_code writer in
      let o = http_observation decimal r.method (m.path_labeler r) status (elapsed s) in
      ((add_in_flight (negsuc 0) (http_observe m o recorded), s), passed, panicked)

  unfoldable pub metrics_middleware :
      (String → ℕ) → (ℕ → String) → (S → ℕ) → HttpMetrics → HttpMiddleware (HttpRecorded × S)
  metrics_middleware size decimal elapsed m next r headers (recorded, s) =
      if any (λ path. str_eq path (m.path_labeler r)) m.ignored
      then next r headers (recorded, s)
      else metrics_deferred size decimal elapsed m r
          (next r headers (add_in_flight (pos 1) recorded, s))
