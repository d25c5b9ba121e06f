-- ===== src/Telemetry/GrpcMetrics/Counted.antt =====
-- The gRPC metrics of go/telemetry/grpc_metrics.go under calls that begin and complete in any order.
use dense_cloud.Prelude.{
  str_eq, if◌then◌else◌, length, pos, negsuc, sub_ℕ, ◌+ℤ◌, get_or, ℕ, suc, String, ◌≡◌, refl, ◌∙◌,
  Option, some, List, [], ◌∷◌, arith, eq_iff,
}
use dense_cloud.Telemetry.Keys.{
  GrpcRequestMetricKey, GrpcDurationMetricKey, grpc_request_key_eq, grpc_duration_key_eq,
}
use dense_cloud.Telemetry.Tables.{
  Observation, observe_log, request_count, failure_count, durations_of, observe_log-requests,
  rendered_counts, observe_log-rendered,
}
use dense_cloud.Telemetry.HttpMetrics.{buckets_or_default}
use dense_cloud.Telemetry.GrpcMetrics.{
  GrpcMetrics, new_grpc_metrics, begin_rpc, grpc_observation, observe_rpc,
}
use dense_cloud.Telemetry.Histogram.{expected_counts, IsAscending}

pub data RpcEvent : Type 0 where
  begins : RpcEvent
  completes : String → String → String → ℕ → RpcEvent

abbrev pub rpc_step : RpcEvent → Option GrpcMetrics → Option GrpcMetrics
rpc_step begins m = begin_rpc m
rpc_step (completes method rpc_type code duration) m = observe_rpc method rpc_type code duration m

-- The metrics behind the events, the last one first.
unfoldable pub rpc_run : List RpcEvent → Option GrpcMetrics → Option GrpcMetrics
rpc_run [] m = m
rpc_run (event ∷ events) m = rpc_step event (rpc_run events m)

abbrev pub begun : List RpcEvent → ℕ
begun [] = 0
begun (begins ∷ events) = suc (begun events)
begun (completes method rpc_type code duration ∷ events) = begun events

abbrev pub completed : List RpcEvent → List (Observation GrpcRequestMetricKey GrpcDurationMetricKey)
completed [] = []
completed (begins ∷ events) = completed events
completed (completes method rpc_type code duration ∷ events) =
    grpc_observation method rpc_type code duration ∷ completed events

-- The state of the metrics behind the events.
abbrev ran : String → List ℕ → List RpcEvent → GrpcMetrics
ran service_name buckets events = record {
  service_name = service_name;
  buckets = buckets_or_default buckets;
  in_flight = sub_ℕ (begun events) (length (completed events));
  tables =
      observe_log ⦃e = grpc_request_key_eq⦄ ⦃f = grpc_duration_key_eq⦄ (buckets_or_default buckets)
        (completed events);
}

one_more : (a b : ℕ) → sub_ℕ a b +ℤ pos 1 ≡ sub_ℕ (suc a) b
unfolding ◌+ℤ◌
one_more a b = ground arith

one_fewer : (a b : ℕ) → sub_ℕ a b +ℤ negsuc 0 ≡ sub_ℕ a (suc b)
unfolding ◌+ℤ◌
one_fewer a b = ground arith

rpc_run-ran :
    (service_name : String) (buckets : List ℕ) (events : List RpcEvent)
    → rpc_run events (some (new_grpc_metrics service_name buckets))
      ≡ some (ran service_name buckets events)
unfolding rpc_run new_grpc_metrics observe_log begin_rpc observe_rpc
rpc_run-ran service_name buckets [] = refl
rpc_run-ran service_name buckets (begins ∷ events) =
    rw (rpc_run-ran service_name buckets events)
      (rw (one_more (begun events) (length (completed events))) refl)
rpc_run-ran service_name buckets (completes method rpc_type code duration ∷ events) =
    rw (rpc_run-ran service_name buckets events)
      (rw (one_fewer (begun events) (length (completed events))) refl)

completed-failures :
    (events : List RpcEvent) (key : GrpcRequestMetricKey)
    → failure_count ⦃e = grpc_request_key_eq⦄ key (completed events) ≡ (
        if str_eq key.code "OK"
        then 0
        else request_count ⦃e = grpc_request_key_eq⦄ key (completed events))
unfolding grpc_observation
completed-failures [] key = ground arith
completed-failures (begins ∷ events) key = completed-failures events key
completed-failures (completes method rpc_type code duration ∷ events) key = ground (
  arith,
  completed-failures events key,
  eq_iff code key.code,
  eq_iff code "OK",
  eq_iff key.code "OK",
)

-- For ascending buckets, calls that begin and complete in any order leave these metrics: in flight are
-- the calls that began less those that completed; a key has as many requests as calls of that method,
-- type and code completed, and as many errors if the code is not OK, else none; and the histogram of a
-- method and type shows, for each bound, how many of its calls took at most that long, and for +Inf
-- how many there were.
pub rpc_run-counts :
    (service_name : String) (buckets : List ℕ) (events : List RpcEvent) (key : GrpcRequestMetricKey)
    (duration_key : GrpcDurationMetricKey)
    → IsAscending (buckets_or_default buckets)
    → (m : GrpcMetrics) × (rpc_run events (some (new_grpc_metrics service_name buckets)) ≡ some m)
      × (m.in_flight ≡ sub_ℕ (begun events) (length (completed events)))
      × (get_or ⦃e = grpc_request_key_eq⦄ 0 key m.tables.requests
          ≡ request_count ⦃e = grpc_request_key_eq⦄ key (completed events))
      × (get_or ⦃e = grpc_request_key_eq⦄ 0 key m.tables.errors ≡ (
          if str_eq key.code "OK"
          then 0
          else get_or ⦃e = grpc_request_key_eq⦄ 0 key m.tables.requests))
      × (rendered_counts ⦃f = grpc_duration_key_eq⦄ m.buckets duration_key m.tables
          ≡ expected_counts m.buckets
              (durations_of ⦃f = grpc_duration_key_eq⦄ duration_key (completed events)))
rpc_run-counts service_name buckets events key duration_key a =
    let bounds = buckets_or_default buckets in
    let (requests, errors) = observe_log-requests bounds (completed events) key in
    (
      ran service_name buckets events,
      rpc_run-ran service_name buckets events,
      refl,
      requests,
      errors ∙ rw requests (completed-failures events key),
      observe_log-rendered bounds (completed events) duration_key a,
    )
