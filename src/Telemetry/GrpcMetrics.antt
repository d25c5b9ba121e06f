-- ===== src/Telemetry/GrpcMetrics.antt =====
-- GRPCMetrics of go/telemetry/grpc_metrics.go: its constructor, BeginRPC and ObserveRPC. `none` is a
-- nil *GRPCMetrics.
pub mod Counted
pub mod Render
use dense_cloud.Prelude.{str_eq, ℤ, pos, negsuc, ◌+ℤ◌, ℕ, String, not, Option, none, some, List}
use dense_cloud.Telemetry.Keys.{
  GrpcRequestMetricKey, GrpcDurationMetricKey, grpc_request_key_eq, grpc_duration_key_eq,
}
use dense_cloud.Telemetry.Tables.{RedTables, Observation, no_requests, observe_in}
use dense_cloud.Telemetry.HttpMetrics.{buckets_or_default}

pub record GrpcMetrics : Type 0 where
  pub service_name : String
  pub buckets : List ℕ
  pub in_flight : ℤ
  pub tables : RedTables GrpcRequestMetricKey GrpcDurationMetricKey

-- The arguments are the fields of the config.
unfoldable pub new_grpc_metrics : String → List ℕ → GrpcMetrics
new_grpc_metrics service_name buckets = record {
  service_name = service_name;
  buckets = buckets_or_default buckets;
  in_flight = pos 0;
  tables = no_requests;
}

-- BeginRPC
unfoldable pub begin_rpc : Option GrpcMetrics → Option GrpcMetrics
begin_rpc none = none
begin_rpc (some m) = some (record m { in_flight = m.in_flight +ℤ pos 1 })

unfoldable pub grpc_observation :
    String → String → String → ℕ → Observation GrpcRequestMetricKey GrpcDurationMetricKey
grpc_observation method rpc_type code duration = record {
  key = record { method = method; rpc_type = rpc_type; code = code };
  duration_key = record { method = method; rpc_type = rpc_type };
  failed = not (str_eq code "OK");
  duration = duration;
}

-- ObserveRPC
unfoldable pub observe_rpc : String → String → String → ℕ → Option GrpcMetrics → Option GrpcMetrics
observe_rpc method rpc_type code duration none = none
observe_rpc method rpc_type code duration (some m) = some (record m {
  in_flight = m.in_flight +ℤ negsuc 0;
  tables =
      observe_in ⦃e = grpc_request_key_eq⦄ ⦃f = grpc_duration_key_eq⦄ m.buckets
        (grpc_observation method rpc_type code duration) m.tables;
})
