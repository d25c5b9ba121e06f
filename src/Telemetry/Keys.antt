-- ===== src/Telemetry/Keys.antt =====
-- The keys of the metrics' tables in go/telemetry/metrics.go and go/telemetry/grpc_metrics.go, with
-- the comparison of Go.
use dense_cloud.Prelude.{str_eq, Eq, String, ◌≡◌, ◌↔◌, Bool, true, ◌&&◌, arith, eq_iff}

pub record RequestMetricKey : Type 0 where
  pub method : String
  pub path : String
  pub status_class : String

pub record DurationMetricKey : Type 0 where
  pub method : String
  pub path : String

pub record GrpcRequestMetricKey : Type 0 where
  pub method : String
  pub rpc_type : String
  pub code : String

pub record GrpcDurationMetricKey : Type 0 where
  pub method : String
  pub rpc_type : String

abbrev pub request_key_same : RequestMetricKey → RequestMetricKey → Bool
request_key_same a b =
    str_eq a.method b.method && str_eq a.path b.path && str_eq a.status_class b.status_class

pub request_key_same_iff : (a b : RequestMetricKey) → (request_key_same a b ≡ true) ↔ (a ≡ b)
request_key_same_iff a b = (
  (λ e. ground (
    arith,
    e,
    eq_iff a.method b.method,
    eq_iff a.path b.path,
    eq_iff a.status_class b.status_class,
  )),
  (λ e. ground (
    arith,
    e,
    eq_iff a.method b.method,
    eq_iff a.path b.path,
    eq_iff a.status_class b.status_class,
  )),
)

instance abbrev pub request_key_eq : Eq RequestMetricKey
request_key_eq = record { same = request_key_same; same_iff = request_key_same_iff }

abbrev pub duration_key_same : DurationMetricKey → DurationMetricKey → Bool
duration_key_same a b = str_eq a.method b.method && str_eq a.path b.path

pub duration_key_same_iff : (a b : DurationMetricKey) → (duration_key_same a b ≡ true) ↔ (a ≡ b)
duration_key_same_iff a b = (
  (λ e. ground (arith, e, eq_iff a.method b.method, eq_iff a.path b.path)),
  (λ e. ground (arith, e, eq_iff a.method b.method, eq_iff a.path b.path)),
)

instance abbrev pub duration_key_eq : Eq DurationMetricKey
duration_key_eq = record { same = duration_key_same; same_iff = duration_key_same_iff }

abbrev pub grpc_request_key_same : GrpcRequestMetricKey → GrpcRequestMetricKey → Bool
grpc_request_key_same a b =
    str_eq a.method b.method && str_eq a.rpc_type b.rpc_type && str_eq a.code b.code

pub grpc_request_key_same_iff :
    (a b : GrpcRequestMetricKey) → (grpc_request_key_same a b ≡ true) ↔ (a ≡ b)
grpc_request_key_same_iff a b = (
  (λ e.
      ground
        (arith, e, eq_iff a.method b.method, eq_iff a.rpc_type b.rpc_type, eq_iff a.code b.code)),
  (λ e.
      ground
        (arith, e, eq_iff a.method b.method, eq_iff a.rpc_type b.rpc_type, eq_iff a.code b.code)),
)

instance abbrev pub grpc_request_key_eq : Eq GrpcRequestMetricKey
grpc_request_key_eq = record { same = grpc_request_key_same; same_iff = grpc_request_key_same_iff }

abbrev pub grpc_duration_key_same : GrpcDurationMetricKey → GrpcDurationMetricKey → Bool
grpc_duration_key_same a b = str_eq a.method b.method && str_eq a.rpc_type b.rpc_type

pub grpc_duration_key_same_iff :
    (a b : GrpcDurationMetricKey) → (grpc_duration_key_same a b ≡ true) ↔ (a ≡ b)
grpc_duration_key_same_iff a b = (
  (λ e. ground (arith, e, eq_iff a.method b.method, eq_iff a.rpc_type b.rpc_type)),
  (λ e. ground (arith, e, eq_iff a.method b.method, eq_iff a.rpc_type b.rpc_type)),
)

instance abbrev pub grpc_duration_key_eq : Eq GrpcDurationMetricKey
grpc_duration_key_eq = record {
  same = grpc_duration_key_same;
  same_iff = grpc_duration_key_same_iff;
}
