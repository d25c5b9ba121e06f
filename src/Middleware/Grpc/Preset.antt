-- ===== src/Middleware/Grpc/Preset.antt =====
-- The order of interceptors of go/middleware/grpc_preset.go, for the unary and the stream list alike.
use dense_cloud.Prelude.{
  str_eq, if◌then◌else◌, ℕ, String, Bool, Option, none, some, List, [], ◌∷◌, ◌++◌,
}
use dense_cloud.Middleware.CircuitBreaker.{
  CircuitBreakerConfig, BreakerSettings, grpc_breaker_settings, Breaker,
}
use dense_cloud.Middleware.Grpc.{Code, GrpcErr, Call, Interceptor}
use dense_cloud.Middleware.Grpc.Interceptors.{
  grpc_request_id_interceptor, grpc_recovery, rate_limit_key, grpc_rate_limit_with_key,
  grpc_circuit_breaker,
}
use dense_cloud.Middleware.Grpc.Observability.{
  RpcType, GrpcTracer, grpc_tracing, GrpcLogEntry, grpc_logging, Recorded, grpc_metrics,
}

-- What the interceptors take from outside: `tracer` is otel.Tracer with the global propagator,
-- `new_circuit_breaker` is gobreaker's, `split` is net.SplitHostPort, and
-- `log` tells whether it panics.
pub record GrpcOutside (S : Type 0) : Type 0 where
  pub new_request_id : S → S × String
  pub set_header : String → String → S → S
  pub log_panic : String → String → S → S
  pub log : GrpcLogEntry → S → S × Bool
  pub tracer : String → GrpcTracer S
  pub code_string : Code → String
  pub elapsed : S → ℕ
  pub new_circuit_breaker : BreakerSettings → Breaker S GrpcErr
  pub split : String → Option String

-- GRPCServerPresetConfig, with the interceptors and the extractor of one form; `none` is nil. Its
-- metrics are the first part of the state.
pub record GrpcServerPresetConfig (Q R S : Type 0) : Type 0 where
  pub tracer_name : String
  pub extra_interceptors : List (Option (Interceptor Q R S))
  pub circuit_breaker : Option CircuitBreakerConfig
  pub rate_limiter : Option (String → S → S × Bool)
  pub rate_limit_key_extractor : Option (String → Call Q → String)

module _ {Q R S : Type 0} where
  abbrev pub breaker_interceptors :
      (BreakerSettings → Breaker S GrpcErr)
      → Option CircuitBreakerConfig
      → List (Option (Interceptor Q R S))
  breaker_interceptors new_circuit_breaker none = []
  breaker_interceptors new_circuit_breaker (some cfg) =
      some (grpc_circuit_breaker (new_circuit_breaker (grpc_breaker_settings cfg))) ∷ []

  abbrev pub limiter_interceptors :
      (String → Call Q → String)
      → Option (String → S → S × Bool)
      → List (Option (Interceptor Q R S))
  limiter_interceptors key_of none = []
  limiter_interceptors key_of (some limiter_allow_key) =
      some (grpc_rate_limit_with_key (some limiter_allow_key) key_of) ∷ []

  -- The interceptors that stand behind the metrics.
  abbrev pub inner_interceptors :
      GrpcOutside S → GrpcServerPresetConfig Q R S → List (Option (Interceptor Q R S))
  inner_interceptors out cfg =
      cfg.extra_interceptors
      ++ (breaker_interceptors out.new_circuit_breaker cfg.circuit_breaker
          ++ limiter_interceptors (rate_limit_key out.split cfg.rate_limit_key_extractor)
              cfg.rate_limiter)

module _ {Q R S : Type 0} where
  -- The interceptors that stand behind the recovery.
  abbrev pub observed_interceptors :
      RpcType
      → GrpcOutside (Recorded S)
      → GrpcServerPresetConfig Q R (Recorded S)
      → List (Option (Interceptor Q R (Recorded S)))
  observed_interceptors rpc_type out cfg =
      let tracer_name = if str_eq cfg.tracer_name "" then "dense-grpc" else cfg.tracer_name in
      some (grpc_tracing (out.tracer tracer_name) out.set_header)
      ∷ some (grpc_logging out.log rpc_type)
      ∷ some (grpc_metrics out.code_string out.elapsed rpc_type)
      ∷ inner_interceptors out cfg

  unfoldable pub grpc_server_preset :
      RpcType
      → GrpcOutside (Recorded S)
      → GrpcServerPresetConfig Q R (Recorded S)
      → List (Option (Interceptor Q R (Recorded S)))
  grpc_server_preset rpc_type out cfg =
      some (grpc_request_id_interceptor out.new_request_id out.set_header)
      ∷ some (grpc_recovery out.log_panic)
      ∷ observed_interceptors rpc_type out cfg
