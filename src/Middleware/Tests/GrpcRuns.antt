-- ===== src/Middleware/Tests/GrpcRuns.antt =====
-- Runs of the gRPC interceptors of go/middleware, and their theorems at them.
use dense_cloud.Prelude.{
  if◌then◌else◌, pos, negsuc, ℕ, suc, String, ◌≡◌, refl, ◌≢◌, Bool, true, false, none, some, [],
  ◌∷◌, arith, eq_iff,
}
use dense_cloud.Middleware.CircuitBreaker.{
  CircuitBreakerConfig, default_circuit_breaker_config, Breaker,
}
use dense_cloud.Middleware.Grpc.{
  invalid_argument, unavailable, GrpcErr, status_error, Call, fails, panics, Handler,
  chain_interceptors,
}
use dense_cloud.Middleware.Grpc.Interceptors.{grpc_circuit_breaker}
use dense_cloud.Middleware.Grpc.Preset.{
  GrpcOutside, GrpcServerPresetConfig, inner_interceptors, grpc_server_preset,
}
use dense_cloud.Middleware.Grpc.Resilience.{
  IsAnswer, IsBreakerOutcome, grpc_server_preset-IsAnswer, grpc_circuit_breaker-IsBreakerOutcome,
  inner_interceptors-denied,
}
use dense_cloud.Telemetry.GrpcMetrics.{GrpcMetrics, new_grpc_metrics}
use dense_cloud.Middleware.Grpc.Observability.{unary, GrpcTracer, Recorded}
use dense_cloud.Middleware.Grpc.Counted.{IsCounted, grpc_server_preset-IsCounted}
use dense_cloud.Golang.Contexts.{background}
use dense_cloud.Middleware.Grpc.Measured.{KeepsMetrics}

-- The state counts the failures that are reported to the breaker, which accepts every call.
abbrev counting : Breaker ℕ GrpcErr
counting = record { accept = λ n. (n, none); report = λ success n. if success then n else suc n }

abbrev get_item : Call ℕ
get_item = record {
  ctx = background;
  metadata = record { values = λ key. []; keys = [] };
  peer_addr = none;
  request_id = none;
  span = record { trace_id = none; span_id = none };
  payload = 7;
}

abbrev reject_argument : Handler ℕ ℕ ℕ
reject_argument call n = (n, fails (status_error invalid_argument "no such item"))

abbrev crash : Handler ℕ ℕ ℕ
crash call n = (n, panics)

abbrev deny_all : String → ℕ → ℕ × Bool
deny_all key n = (n, false)

abbrev by_tenant : String → Call ℕ → String
by_tenant method call = "tenant"

abbrev no_op_tracer : GrpcTracer (Recorded ℕ)
no_op_tracer = record {
  extract = λ ctx carrier. ctx;
  start = λ ctx method s. (s, some (ctx, record { trace_id = some "4b"; span_id = some "00" }));
  end_span = λ s. s;
}

-- Metrics, and a count of the panics that were logged.
abbrev outside : GrpcOutside (Recorded ℕ)
outside = record {
  new_request_id = λ s. (s, "id");
  set_header = λ key value s. s;
  log_panic = λ id method s. (s.0, suc s.1);
  log = λ entry s. (s, false);
  tracer = λ name. no_op_tracer;
  code_string = λ code. "Internal";
  elapsed = λ s. 5;
  new_circuit_breaker = λ settings. record { accept = λ s. (s, none); report = λ success s. s };
  split = λ addr. none;
}

abbrev preset : GrpcServerPresetConfig ℕ ℕ (Recorded ℕ)
preset = record {
  tracer_name = "";
  extra_interceptors = none ∷ [];
  circuit_breaker = some default_circuit_breaker_config;
  rate_limiter = none;
  rate_limit_key_extractor = none;
}

abbrev crash_recorded : Handler ℕ ℕ (Recorded ℕ)
crash_recorded call s = (s, panics)

abbrev no_calls : GrpcMetrics
no_calls = new_grpc_metrics "items" (1 ∷ 10 ∷ [])

grpc_server_preset-IsAnswer_example :
    IsAnswer
      (chain_interceptors
        (grpc_server_preset unary outside preset)
        "/Items/Get"
        crash_recorded
        get_item
        (some no_calls, 0)).1
grpc_server_preset-IsAnswer_example =
    grpc_server_preset-IsAnswer unary outside preset "/Items/Get" crash_recorded get_item
      (some no_calls, 0)

outside-KeepsMetrics : KeepsMetrics outside
outside-KeepsMetrics = record {
  by_request_id = λ s. refl;
  by_header = λ key value s. refl;
  by_start = λ name ctx method s. refl;
  starts = λ name ctx method s e. cc;
  by_end = λ name s. refl;
  by_log = λ entry s. refl;
  logs = λ entry s. refl;
  by_log_panic = λ id method s. refl;
}

grpc_server_preset-IsCounted_example :
    IsCounted unary outside "/Items/Get" no_calls
      (chain_interceptors (inner_interceptors outside preset) "/Items/Get" crash_recorded)
      get_item
      (chain_interceptors
        (grpc_server_preset unary outside preset)
        "/Items/Get"
        crash_recorded
        get_item
        (some no_calls, 0))
grpc_server_preset-IsCounted_example =
    grpc_server_preset-IsCounted unary outside preset "/Items/Get" crash_recorded get_item no_calls
      0 outside-KeepsMetrics

grpc_circuit_breaker-IsBreakerOutcome_example :
    IsBreakerOutcome (grpc_circuit_breaker counting "/Items/Get" reject_argument get_item 0).1
grpc_circuit_breaker-IsBreakerOutcome_example =
    grpc_circuit_breaker-IsBreakerOutcome counting "/Items/Get" reject_argument get_item 0

http_not_empty : ◌≢◌ {A = String} "http" ""
http_not_empty = ground (arith, eq_iff "http" "")

abbrev unset : CircuitBreakerConfig
unset = record {
  name = "";
  max_requests = 0;
  interval = pos 0;
  timeout = negsuc 4;
  ready_to_trip = 0;
}

abbrev own_state : GrpcOutside ℕ
own_state = record {
  new_request_id = λ n. (n, "0");
  set_header = λ key value n. n;
  log_panic = λ id method n. n;
  log = λ entry n. (n, true);
  tracer = λ name. record {
    extract = λ ctx carrier. ctx;
    start = λ ctx method n. (n, none);
    end_span = λ n. n;
  };
  code_string = λ code. "";
  elapsed = λ n. n;
  new_circuit_breaker = λ settings. counting;
  split = λ addr. none;
}

abbrev guarded : GrpcServerPresetConfig ℕ ℕ ℕ
guarded = record {
  tracer_name = "";
  extra_interceptors = [];
  circuit_breaker = some default_circuit_breaker_config;
  rate_limiter = some deny_all;
  rate_limit_key_extractor = some by_tenant;
}

inner_interceptors-denied_example :
    chain_interceptors (inner_interceptors own_state guarded) "/Items/Get" crash get_item 0
    ≡ (1, fails (status_error unavailable "service temporarily unavailable"))
inner_interceptors-denied_example =
    inner_interceptors-denied own_state guarded default_circuit_breaker_config deny_all "/Items/Get"
      crash get_item 0 refl refl refl refl refl
