-- ===== src/Middleware/Grpc/Observability.antt =====
-- The tracing, logging and metrics interceptors of go/middleware/grpc.go. Outside are OpenTelemetry,
-- as a tracer with a propagator, grpc.SetHeader, the logger, the clock and the names of codes.
use dense_cloud.Prelude.{if◌then◌else◌, ℕ, String, Bool, Option, none, some, List, [], ◌∷◌}
use dense_cloud.Golang.Contexts.{Context}
use dense_cloud.Middleware.Http.Tracing.{SpanIds}
use dense_cloud.Middleware.Grpc.{
  Code, ok_code, internal, code_of, Metadata, Call, Outcome, replies, fails, panics, Handler,
  Interceptor, is_grpc_server_failure,
}
use dense_cloud.Middleware.Grpc.Interceptors.{context_request_id, context_trace_id}
use dense_cloud.Telemetry.GrpcMetrics.{GrpcMetrics, begin_rpc, observe_rpc}

-- Which form of an interceptor runs.
pub data RpcType : Type 0 where
  unary stream : RpcType

abbrev pub rpc_type_label : RpcType → String
rpc_type_label unary = "unary"
rpc_type_label stream = "stream"

-- The propagation.TextMapCarrier that the propagator reads.
pub record MetadataCarrier : Type 0 where
  pub get : String → String
  pub keys : List String

abbrev pub first_value : List String → String
first_value [] = ""
first_value (value ∷ values) = value

-- Keys ranges over the map, and copies its keys.
abbrev pub carrier_keys : Metadata → List String
carrier_keys md = md.keys

unfoldable pub metadata_carrier : Metadata → MetadataCarrier
metadata_carrier md = record { get = λ key. first_value (md.values key); keys = carrier_keys md }

-- `extract` is the propagator's, `start` and `end_span` are the tracer's; a start that gives `none`
-- panics.
pub record GrpcTracer (S : Type 0) : Type 0 where
  pub extract : Context → MetadataCarrier → Context
  pub start : Context → String → S → S × Option (Context × SpanIds)
  pub end_span : S → S

module _ {S : Type 0} where
  abbrev pub set_header_if_some : (String → String → S → S) → String → Option String → S → S
  set_header_if_some set_header key none s = s
  set_header_if_some set_header key (some id) s = set_header key id s

module _ {Q R S : Type 0} where
  -- What follows the start of the span, which ends by `defer`, behind a panic too.
  unfoldable pub in_span :
      GrpcTracer S
      → (String → String → S → S)
      → Handler Q R S
      → Call Q
      → S
      → Option (Context × SpanIds)
      → S × Outcome R
  in_span tracer set_header handler call s none = (s, panics)
  in_span tracer set_header handler call s (some (ctx, span)) =
      let s₂ = set_header_if_some set_header "x-trace-id" span.trace_id s in
      let s₃ = set_header_if_some set_header "x-span-id" span.span_id s₂ in
      let (s₄, outcome) = handler (record call { ctx = ctx; span = span }) s₃ in
      (tracer.end_span s₄, outcome)

  unfoldable pub grpc_tracing : GrpcTracer S → (String → String → S → S) → Interceptor Q R S
  grpc_tracing tracer set_header method handler call s =
      let (s₁, started) =
        tracer.start (tracer.extract call.ctx (metadata_carrier call.metadata)) method s in
      in_span tracer set_header handler call s₁ started

-- The level at which a completed call is logged.
pub data LogLevel : Type 0 where
  log_error log_warn log_info : LogLevel

unfoldable pub grpc_log_level : Code → LogLevel
grpc_log_level ok_code = log_info
grpc_log_level code = if is_grpc_server_failure code then log_error else log_warn

-- The attributes of the log line; the latency is outside.
pub record GrpcLogEntry : Type 0 where
  pub level : LogLevel
  pub message : String
  pub request_id : String
  pub trace_id : String
  pub method : String
  pub code : Code

abbrev pub completion_message : RpcType → String
completion_message unary = "grpc request completed"
completion_message stream = "grpc stream completed"

module _ {Q : Type 0} where
  -- logGRPCCompletion
  unfoldable pub log_grpc_completion : RpcType → Call Q → String → Code → GrpcLogEntry
  log_grpc_completion rpc_type call method code = record {
    level = grpc_log_level code;
    message = completion_message rpc_type;
    request_id = context_request_id call;
    trace_id = context_trace_id call;
    method = method;
    code = code;
  }

module _ {R S : Type 0} where
  -- Behind a log line, which may panic itself.
  abbrev pub unless_panicked : Outcome R → S × Bool → S × Outcome R
  unless_panicked outcome (s, panicked) = (s, if panicked then panics else outcome)

  abbrev pub logged : (Code → S → S × Bool) → S × Outcome R → S × Outcome R
  logged log (s, replies resp) = unless_panicked (replies resp) (log ok_code s)
  logged log (s, fails e) = unless_panicked (fails e) (log (code_of e) s)
  logged log (s, panics) = (s, panics)

module _ {Q R S : Type 0} where
  -- A panic unwinds past the log line.
  unfoldable pub grpc_logging : (GrpcLogEntry → S → S × Bool) → RpcType → Interceptor Q R S
  grpc_logging log rpc_type method handler call s =
      logged (λ code. log (log_grpc_completion rpc_type call method code)) (handler call s)

module _ {R : Type 0} where
  abbrev pub outcome_code : Outcome R → Code
  outcome_code (replies resp) = ok_code
  outcome_code (fails e) = code_of e
  outcome_code panics = internal

-- The metrics that the configuration points to, `none` for nil, and the rest of the process.
abbrev pub Recorded : Type 0 → Type 0
Recorded S = Option GrpcMetrics × S

module _ {Q R S : Type 0} where
  -- `elapsed` is the time since the call began, in the unit of the buckets.
  unfoldable pub grpc_metrics :
      (Code → String) → (Recorded S → ℕ) → RpcType → Interceptor Q R (Recorded S)
  grpc_metrics code_string elapsed rpc_type method handler call (none, s) = handler call (none, s)
  grpc_metrics code_string elapsed rpc_type method handler call (some m, s) =
      let ((metrics, s₁), outcome) = handler call (begin_rpc (some m), s) in
      (
        (
          observe_rpc method (rpc_type_label rpc_type) (code_string (outcome_code outcome))
              (elapsed (metrics, s₁)) metrics,
          s₁,
        ),
        outcome,
      )
