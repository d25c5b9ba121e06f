-- ===== src/Middleware/Grpc/Resilience.antt =====
-- What the recovery, the circuit breaker and the rate limit of go/middleware/grpc.go make of errors
-- and panics, alone and in the order of go/middleware/grpc_preset.go.
use dense_cloud.Prelude.{if_both, String, ◌≡◌, refl, Bool, true, false, Option, none, some, []}
use dense_cloud.Middleware.CircuitBreaker.{CircuitBreakerConfig, grpc_breaker_settings, Breaker}
use dense_cloud.Middleware.Grpc.{
  unavailable, GrpcErr, status_error, plain_error, code_of, Call, Outcome, replies, fails, panics,
  Handler, is_grpc_server_failure, chain_interceptors,
}
use dense_cloud.Middleware.Grpc.Interceptors.{
  context_request_id, grpc_request_id, grpc_request_id_interceptor, recover_with, grpc_recovery,
  rate_limit_key, grpc_rate_limit_with_key, breaker_error, executed, accepted, grpc_circuit_breaker,
}
use dense_cloud.Middleware.Grpc.Preset.{
  GrpcOutside, GrpcServerPresetConfig, inner_interceptors, observed_interceptors,
  grpc_server_preset,
}
use dense_cloud.Middleware.Grpc.Observability.{RpcType, Recorded}

abbrev pub IsAnswer : {R : Type 0} → Outcome R → Type 0
IsAnswer (replies resp) = Unit
IsAnswer (fails e) = Unit
IsAnswer panics = ⊥

recover_with-IsAnswer :
    {R S : Type 0} (log_panic : S → S) (s : S) (outcome : Outcome R)
    → IsAnswer (recover_with log_panic (s, outcome)).1
recover_with-IsAnswer log_panic s (replies resp) = tt
recover_with-IsAnswer log_panic s (fails e) = tt
recover_with-IsAnswer log_panic s panics = tt

-- The outcomes that a circuit breaker lets out.
abbrev pub IsBreakerOutcome : {R : Type 0} → Outcome R → Type 0
IsBreakerOutcome (replies resp) = Unit
IsBreakerOutcome (fails e) = is_grpc_server_failure (code_of e) ≡ true
IsBreakerOutcome panics = Unit

breaker_error-IsBreakerOutcome :
    (R : Type 0) (e : GrpcErr) → IsBreakerOutcome {R = R} (breaker_error e)
unfolding breaker_error is_grpc_server_failure
breaker_error-IsBreakerOutcome R (status_error code message) =
    if_both IsBreakerOutcome (is_grpc_server_failure code) (fails (status_error code message))
      (fails (status_error unavailable "service temporarily unavailable")) (λ q. q) (λ q. refl)
breaker_error-IsBreakerOutcome R (plain_error message) = refl

module _ {R S : Type 0} where
  executed-IsBreakerOutcome :
      (breaker : Breaker S GrpcErr) (s : S) (outcome : Outcome R)
      → IsBreakerOutcome (executed breaker (s, outcome)).1
  executed-IsBreakerOutcome breaker s (replies resp) = tt
  executed-IsBreakerOutcome breaker s (fails e) = breaker_error-IsBreakerOutcome R e
  executed-IsBreakerOutcome breaker s panics = tt

module _ {Q R S : Type 0} where
  grpc_recovery-IsAnswer :
      (log_panic : String → String → S → S) (method : String) (handler : Handler Q R S)
      (call : Call Q) (s : S)
      → IsAnswer (grpc_recovery log_panic method handler call s).1
  unfolding grpc_recovery
  grpc_recovery-IsAnswer log_panic method handler call s =
      let (s₁, outcome) = handler call s in
      recover_with-IsAnswer (log_panic (context_request_id call) method) s₁ outcome

module _ {Q R S : Type 0} where
  -- With the preset's interceptors a panic of the tracer's start, of the log line, of an extra
  -- interceptor or of the handler does not reach the gRPC server: the call ends with a reply or an
  -- error.
  pub grpc_server_preset-IsAnswer :
      (rpc_type : RpcType) (out : GrpcOutside (Recorded S))
      (cfg : GrpcServerPresetConfig Q R (Recorded S)) (method : String)
      (handler : Handler Q R (Recorded S)) (call : Call Q) (s : Recorded S)
      → IsAnswer (chain_interceptors (grpc_server_preset rpc_type out cfg) method handler call s).1
  unfolding grpc_server_preset chain_interceptors grpc_request_id_interceptor grpc_recovery
  grpc_server_preset-IsAnswer rpc_type out cfg method handler call s =
      let (s₁, id) = grpc_request_id out.new_request_id call s in
      let named = record call { request_id = some id } in
      grpc_recovery-IsAnswer out.log_panic method
        (chain_interceptors (observed_interceptors rpc_type out cfg) method handler) named
        (out.set_header "x-request-id" id s₁)

  accepted-IsBreakerOutcome :
      (breaker : Breaker S GrpcErr) (handler : Handler Q R S) (call : Call Q) (s : S)
      (rejected : Option GrpcErr)
      → IsBreakerOutcome (accepted breaker handler call (s, rejected)).1
  accepted-IsBreakerOutcome breaker handler call s (some e) = breaker_error-IsBreakerOutcome R e
  accepted-IsBreakerOutcome breaker handler call s none =
      let (s₁, outcome) = handler call s in executed-IsBreakerOutcome breaker s₁ outcome

  -- An error that comes out of the circuit breaker always has a server failure's code: an error with
  -- any other code, such as InvalidArgument or NotFound, never leaves the interceptor as it is.
  pub grpc_circuit_breaker-IsBreakerOutcome :
      (breaker : Breaker S GrpcErr) (method : String) (handler : Handler Q R S) (call : Call Q)
      (s : S)
      → IsBreakerOutcome (grpc_circuit_breaker breaker method handler call s).1
  unfolding grpc_circuit_breaker
  grpc_circuit_breaker-IsBreakerOutcome breaker method handler call s =
      let (s₁, rejected) = breaker.accept s in
      accepted-IsBreakerOutcome breaker handler call s₁ rejected

  -- A call that the preset's circuit breaker accepts and that the preset's rate limiter denies, where
  -- there are no extra interceptors: the client gets Unavailable in place of ResourceExhausted, the
  -- denial counts as a failure of the breaker, and the handler is not called.
  pub inner_interceptors-denied :
      (out : GrpcOutside S) (cfg : GrpcServerPresetConfig Q R S)
      (breaker_cfg : CircuitBreakerConfig) (limiter_allow_key : String → S → S × Bool)
      (method : String) (handler : Handler Q R S) (call : Call Q) (s : S)
      → cfg.extra_interceptors ≡ []
      → cfg.circuit_breaker ≡ some breaker_cfg
      → cfg.rate_limiter ≡ some limiter_allow_key
      → let breaker = out.new_circuit_breaker (grpc_breaker_settings breaker_cfg) in
        let key = rate_limit_key out.split cfg.rate_limit_key_extractor method call in
        (breaker.accept s).1 ≡ none
        → (limiter_allow_key key (breaker.accept s).0).1 ≡ false
        → chain_interceptors (inner_interceptors out cfg) method handler call s ≡ (
          breaker.report false (limiter_allow_key key (breaker.accept s).0).0,
          fails (status_error unavailable "service temporarily unavailable"),
        )
  unfolding chain_interceptors grpc_circuit_breaker grpc_rate_limit_with_key breaker_error
      is_grpc_server_failure
  inner_interceptors-denied out cfg breaker_cfg limiter_allow_key method handler call s bare guarded
        limited q r =
      rw (bare, guarded, limited) (rw q (rw r refl))
