-- ===== src/Middleware/Grpc/Interceptors.antt =====
-- The interceptors of go/middleware/grpc.go. The unary and the stream form of each have the same
-- body but for the response, which a stream has none of, and are one definition here. Outside are
-- grpc.SetHeader, crypto/rand, net.SplitHostPort and the logger.
use dense_cloud.Golang.Strings.{trim_space}
use dense_cloud.Middleware.Http.Identity.{or_empty}
use dense_cloud.Prelude.{
  str_eq, if◌then◌else◌, String, Bool, true, false, Option, none, some, List, [], ◌∷◌,
}
use dense_cloud.Middleware.CircuitBreaker.{Breaker}
use dense_cloud.Middleware.Grpc.{
  resource_exhausted, internal, unavailable, GrpcErr, status_error, plain_error, Call, Outcome,
  replies, fails, panics, Handler, Interceptor, is_grpc_server_failure,
}

-- `values[0]` of the metadata, if it is there and not empty.
abbrev pub first_id : List String → Option String
first_id [] = none
first_id (value ∷ values) = if str_eq value "" then none else some value

module _ {Q : Type 0} where
  -- GetRequestID and GetTraceID of the call's context.
  abbrev pub context_request_id : Call Q → String
  context_request_id call = or_empty call.request_id

  abbrev pub context_trace_id : Call Q → String
  context_trace_id call = elim call.span.trace_id [ none ↦ context_request_id call | some id ↦ id ]

module _ {S : Type 0} where
  abbrev pub or_new_id : (S → S × String) → Option String → S → S × String
  or_new_id new_request_id (some id) s = (s, id)
  or_new_id new_request_id none s = new_request_id s

module _ {Q S : Type 0} where
  unfoldable pub grpc_request_id : (S → S × String) → Call Q → S → S × String
  grpc_request_id new_request_id call s =
      or_new_id new_request_id (first_id (call.metadata.values "x-request-id")) s

module _ {Q R S : Type 0} where
  unfoldable pub grpc_request_id_interceptor :
      (S → S × String) → (String → String → S → S) → Interceptor Q R S
  grpc_request_id_interceptor new_request_id set_header method handler call s =
      let (s₁, id) = grpc_request_id new_request_id call s in
      handler (record call { request_id = some id }) (set_header "x-request-id" id s₁)

module _ {R : Type 0} where
  abbrev pub recovered : Outcome R → Outcome R
  recovered panics = fails (status_error internal "internal server error")
  recovered outcome = outcome

module _ {R S : Type 0} where
  -- What the deferred function does; `log_panic` is the call of slog.Error.
  abbrev pub recover_with : (S → S) → S × Outcome R → S × Outcome R
  recover_with log_panic (s, replies resp) = (s, replies resp)
  recover_with log_panic (s, fails e) = (s, fails e)
  recover_with log_panic (s, panics) = (log_panic s, recovered panics)

module _ {Q R S : Type 0} where
  unfoldable pub grpc_recovery : (String → String → S → S) → Interceptor Q R S
  grpc_recovery log_panic method handler call s =
      recover_with (log_panic (context_request_id call) method) (handler call s)

-- grpcPeerKey; `split` gives the host.
unfoldable pub grpc_peer_key : (String → Option String) → Option String → String
grpc_peer_key split none = ""
grpc_peer_key split (some peer) =
    let addr = trim_space peer in
    if str_eq addr ""
    then ""
    else elim (split addr) [ none ↦ addr | some host ↦ if str_eq host "" then addr else host ]

module _ {Q : Type 0} where
  unfoldable pub default_grpc_key : (String → Option String) → Call Q → String
  default_grpc_key split call =
      let peer = grpc_peer_key split call.peer_addr in
      if str_eq peer "" then "grpc-global" else peer

abbrev pub key_or : String → String → String
key_or default key = if str_eq key "" then default else key

module _ {Q : Type 0} where
  -- The key of a call, of the extractor (`none` for nil) or of the peer.
  unfoldable pub rate_limit_key :
      (String → Option String) → Option (String → Call Q → String) → String → Call Q → String
  rate_limit_key split none method call = default_grpc_key split call
  rate_limit_key split (some extractor) method call =
      key_or (default_grpc_key split call) (extractor method call)

module _ {R : Type 0} where
  abbrev pub exhausted : Outcome R
  exhausted = fails (status_error resource_exhausted "rate limit exceeded")

module _ {Q R S : Type 0} where
  abbrev pub if_allowed : Handler Q R S → Call Q → S × Bool → S × Outcome R
  if_allowed handler call (s, true) = handler call s
  if_allowed handler call (s, false) = (s, exhausted)

  -- Without a key; `none` is a nil limiter.
  unfoldable pub grpc_rate_limit : Option (S → S × Bool) → Interceptor Q R S
  grpc_rate_limit none method handler call s = handler call s
  grpc_rate_limit (some limiter_allow) method handler call s =
      if_allowed handler call (limiter_allow s)

  unfoldable pub grpc_rate_limit_with_key :
      Option (String → S → S × Bool) → (String → Call Q → String) → Interceptor Q R S
  grpc_rate_limit_with_key none key_of method handler call s = handler call s
  grpc_rate_limit_with_key (some limiter_allow_key) key_of method handler call s =
      if_allowed handler call (limiter_allow_key (key_of method call) s)

module _ {R : Type 0} where
  -- What the interceptor answers for the error of Execute.
  unfoldable pub breaker_error : GrpcErr → Outcome R
  breaker_error (status_error code message) =
      if is_grpc_server_failure code
      then fails (status_error code message)
      else fails (status_error unavailable "service temporarily unavailable")
  breaker_error (plain_error message) =
      fails (status_error unavailable "service temporarily unavailable")

module _ {R S : Type 0} where
  -- A request that Execute has run: it is reported, and a panic goes on.
  abbrev pub executed : Breaker S GrpcErr → S × Outcome R → S × Outcome R
  executed breaker (s, replies resp) = (breaker.report true s, replies resp)
  executed breaker (s, fails e) = (breaker.report false s, breaker_error e)
  executed breaker (s, panics) = (breaker.report false s, panics)

module _ {Q R S : Type 0} where
  abbrev pub accepted :
      Breaker S GrpcErr → Handler Q R S → Call Q → S × Option GrpcErr → S × Outcome R
  accepted breaker handler call (s, some rejection) = (s, breaker_error rejection)
  accepted breaker handler call (s, none) = executed breaker (handler call s)

  unfoldable pub grpc_circuit_breaker : Breaker S GrpcErr → Interceptor Q R S
  grpc_circuit_breaker breaker method handler call s =
      accepted breaker handler call (breaker.accept s)
