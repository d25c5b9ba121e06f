-- ===== src/Middleware/Grpc.antt =====
-- The calls, outcomes and interceptors of go/middleware/grpc.go. A handler acts on the state `S` of
-- the process. A stream is a call whose response is Unit. A panic is an outcome.
pub mod Interceptors
pub mod Observability
pub mod Preset
pub mod Resilience
pub mod Measured
pub mod Counted
use dense_cloud.Golang.Contexts.{Context}
use dense_cloud.Middleware.Http.Tracing.{SpanIds}
use dense_cloud.Prelude.{
  String, ◌≡◌, refl, ap, Bool, true, false, Option, none, some, List, [], ◌∷◌, ◌++◌,
}

-- google.golang.org/grpc/codes
pub data Code : Type 0 where
  ok_code canceled_code unknown invalid_argument deadline_exceeded_code not_found already_exists :
      Code
  permission_denied resource_exhausted failed_precondition aborted out_of_range : Code
  unimplemented internal unavailable data_loss unauthenticated : Code

-- A status error, and any other error, whose status.Code is Unknown; of these grpc-go sends the
-- context errors to the client as DeadlineExceeded and Canceled.
pub data GrpcErr : Type 0 where
  status_error : Code → String → GrpcErr
  plain_error : String → GrpcErr

-- status.Code of an error that is not nil
abbrev pub code_of : GrpcErr → Code
code_of (status_error code message) = code
code_of (plain_error message) = unknown

-- metadata.MD is outside: `values` is what MD.Get answers for a key, `keys` the keys of the map.
pub record Metadata : Type 0 where
  pub values : String → List String
  pub keys : List String

-- What the code reads of the context: `request_id` is the value under requestIDKey, `span` the ids of
-- trace.SpanFromContext, `metadata` the incoming metadata, `peer_addr` the peer's address.
pub record Call (Q : Type 0) : Type 0 where
  pub ctx : Context
  pub metadata : Metadata
  pub peer_addr : Option String
  pub request_id : Option String
  pub span : SpanIds
  pub payload : Q

pub data Outcome (R : Type 0) : Type 0 where
  replies : R → Outcome R
  fails : GrpcErr → Outcome R
  panics : Outcome R

abbrev pub Handler : Type 0 → Type 0 → Type 0 → Type 0
Handler Q R S = Call Q → S → S × Outcome R

-- An interceptor gets the full method, the handler behind it, and the call.
abbrev pub Interceptor : Type 0 → Type 0 → Type 0 → Type 0
Interceptor Q R S = String → Handler Q R S → Handler Q R S

unfoldable pub is_grpc_server_failure : Code → Bool
is_grpc_server_failure internal = true
is_grpc_server_failure unavailable = true
is_grpc_server_failure unknown = true
is_grpc_server_failure data_loss = true
is_grpc_server_failure deadline_exceeded_code = true
is_grpc_server_failure code = false

module _ {Q R S : Type 0} where
  -- ChainUnaryInterceptors and ChainStreamInterceptors; `none` is a nil interceptor.
  unfoldable pub chain_interceptors : List (Option (Interceptor Q R S)) → Interceptor Q R S
  chain_interceptors [] method handler = handler
  chain_interceptors (none ∷ interceptors) method handler =
      chain_interceptors interceptors method handler
  chain_interceptors (some interceptor ∷ interceptors) method handler =
      interceptor method (chain_interceptors interceptors method handler)

  -- A chain of two lists is the first around the second: the order of declaration is kept.
  pub chain_interceptors-append :
      (xs ys : List (Option (Interceptor Q R S))) (method : String) (handler : Handler Q R S)
      → chain_interceptors (xs ++ ys) method handler
        ≡ chain_interceptors xs method (chain_interceptors ys method handler)
  unfolding chain_interceptors
  chain_interceptors-append [] ys method handler = refl
  chain_interceptors-append (none ∷ xs) ys method handler =
      chain_interceptors-append xs ys method handler
  chain_interceptors-append (some x ∷ xs) ys method handler =
      ap (x method) (chain_interceptors-append xs ys method handler)
