-- ===== src/Middleware/Http/Guards.antt =====
-- The middleware that may answer in place of the handler, or change its request: Chain,
-- RequestTimeout, Recovery and MaxBodySize of go/middleware/http.go, the rate limits of ratelimit.go
-- and the circuit breaker of circuitbreaker.go. `json` encodes the error body.
use dense_cloud.Prelude.{
  ltb, str_eq, if◌then◌else◌, ℤ, pos, ltb_ℤ, leb_ℤ, ℕ, String, Bool, true, false, not, ◌&&◌, Option,
  none, some, List, [], ◌∷◌, ◌++◌,
}
use dense_cloud.Golang.Contexts.{with_timeout, Duration}
use dense_cloud.Golang.NetHttp.{
  Headers, WriterCall, set_header, write_header, write, Request, HttpHandler, HttpMiddleware,
}
use dense_cloud.Middleware.CircuitBreaker.{Breaker}
use dense_cloud.Middleware.Http.Writer.{new_response_writer, wrapper_calls}

abbrev pub json_error : ℕ → String → List WriterCall
json_error status body =
    set_header "Content-Type" "application/json" ∷ write_header status ∷ write body ∷ []

unfoldable pub write_json_error : (String → String → String) → ℕ → String → String → List WriterCall
write_json_error json status code message = json_error status (json code message)

abbrev pub too_many_requests : String → List WriterCall
too_many_requests body =
    set_header "Content-Type" "application/json"
    ∷ set_header "Retry-After" "1"
    ∷ write_header 429
    ∷ write body
    ∷ []

module _ {S : Type 0} where
  -- Chain
  unfoldable pub chain : List (HttpMiddleware S) → HttpMiddleware S
  chain [] final = final
  chain (middleware ∷ middlewares) final = middleware (chain middlewares final)

  unfoldable pub request_timeout : Duration → HttpMiddleware S
  request_timeout timeout next r headers s =
      if leb_ℤ timeout (pos 0)
      then next r headers s
      else next (record r { ctx = with_timeout r.ctx timeout }) headers s

  unfoldable pub recovery : (String → String → String) → HttpMiddleware S
  recovery json next r headers s =
      let (s₁, calls, panicked) = next r headers s in
      if panicked
      then (
        s₁,
        calls ++ write_json_error json 500 "internal_server_error" "internal server error",
        false,
      )
      else (s₁, calls, false)

  unfoldable pub max_body_size : (String → String → String) → ℤ → HttpMiddleware S
  max_body_size json max_bytes next r headers s =
      if ltb_ℤ (pos 0) max_bytes && ltb_ℤ max_bytes r.content_length
      then (s, write_json_error json 413 "request_too_large" "request body too large", false)
      else if ltb_ℤ (pos 0) max_bytes
      then next (record r { body_limit = some max_bytes }) headers s
      else next r headers s

  -- A request that the limiter has decided; `body` is the encoded error.
  abbrev pub if_admitted :
      String → HttpHandler S → Request → Headers → S × Bool → S × List WriterCall × Bool
  if_admitted body next r headers (s, true) = next r headers s
  if_admitted body next r headers (s, false) = (s, too_many_requests body, false)

  -- RateLimitWithInterface; `none` is a nil limiter.
  unfoldable pub rate_limit : String → Option (S → S × Bool) → HttpMiddleware S
  rate_limit body none next r headers s = next r headers s
  rate_limit body (some limiter_allow) next r headers s =
      if_admitted body next r headers (limiter_allow s)

  unfoldable pub rate_limit_with_key :
      String → Option (String → S → S × Bool) → (Request → String) → HttpMiddleware S
  rate_limit_with_key body none extractor next r headers s = next r headers s
  rate_limit_with_key body (some limiter_allow_key) extractor next r headers s =
      let key = if str_eq (extractor r) "" then "global" else extractor r in
      if_admitted body next r headers (limiter_allow_key key s)

  -- Of a request that Execute has run: its calls go through the wrapper, whose status decides.
  unfoldable pub http_executed :
      (String → ℕ) → Breaker S String → S × List WriterCall × Bool → S × List WriterCall × Bool
  http_executed size breaker (s, calls, panicked) =
      let (recorder, passed) = wrapper_calls size calls new_response_writer in
      let success = not panicked && ltb recorder.status_code 500 in
      (breaker.report success s, passed, panicked)

  abbrev pub http_accepted :
      (String → ℕ)
      → (String → String → String)
      → Breaker S String
      → HttpHandler S
      → Request
      → Headers
      → S × Option String
      → S × List WriterCall × Bool
  http_accepted size json breaker next r headers (s, none) =
      http_executed size breaker (next r headers s)
  http_accepted size json breaker next r headers (s, some rejection) =
      (s, write_json_error json 503 "service_unavailable" "service temporarily unavailable", false)

  unfoldable pub circuit_breaker :
      (String → ℕ) → (String → String → String) → Breaker S String → HttpMiddleware S
  circuit_breaker size json breaker next r headers s =
      http_accepted size json breaker next r headers (breaker.accept s)
