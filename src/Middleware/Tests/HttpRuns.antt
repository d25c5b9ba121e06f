-- ===== src/Middleware/Tests/HttpRuns.antt =====
-- Runs of the HTTP middleware of go/middleware, and its theorems at them.
use dense_cloud.Prelude.{
  ltb, if◌then◌else◌, pos, ℕ, suc, ◌+◌, ◌-◌, ◌*◌, ◌≤◌, String, ◌≡◌, refl, true, false, not, ◌&&◌,
  none, List, [], ◌∷◌, arith,
}
use dense_cloud.Golang.Contexts.{background}
use dense_cloud.Middleware.CircuitBreaker.{Breaker}
use dense_cloud.Golang.NetHttp.{
  WriterCall, set_header, write_header, write, is_informational, send_status, serve_call, serve,
  unsent, sent_status, Request, HttpHandler,
}
use dense_cloud.Middleware.Http.Guards.{circuit_breaker}
use dense_cloud.Middleware.Http.Writer.{new_response_writer, wrapper_calls}
use dense_cloud.Middleware.Http.Responses.{wrapper_calls-status, circuit_breaker-reports}
use dense_cloud.Middleware.RateLimiter.{one_token, RateLimiter}
use dense_cloud.Middleware.Http.RateLimited.{
  is_refused, Arrivals, counted, serve_limited, NeverRefuses, rate_limit-protects,
}
use dense_cloud.Middleware.Http.Informational.{wrapper_calls-informational}

abbrev one_byte : String → ℕ
one_byte bytes = 1

abbrev plain_json : String → String → String
plain_json code message = message

-- The second status and the header behind it come too late.
abbrev two_statuses : List WriterCall
two_statuses = write "a" ∷ write_header 404 ∷ write "b" ∷ []

wrapper_calls-status_example :
    let (writer, passed) = wrapper_calls one_byte two_statuses new_response_writer in
    (serve unsent passed ≡ serve unsent two_statuses)
    × (writer.status_code ≡ sent_status (serve unsent two_statuses))
unfolding is_informational
wrapper_calls-status_example = wrapper_calls-status one_byte two_statuses (refl, tt)

wrapper_calls-informational_example :
    let calls = write_header 103 ∷ write_header 404 ∷ write "gone" ∷ [] in
    let (writer, passed) = wrapper_calls one_byte calls new_response_writer in
    (writer.status_code ≡ 103) × (sent_status (serve unsent passed) ≡ 200)
unfolding is_informational
wrapper_calls-informational_example =
    wrapper_calls-informational one_byte 103 (write_header 404 ∷ write "gone" ∷ []) refl

abbrev crashes : HttpHandler ℕ
crashes r headers n = (suc n, set_header "X-Item" "7" ∷ [], true)

abbrev get_root : Request
get_root = record {
  method = "GET";
  path = "/";
  headers = [];
  remote_addr = "10.0.0.1:4711";
  content_length = pos 0;
  body_limit = none;
  ctx = background;
  request_id = none;
}

abbrev unavailable_item : HttpHandler ℕ
unavailable_item r headers n = (n, write_header 502 ∷ [], false)

-- The state counts the failures.
abbrev failure_counter : Breaker ℕ String
failure_counter = record {
  accept = λ n. (n, none);
  report = λ success n. if success then n else suc n;
}

circuit_breaker-reports_example :
    let (n, answered, panicked) =
      circuit_breaker one_byte plain_json failure_counter unavailable_item get_root [] 3 in
    (serve unsent answered ≡ serve unsent (write_header 502 ∷ []))
    × (panicked ≡ false)
    × (n
        ≡ failure_counter.report
            (not false && ltb (sent_status (serve unsent (write_header 502 ∷ []))) 500)
            3)
unfolding is_informational
circuit_breaker-reports_example =
    circuit_breaker-reports one_byte plain_json failure_counter unavailable_item get_root [] 3 refl
      (refl, tt)

-- One request a second with a burst of one.
abbrev one_a_second : RateLimiter
one_a_second = record {
  tokens = 1_000_000_000;
  max_tokens = 1_000_000_000;
  refill_rate = 1;
  last_refill = 100;
}

abbrev three_arrivals : Arrivals
three_arrivals = (200, get_root) ∷ (300, get_root) ∷ (1_000_000_300, get_root) ∷ []

abbrev items : HttpHandler ℕ
items r headers n = (n, write "[]" ∷ [], false)

items-NeverRefuses : NeverRefuses items
unfolding is_refused serve serve_call send_status is_informational
items-NeverRefuses r w = refl

rate_limit-protects_example :
    let ((rl₁, (ran, w₁)), refused) =
      serve_limited "" (counted items) three_arrivals (one_a_second, (0, 7)) in
    (ran * one_token ≤ 1_000_000_000 + (1_000_000_300 - 100) * 1) × (refused + ran ≡ 3)
rate_limit-protects_example =
    rate_limit-protects "" items three_arrivals one_a_second 7 items-NeverRefuses
      (record { capped = omega arith }) (omega arith, (omega arith, (omega arith, tt)))
