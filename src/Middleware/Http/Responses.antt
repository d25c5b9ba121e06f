-- ===== src/Middleware/Http/Responses.antt =====
-- What a client gets, and what the response writer of go/middleware/http.go records of it.
use dense_cloud.Prelude.{
  ltb, Bool-cases, Option-cases, is_some, if_both, ℕ, String, ◌≡◌, refl, ap, ◌∙◌, inl, inr, true,
  false, not, ◌&&◌, Option, none, some, List, [], ◌∷◌, arith,
}
use dense_cloud.Golang.NetHttp.{
  Headers, WriterCall, set_header, add_header, write_header, write, read_from, Response,
  is_informational, send_status, serve_call, serve, LacksInformational, unsent, sent_status,
  Request, HttpHandler, LacksInformational-append, LacksInformational-split, serve-append,
}
use dense_cloud.Middleware.CircuitBreaker.{Breaker}
use dense_cloud.Middleware.Http.Writer.{
  ResponseWriter, new_response_writer, wrapper_write_header, wrapper_call, wrapper_calls,
}
use dense_cloud.Middleware.Http.Guards.{http_executed, circuit_breaker}

abbrev pub first_status : Option ℕ → ℕ → Option ℕ
first_status none code = some code
first_status (some sent) code = some sent

-- Neither ReadFrom nor an informational status.
abbrev pub IsPlain : List WriterCall → Type 0
IsPlain [] = Unit
IsPlain (read_from bytes ∷ calls) = ⊥
IsPlain (set_header key value ∷ calls) = IsPlain calls
IsPlain (add_header key value ∷ calls) = IsPlain calls
IsPlain (write_header code ∷ calls) = (is_informational code ≡ false) × IsPlain calls
IsPlain (write bytes ∷ calls) = IsPlain calls

-- The wrapper has recorded the response.
abbrev Records : ResponseWriter → Response → Type 0
Records writer response =
    (writer.wrote ≡ is_some response.status) × (writer.status_code ≡ sent_status response)

wrapper_call-Records :
    (size : String → ℕ) (call : WriterCall) (rest : List WriterCall) (writer : ResponseWriter)
    (response : Response)
    → IsPlain (call ∷ rest)
    → Records writer response
    → let (writer₁, passed) = wrapper_call size call writer in
      (serve response passed ≡ serve_call response call)
      × Records writer₁ (serve_call response call)
      × IsPlain rest
unfolding wrapper_call serve serve_call send_status
wrapper_call-Records size (set_header key value) rest writer response l h = (refl, h, l)
wrapper_call-Records size (add_header key value) rest writer response l h = (refl, h, l)
wrapper_call-Records size (write_header code) rest writer response l h =
    elim (Option-cases response.status) [
      | inl q ↦ (ground (arith, q, l.0), ground (arith, q, l.0), l.1)
      | inr (sent, q) ↦ (ground (arith, q, l.0), ground (arith, q, l.0), l.1)
    ]
wrapper_call-Records size (write bytes) rest writer response l h =
    elim (Option-cases response.status) [
      | inl q ↦ (ground (arith, q), ground (arith, q), l)
      | inr (sent, q) ↦ (ground (arith, q), ground (arith, q), l)
    ]
wrapper_call-Records size (read_from bytes) rest writer response l h = absurd l

wrapper_calls-Records :
    (size : String → ℕ) (calls : List WriterCall) (writer : ResponseWriter) (response : Response)
    → IsPlain calls
    → Records writer response
    → let (writer₁, passed) = wrapper_calls size calls writer in
      (serve response passed ≡ serve response calls) × Records writer₁ (serve response calls)
unfolding wrapper_calls serve
wrapper_calls-Records size [] writer response l h = (refl, h)
wrapper_calls-Records size (call ∷ calls) writer response l h =
    let (writer₁, first) = wrapper_call size call writer in
    let (same, h₁, l₁) = wrapper_call-Records size call calls writer response l h in
    let (rest, h₂) = wrapper_calls-Records size calls writer₁ (serve_call response call) l₁ h₁ in
    (
      serve-append first (wrapper_calls size calls writer₁).1 response
          ∙ (ap (λ (r : Response). serve r (wrapper_calls size calls writer₁).1) same ∙ rest),
      h₂,
    )

-- Whatever a handler calls of Header().Set, Header().Add, WriteHeader and Write on the wrapper, in
-- whatever order and how often, an informational status and ReadFrom left aside, the client gets the same response as without
-- the wrapper, and the wrapper's status code is the one that the client gets.
pub wrapper_calls-status :
    (size : String → ℕ) (calls : List WriterCall)
    → IsPlain calls
    → let (writer, passed) = wrapper_calls size calls new_response_writer in
      (serve unsent passed ≡ serve unsent calls)
      × (writer.status_code ≡ sent_status (serve unsent calls))
wrapper_calls-status size calls l =
    let (same, recorded) =
      wrapper_calls-Records size calls new_response_writer unsent l (refl, refl) in
    (same, recorded.1)

pub IsPlain-LacksInformational :
    (calls : List WriterCall) → IsPlain calls → LacksInformational calls
IsPlain-LacksInformational [] l = tt
IsPlain-LacksInformational (set_header key value ∷ calls) l = IsPlain-LacksInformational calls l
IsPlain-LacksInformational (add_header key value ∷ calls) l = IsPlain-LacksInformational calls l
IsPlain-LacksInformational (write_header code ∷ calls) l =
    (l.0, IsPlain-LacksInformational calls l.1)
IsPlain-LacksInformational (write bytes ∷ calls) l = IsPlain-LacksInformational calls l
IsPlain-LacksInformational (read_from bytes ∷ calls) l = absurd l

wrapper_call-LacksInformational :
    (size : String → ℕ) (call : WriterCall) (writer : ResponseWriter)
    → LacksInformational (call ∷ [])
    → LacksInformational (wrapper_call size call writer).1
unfolding wrapper_call wrapper_write_header is_informational
wrapper_call-LacksInformational size (set_header key value) writer l = tt
wrapper_call-LacksInformational size (add_header key value) writer l = tt
wrapper_call-LacksInformational size (write_header code) writer l =
    if_both {A = ResponseWriter × List WriterCall} (λ o. LacksInformational o.1) writer.wrote
      (writer, []) (record writer { wrote = true; status_code = code }, write_header code ∷ [])
      (λ q. tt) (λ q. l)
wrapper_call-LacksInformational size (write bytes) writer l = elim (Bool-cases writer.wrote) [
  | inl q ↦ rw q tt
  | inr q ↦ rw q (refl, tt)
]
wrapper_call-LacksInformational size (read_from bytes) writer l = tt

-- The wrapper passes no informational status on that it was not given.
pub wrapper_calls-LacksInformational :
    (size : String → ℕ) (calls : List WriterCall) (writer : ResponseWriter)
    → LacksInformational calls
    → LacksInformational (wrapper_calls size calls writer).1
unfolding wrapper_calls
wrapper_calls-LacksInformational size [] writer l = tt
wrapper_calls-LacksInformational size (call ∷ calls) writer l =
    let (writer₁, first) = wrapper_call size call writer in
    let (head, tail) = LacksInformational-split call calls l in
    LacksInformational-append first (wrapper_calls size calls writer₁).1
      (wrapper_call-LacksInformational size call writer head)
      (wrapper_calls-LacksInformational size calls writer₁ tail)

module _ {S : Type 0} where
  -- For a request that the breaker accepts, and a handler without an informational status
  -- and ReadFrom, the client gets the
  -- handler's response, and the breaker gets a success exactly when the handler does not panic and
  -- the client's status is below 500.
  pub circuit_breaker-reports :
      (size : String → ℕ) (json : String → String → String) (breaker : Breaker S String)
      (next : HttpHandler S) (r : Request) (headers : Headers) (s : S)
      → (breaker.accept s).1 ≡ none
      → IsPlain (next r headers (breaker.accept s).0).1
      → let (s₁, calls, panicked) = next r headers (breaker.accept s).0 in
        let (s₂, answered, panics) = circuit_breaker size json breaker next r headers s in
        (serve unsent answered ≡ serve unsent calls)
        × (panics ≡ panicked)
        × (s₂ ≡ breaker.report (not panicked && ltb (sent_status (serve unsent calls)) 500) s₁)
  unfolding circuit_breaker http_executed
  circuit_breaker-reports size json breaker next r headers s accepts l =
      let (s₁, calls, panicked) = next r headers (breaker.accept s).0 in
      let (same, status) = wrapper_calls-status size calls l in
      rw accepts
        (same, refl, ap (λ (code : ℕ). breaker.report (not panicked && ltb code 500) s₁) status)
