-- ===== src/Telemetry/HttpMetrics/Counted.antt =====
-- The metrics of go/telemetry/metrics.go count what the clients get.
use dense_cloud.Prelude.{
  str_eq, if◌then◌else◌, Bool-cases, Option-cases, is_some, any, pos, negsuc, ℕ, String, ◌≡◌, refl,
  ap, ◌∙◌, inl, inr, Bool, false, not, ◌&&◌, List, [], ◌∷◌, arith,
}
use dense_cloud.Golang.NetHttp.{
  Headers, WriterCall, set_header, add_header, write_header, write, read_from, Response,
  is_informational, send_status, serve_call, serve, LacksInformational, unsent, sent_status,
  Request, HttpHandler, LacksInformational-append, LacksInformational-split, serve-append,
}
use dense_cloud.Telemetry.HttpMetrics.{
  HttpMetrics, HttpRecorded, MetricsResponseWriter, new_metrics_writer, metrics_write_header,
  metrics_body, metrics_call, metrics_calls, metrics_status_code, http_observation, http_observe,
  add_in_flight, metrics_deferred, metrics_middleware,
}

-- The writer has recorded the response.
abbrev Tracks : MetricsResponseWriter → Response → Type 0
Tracks writer response =
    (writer.wrote ≡ is_some response.status) × (metrics_status_code writer ≡ sent_status response)

metrics_call-Tracks :
    (size : String → ℕ) (call : WriterCall) (rest : List WriterCall)
    (writer : MetricsResponseWriter) (response : Response)
    → LacksInformational (call ∷ rest)
    → Tracks writer response
    → let (writer₁, passed) = metrics_call size call writer in
      (serve response passed ≡ serve_call response call)
      × Tracks writer₁ (serve_call response call)
      × LacksInformational rest
unfolding metrics_call metrics_body metrics_write_header metrics_status_code serve serve_call
    send_status is_informational
metrics_call-Tracks size (set_header key value) rest writer response l h = (refl, h, l)
metrics_call-Tracks size (add_header key value) rest writer response l h = (refl, h, l)
metrics_call-Tracks size (write_header code) rest writer response l h =
    elim (Option-cases response.status) [
      | inl q ↦ (ground (arith, q, l.0), ground (arith, q, l.0), l.1)
      | inr (sent, q) ↦ (ground (arith, q, l.0), ground (arith, q, l.0), l.1)
    ]
metrics_call-Tracks size (write bytes) rest writer response l h =
    elim (Option-cases response.status) [
      | inl q ↦ (ground (arith, q), ground (arith, q), l)
      | inr (sent, q) ↦ (ground (arith, q), ground (arith, q), l)
    ]
metrics_call-Tracks size (read_from bytes) rest writer response l h =
    elim (Option-cases response.status) [
      | inl q ↦ (ground (arith, q), ground (arith, q), l)
      | inr (sent, q) ↦ (ground (arith, q), ground (arith, q), l)
    ]

metrics_calls-Tracks :
    (size : String → ℕ) (calls : List WriterCall) (writer : MetricsResponseWriter)
    (response : Response)
    → LacksInformational calls
    → Tracks writer response
    → let (writer₁, passed) = metrics_calls size calls writer in
      (serve response passed ≡ serve response calls) × Tracks writer₁ (serve response calls)
unfolding metrics_calls serve
metrics_calls-Tracks size [] writer response l h = (refl, h)
metrics_calls-Tracks size (call ∷ calls) writer response l h =
    let (writer₁, first) = metrics_call size call writer in
    let (same, h₁, l₁) = metrics_call-Tracks size call calls writer response l h in
    let (rest, h₂) = metrics_calls-Tracks size calls writer₁ (serve_call response call) l₁ h₁ in
    (
      serve-append first (metrics_calls size calls writer₁).1 response
          ∙ (ap (λ (r : Response). serve r (metrics_calls size calls writer₁).1) same ∙ rest),
      h₂,
    )

metrics_call-LacksInformational :
    (size : String → ℕ) (call : WriterCall) (writer : MetricsResponseWriter)
    → LacksInformational (call ∷ [])
    → LacksInformational (metrics_call size call writer).1
unfolding metrics_call metrics_body metrics_write_header is_informational
metrics_call-LacksInformational size (set_header key value) writer l = tt
metrics_call-LacksInformational size (add_header key value) writer l = tt
metrics_call-LacksInformational size (write_header code) writer l = elim (Bool-cases writer.wrote) [
  | inl q ↦ rw q tt
  | inr q ↦ rw q l
]
metrics_call-LacksInformational size (write bytes) writer l = elim (Bool-cases writer.wrote) [
  | inl q ↦ rw q tt
  | inr q ↦ rw q (refl, tt)
]
metrics_call-LacksInformational size (read_from bytes) writer l = elim (Bool-cases writer.wrote) [
  | inl q ↦ rw q tt
  | inr q ↦ rw q (refl, tt)
]

metrics_calls-LacksInformational :
    (size : String → ℕ) (calls : List WriterCall) (writer : MetricsResponseWriter)
    → LacksInformational calls
    → LacksInformational (metrics_calls size calls writer).1
unfolding metrics_calls
metrics_calls-LacksInformational size [] writer l = tt
metrics_calls-LacksInformational size (call ∷ calls) writer l =
    let (writer₁, first) = metrics_call size call writer in
    let (head, tail) = LacksInformational-split call calls l in
    LacksInformational-append first (metrics_calls size calls writer₁).1
      (metrics_call-LacksInformational size call writer head)
      (metrics_calls-LacksInformational size calls writer₁ tail)

-- The status that is to be counted: 500 for a panic before any status was sent, else what was sent.
abbrev pub counted_status : Bool → Response → ℕ
counted_status panicked response =
    if panicked && not (is_some response.status) then 500 else sent_status response

new_metrics_writer-Tracks : Tracks new_metrics_writer unsent
unfolding metrics_status_code
new_metrics_writer-Tracks = (refl, refl)

Tracks-counted :
    (writer : MetricsResponseWriter) (response : Response) (panicked : Bool)
    → Tracks writer response
    → (if panicked && not writer.wrote then 500 else metrics_status_code writer)
      ≡ counted_status panicked response
Tracks-counted writer response panicked (wrote, status) = ground (arith, wrote, status)

module _ {S : Type 0} where
  -- A request whose path is not ignored, and whose handler sends no informational status, runs the
  -- handler once, with one more request in flight. Behind it, with a panic or without, the client gets the handler's response, with ReadFrom or without, a
  -- panic goes on, one request fewer is in flight, and one observation is added: under the status that
  -- the client gets, and under 500 for a panic before any status was sent.
  pub metrics_middleware-counts :
      (size : String → ℕ) (decimal : ℕ → String) (elapsed : S → ℕ) (m : HttpMetrics)
      (next : HttpHandler (HttpRecorded × S)) (r : Request) (headers : Headers)
      (recorded : HttpRecorded) (s : S)
      → any (λ path. str_eq path (m.path_labeler r)) m.ignored ≡ false
      → LacksInformational (next r headers (add_in_flight (pos 1) recorded, s)).1
      → let ((recorded₁, s₁), calls, panicked) =
          next r headers (add_in_flight (pos 1) recorded, s) in
        let (end, passed, panics) =
          metrics_middleware size decimal elapsed m next r headers (recorded, s) in
        let status = counted_status panicked (serve unsent calls) in
        let o = http_observation decimal r.method (m.path_labeler r) status (elapsed s₁) in
        (serve unsent passed ≡ serve unsent calls)
        × (panics ≡ panicked)
        × (end ≡ (add_in_flight (negsuc 0) (http_observe m o recorded₁), s₁))
  unfolding metrics_middleware metrics_deferred
  metrics_middleware-counts size decimal elapsed m next r headers recorded s kept l =
      let ((recorded₁, s₁), calls, panicked) = next r headers (add_in_flight (pos 1) recorded, s) in
      let (same, tracked) =
        metrics_calls-Tracks size calls new_metrics_writer unsent l new_metrics_writer-Tracks in
      let (writer, passed) = metrics_calls size calls new_metrics_writer in
      let observed : ℕ → HttpRecorded × S = λ status. (
        add_in_flight (negsuc 0) (
            http_observe m
              (http_observation decimal r.method (m.path_labeler r) status (elapsed s₁)) recorded₁),
        s₁,
      ) in
      rw kept
        (same, refl, ap observed (Tracks-counted writer (serve unsent calls) panicked tracked))

  -- The middleware sends no informational status on its own account.
  pub metrics_middleware-LacksInformational :
      (size : String → ℕ) (decimal : ℕ → String) (elapsed : S → ℕ) (m : HttpMetrics)
      (next : HttpHandler (HttpRecorded × S)) (r : Request) (headers : Headers)
      (recorded : HttpRecorded) (s : S)
      → any (λ path. str_eq path (m.path_labeler r)) m.ignored ≡ false
      → LacksInformational (next r headers (add_in_flight (pos 1) recorded, s)).1
      → LacksInformational
          (metrics_middleware size decimal elapsed m next r headers (recorded, s)).1
  unfolding metrics_middleware metrics_deferred
  metrics_middleware-LacksInformational size decimal elapsed m next r headers recorded s kept l =
      let ((recorded₁, s₁), calls, panicked) = next r headers (add_in_flight (pos 1) recorded, s) in
      rw kept (metrics_calls-LacksInformational size calls new_metrics_writer l)
