-- ===== src/Server/HttpRuntime/Refusal.antt =====
-- Middleware of go/middleware and go/telemetry around a handler that refuses every request to a path:
-- the client gets the refusal.
use dense_cloud.Prelude.{
  str_eq, if◌then◌else◌, Bool-cases, if_both, any, pos, ltb_ℤ, leb_ℤ, ℕ, String, ◌<>◌, ◌≡◌, refl,
  sym, ap, ◌∙◌, inl, inr, Bool, true, false, Option, none, some, List, [], ◌∷◌, ◌++◌,
}
use dense_cloud.Golang.NetHttp.{
  Headers, header_get, WriterCall, set_header, header_after, Response, LacksInformational, unsent,
  Request, HttpHandler, HttpMiddleware, calls_then, LacksInformational-append,
}
use dense_cloud.Middleware.Http.Responses.{
  IsPlain, wrapper_calls-status, IsPlain-LacksInformational, wrapper_calls-LacksInformational,
}
use dense_cloud.Middleware.Http.Writer.{new_response_writer, wrapper_calls}
use dense_cloud.Middleware.Http.Tracing.{Tracer, set_if_some, tracing}
use dense_cloud.Middleware.Http.Logging.{LogEntry, logging}
use dense_cloud.Middleware.Http.Identity.{choose_request_id, request_id}
use dense_cloud.Middleware.Http.Guards.{request_timeout as limit_time, chain, recovery}
use dense_cloud.Golang.Contexts.{Context, with_timeout, Duration}
use dense_cloud.Telemetry.HttpMetrics.Counted.{
  metrics_middleware-counts, metrics_middleware-LacksInformational,
}
use dense_cloud.Telemetry.HttpMetrics.{HttpMetrics, HttpRecorded, add_in_flight, metrics_middleware}
use dense_cloud.Server.HttpPreset.{HttpMiddlewarePresetConfig, HttpOutside, default_http_middleware}
use dense_cloud.Server.HttpRuntime.SentStatus.{
  status_after, AreHeaders, serve-status, status_after-headers, AreHeaders-append,
  set_if_some-AreHeaders, AreHeaders-LacksInformational,
}

module _ {S : Type 0} (code : ℕ) (path : String) (P : S → Type 0) where
  -- At a path, and in a state of which `P` holds, the client gets the status and no informational one,
  -- and no panic goes on.
  abbrev pub Answers : HttpHandler S → Type 0
  Answers handler =
      (r : Request) (headers : Headers) (s : S)
      → r.path ≡ path
      → P s
      → (status_after none (handler r headers s).1 ≡ some code)
        × ((handler r headers s).2 ≡ false)
        × LacksInformational (handler r headers s).1

  -- Answers, and without ReadFrom.
  abbrev pub AnswersPlainly : HttpHandler S → Type 0
  AnswersPlainly handler =
      (r : Request) (headers : Headers) (s : S)
      → r.path ≡ path
      → P s
      → (status_after none (handler r headers s).1 ≡ some code)
        × ((handler r headers s).2 ≡ false)
        × IsPlain (handler r headers s).1

  calls_then-Answers :
      (calls : List WriterCall) (next : HttpHandler S)
      → AreHeaders calls
      → Answers next
      → Answers (calls_then calls next)
  unfolding calls_then
  calls_then-Answers calls next h answers r headers s e p =
      let (status, safe, final) = answers r (header_after calls headers) s e p in
      let rest = (next r (header_after calls headers) s).1 in
      (
        status_after-headers calls rest none h ∙ status,
        safe,
        LacksInformational-append calls rest (AreHeaders-LacksInformational calls h) final,
      )

  recovery-Answers :
      (json : String → String → String) (next : HttpHandler S)
      → Answers next
      → Answers (recovery json next)
  unfolding recovery
  recovery-Answers json next answers r headers s e p =
      let (status, safe, final) = answers r headers s e p in rw safe (status, refl, final)

  limit_time-Answers :
      (timeout : Duration) (next : HttpHandler S) → Answers next → Answers (limit_time timeout next)
  unfolding limit_time
  limit_time-Answers timeout next answers r headers s e p =
      if_both
        (λ (o : S × List WriterCall × Bool).
          (status_after none o.1 ≡ some code) × (o.2 ≡ false) × LacksInformational o.1)
        (leb_ℤ timeout (pos 0)) (next r headers s)
        (next (record r { ctx = with_timeout r.ctx timeout }) headers s)
        (λ q. answers r headers s e p)
        (λ q. answers (record r { ctx = with_timeout r.ctx timeout }) headers s e p)

  request_id-Answers :
      (new_id : S → S × String) (next : HttpHandler S)
      → ((s : S) → P s → P (new_id s).0)
      → Answers next
      → Answers (request_id new_id next)
  unfolding request_id choose_request_id
  request_id-Answers new_id next keeps answers r headers s e p =
      let (s₁, id) = choose_request_id new_id r s in
      let p₁ : P s₁ =
        if_both (λ (o : S × String). P o.0) (str_eq (header_get "X-Request-ID" r.headers) "")
          (new_id s) (s, header_get "X-Request-ID" r.headers) (λ q. keeps s p) (λ q. p) in
      calls_then-Answers (set_header "X-Request-ID" id ∷ []) next tt answers
        (record r { request_id = some id }) headers s₁ e p₁

  tracing-Answers :
      (tracer : Tracer S) (next : HttpHandler S)
      → ((ctx : Context) (name : String) (s : S) → P s → P (tracer.start ctx name s).0)
      → ((ctx : Context) → AreHeaders (tracer.inject ctx))
      → Answers next
      → Answers (tracing tracer next)
  unfolding tracing
  tracing-Answers tracer next keeps injects answers r headers s e p =
      let name = r.method <> (" " <> r.path) in
      let (s₁, ctx, span) = tracer.start (tracer.extract r.ctx r.headers) name s in
      let trace = set_if_some "X-Trace-ID" span.trace_id in
      let own = set_if_some "X-Span-ID" span.span_id in
      calls_then-Answers (tracer.inject ctx ++ trace ++ own) next
        (AreHeaders-append (tracer.inject ctx ++ trace) own
          (AreHeaders-append (tracer.inject ctx) trace (injects ctx)
            (set_if_some-AreHeaders "X-Trace-ID" span.trace_id))
          (set_if_some-AreHeaders "X-Span-ID" span.span_id))
        answers (record r { ctx = ctx }) headers s₁ e
        (keeps (tracer.extract r.ctx r.headers) name s p)

  logging-Answers :
      (size : String → ℕ) (split : String → Option String) (log : LogEntry → S → S)
      (next : HttpHandler S)
      → AnswersPlainly next
      → Answers (logging size split log next)
  unfolding logging
  logging-Answers size split log next answers r headers s e p =
      let (status, safe, plain) = answers r headers s e p in
      let calls = (next r headers s).1 in
      let passed = (wrapper_calls size calls new_response_writer).1 in
      let same = (wrapper_calls-status size calls plain).0 in
      (
        sym (serve-status passed unsent)
            ∙ (ap (λ (o : Response). o.status) same ∙ (serve-status calls unsent ∙ status)),
        safe,
        wrapper_calls-LacksInformational size calls new_response_writer
            (IsPlain-LacksInformational calls plain),
      )

-- What the preset takes from outside leaves the state as `P` asks, and injects headers only.
pub record Keeps {S : Type 0} (P : S → Type 0) (out : HttpOutside S) : Type 0 where
  pub by_new_id : (s : S) → P s → P (out.new_request_id s).0
  pub by_start :
      (tracer name : String) (ctx : Context) (s : S)
      → P s
      → P ((out.tracer tracer).start ctx name s).0
  pub by_inject : (tracer : String) (ctx : Context) → AreHeaders ((out.tracer tracer).inject ctx)

module _ {S : Type 0} where
  pub default_http_middleware-Answers :
      (code : ℕ) (path : String) (P : S → Type 0) (out : HttpOutside S)
      (cfg : HttpMiddlewarePresetConfig) (next : HttpHandler S)
      → Keeps P out
      → AnswersPlainly code path P next
      → Answers code path P (chain (default_http_middleware out cfg) next)
  unfolding default_http_middleware chain
  default_http_middleware-Answers code path P out cfg next keeps answers =
      let name = if str_eq cfg.tracer_name "" then "dense-service" else cfg.tracer_name in
      let tracer = out.tracer name in
      let logged = logging out.size out.split out.log next in
      let traced = tracing tracer logged in
      let inner =
        tracing-Answers code path P tracer logged (λ ctx method s. keeps.by_start name method ctx s)
          (keeps.by_inject name)
          (logging-Answers code path P out.size out.split out.log next answers) in
      request_id-Answers code path P out.new_request_id _ keeps.by_new_id (
        recovery-Answers code path P out.json _ (
          if_both
            (λ (timeouts : List (HttpMiddleware S)).
              Answers code path P
                (chain (timeouts ++ tracing tracer ∷ logging out.size out.split out.log ∷ []) next))
            (ltb_ℤ (pos 0) cfg.request_timeout) (limit_time cfg.request_timeout ∷ []) []
            (λ q. limit_time-Answers code path P cfg.request_timeout traced inner) (λ q. inner)))

  metrics_middleware-ignored :
      (size : String → ℕ) (decimal : ℕ → String) (elapsed : S → ℕ) (m : HttpMetrics)
      (next : HttpHandler (HttpRecorded × S)) (r : Request) (headers : Headers)
      (recorded : HttpRecorded) (s : S)
      → any (λ path. str_eq path (m.path_labeler r)) m.ignored ≡ true
      → metrics_middleware size decimal elapsed m next r headers (recorded, s)
        ≡ next r headers (recorded, s)
  unfolding metrics_middleware
  metrics_middleware-ignored size decimal elapsed m next r headers recorded s ignored =
      rw ignored refl

  pub metrics_middleware-Answers :
      (code : ℕ) (path : String) (P : HttpRecorded × S → Type 0) (size : String → ℕ)
      (decimal : ℕ → String) (elapsed : S → ℕ) (m : HttpMetrics)
      (next : HttpHandler (HttpRecorded × S))
      → ((recorded : HttpRecorded) (s : S)
          → P (recorded, s)
          → P (add_in_flight (pos 1) recorded, s))
      → Answers code path P next
      → Answers code path P (metrics_middleware size decimal elapsed m next)
  metrics_middleware-Answers code path P size decimal elapsed m next keeps answers r headers
        (recorded, s) e p =
      elim (Bool-cases (any (λ path. str_eq path (m.path_labeler r)) m.ignored)) [
        | inl ignored ↦
            rw (metrics_middleware-ignored size decimal elapsed m next r headers recorded s ignored)
              (answers r headers (recorded, s) e p)
        | inr counted ↦
            let s₁ : HttpRecorded × S = (add_in_flight (pos 1) recorded, s) in
            let (status, safe, final) = answers r headers s₁ e (keeps recorded s p) in
            let (same, panics, end) =
              metrics_middleware-counts size decimal elapsed m next r headers recorded s counted
                final in
            let calls = (next r headers s₁).1 in
            let passed =
              (metrics_middleware size decimal elapsed m next r headers (recorded, s)).1 in
            (
              sym (serve-status passed unsent)
                  ∙ (ap (λ (o : Response). o.status) same ∙ (serve-status calls unsent ∙ status)),
              panics ∙ safe,
              metrics_middleware-LacksInformational size decimal elapsed m next r headers recorded s
                  counted final,
            )
      ]
