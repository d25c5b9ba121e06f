-- ===== src/Server/HttpRuntime/Pathwise.antt =====
-- Middleware of go/middleware and go/telemetry that gives its request's path to the handler behind it,
-- so that what it does for a path depends on that handler at this path alone.
use dense_cloud.Golang.Contexts.{with_timeout, Duration}
use dense_cloud.Prelude.{
  str_eq, if◌then◌else◌, if_both, pos, ltb_ℤ, ℕ, String, ◌<>◌, ◌≡◌, refl, Option, some, List, [],
  ◌∷◌, ◌++◌,
}
use dense_cloud.Golang.NetHttp.{
  Headers, WriterCall, set_header, header_after, Request, HttpHandler, HttpMiddleware, calls_then,
}
use dense_cloud.Telemetry.HttpMetrics.{HttpMetrics, add_in_flight, metrics_middleware}
use dense_cloud.Middleware.Http.Guards.{request_timeout as limit_time, chain, recovery}
use dense_cloud.Middleware.Http.Identity.{choose_request_id, request_id}
use dense_cloud.Middleware.Http.Logging.{LogEntry, logging}
use dense_cloud.Middleware.Http.Tracing.{Tracer, set_if_some, tracing}
use dense_cloud.Server.HttpPreset.{HttpMiddlewarePresetConfig, HttpOutside, default_http_middleware}

module _ {S : Type 0} where
  -- Two handlers do the same at a path.
  abbrev pub Agree : String → HttpHandler S → HttpHandler S → Type 0
  Agree path f g =
      (r : Request) (headers : Headers) (s : S) → r.path ≡ path → f r headers s ≡ g r headers s

  abbrev pub IsPathwise : HttpMiddleware S → Type 0
  IsPathwise middleware =
      (path : String) (f g : HttpHandler S)
      → Agree path f g
      → Agree path (middleware f) (middleware g)

  abbrev pub ArePathwise : List (HttpMiddleware S) → Type 0
  ArePathwise [] = Unit
  ArePathwise (middleware ∷ middlewares) = IsPathwise middleware × ArePathwise middlewares

  pub chain-IsPathwise :
      (middlewares : List (HttpMiddleware S))
      → ArePathwise middlewares
      → IsPathwise (chain middlewares)
  unfolding chain
  chain-IsPathwise [] h path f g a = a
  chain-IsPathwise (middleware ∷ middlewares) (h, hs) path f g a =
      h path (chain middlewares f) (chain middlewares g)
        (chain-IsPathwise middlewares hs path f g a)

  calls_then-IsPathwise : (calls : List WriterCall) → IsPathwise (calls_then calls)
  unfolding calls_then
  calls_then-IsPathwise calls path f g a r headers s e =
      rw (a r (header_after calls headers) s e) refl

  request_id-IsPathwise : (new_id : S → S × String) → IsPathwise (request_id new_id)
  unfolding request_id
  request_id-IsPathwise new_id path f g a r headers s e =
      let (s₁, id) = choose_request_id new_id r s in
      calls_then-IsPathwise (set_header "X-Request-ID" id ∷ []) path f g a
        (record r { request_id = some id }) headers s₁ e

  recovery-IsPathwise : (json : String → String → String) → IsPathwise (recovery json)
  unfolding recovery
  recovery-IsPathwise json path f g a r headers s e = rw (a r headers s e) refl

  limit_time-IsPathwise : (timeout : Duration) → IsPathwise (limit_time timeout)
  unfolding limit_time
  limit_time-IsPathwise timeout path f g a r headers s e =
      rw (a r headers s e, a (record r { ctx = with_timeout r.ctx timeout }) headers s e) refl

  tracing-IsPathwise : (tracer : Tracer S) → IsPathwise (tracing tracer)
  unfolding tracing
  tracing-IsPathwise tracer path f g a r headers s e =
      let (s₁, ctx, span) =
        tracer.start (tracer.extract r.ctx r.headers) (r.method <> (" " <> r.path)) s in
      let calls =
        tracer.inject ctx
        ++ set_if_some "X-Trace-ID" span.trace_id
        ++ set_if_some "X-Span-ID" span.span_id in
      rw (calls_then-IsPathwise calls path f g a (record r { ctx = ctx }) headers s₁ e) refl

  logging-IsPathwise :
      (size : String → ℕ) (split : String → Option String) (log : LogEntry → S → S)
      → IsPathwise (logging size split log)
  unfolding logging
  logging-IsPathwise size split log path f g a r headers s e = rw (a r headers s e) refl

  pub default_http_middleware-ArePathwise :
      (out : HttpOutside S) (cfg : HttpMiddlewarePresetConfig)
      → ArePathwise (default_http_middleware out cfg)
  unfolding default_http_middleware
  default_http_middleware-ArePathwise out cfg =
      let tracer =
        out.tracer (if str_eq cfg.tracer_name "" then "dense-service" else cfg.tracer_name) in
      let last : ArePathwise (tracing tracer ∷ logging out.size out.split out.log ∷ []) =
        (tracing-IsPathwise tracer, (logging-IsPathwise out.size out.split out.log, tt)) in
      (
        request_id-IsPathwise out.new_request_id,
        (
          recovery-IsPathwise out.json,
          if_both
              (λ (timeouts : List (HttpMiddleware S)).
                ArePathwise (timeouts ++ tracing tracer ∷ logging out.size out.split out.log ∷ []))
              (ltb_ℤ (pos 0) cfg.request_timeout) (limit_time cfg.request_timeout ∷ []) []
              (λ q. (limit_time-IsPathwise cfg.request_timeout, last)) (λ q. last),
        ),
      )

module _ {S : Type 0} where
  pub metrics_middleware-IsPathwise :
      (size : String → ℕ) (decimal : ℕ → String) (elapsed : S → ℕ) (m : HttpMetrics)
      → IsPathwise (metrics_middleware size decimal elapsed m)
  unfolding metrics_middleware
  metrics_middleware-IsPathwise size decimal elapsed m path f g a r headers (recorded, s) e =
      rw (a r headers (recorded, s) e, a r headers (add_in_flight (pos 1) recorded, s) e) refl
