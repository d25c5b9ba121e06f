-- ===== src/Middleware/Http/Tracing.antt =====
-- Tracing of go/middleware/tracing.go. Outside is OpenTelemetry, as a tracer and a propagator.
use dense_cloud.Prelude.{String, ◌<>◌, Option, none, some, List, [], ◌∷◌, ◌++◌}
use dense_cloud.Golang.Contexts.{Context}
use dense_cloud.Golang.NetHttp.{
  Headers, WriterCall, set_header, Request, HttpMiddleware, calls_then,
}
use dense_cloud.Middleware.Http.Identity.{or_empty, get_request_id}

-- A span's ids, where it has them.
pub record SpanIds : Type 0 where
  pub trace_id : Option String
  pub span_id : Option String

-- `inject` is what the propagator sets in the response's headers.
pub record Tracer (S : Type 0) : Type 0 where
  pub extract : Context → Headers → Context
  pub start : Context → String → S → S × Context × SpanIds
  pub inject : Context → List WriterCall
  pub end_span : S → S

abbrev pub set_if_some : String → Option String → List WriterCall
set_if_some key none = []
set_if_some key (some id) = set_header key id ∷ []

-- GetTraceID and GetSpanID, for the ids of the context's span.
unfoldable pub get_trace_id : SpanIds → Request → String
get_trace_id span r = elim span.trace_id [ none ↦ get_request_id r | some id ↦ id ]

unfoldable pub get_span_id : SpanIds → String
get_span_id span = or_empty span.span_id

module _ {S : Type 0} where
  unfoldable pub tracing : Tracer S → HttpMiddleware S
  tracing tracer next r headers s =
      let (s₁, ctx, span) =
        tracer.start (tracer.extract r.ctx r.headers) (r.method <> (" " <> r.path)) s in
      let calls =
        tracer.inject ctx
        ++ set_if_some "X-Trace-ID" span.trace_id
        ++ set_if_some "X-Span-ID" span.span_id in
      let (s₂, answered, panicked) = calls_then calls next (record r { ctx = ctx }) headers s₁ in
      (tracer.end_span s₂, answered, panicked)
