-- ===== src/Middleware/Grpc/Measured.antt =====
-- The interceptors of go/middleware/grpc_preset.go around the one that measures.
use dense_cloud.Golang.Contexts.{Context}
use dense_cloud.Prelude.{
  str_eq, if◌then◌else◌, String, ◌≡◌, refl, sym, ◌∙◌, subst, ◌≢◌, ◌⊎◌, inl, inr, Bool, false,
  Option, none, some,
}
use dense_cloud.Middleware.Grpc.{
  Code, ok_code, code_of, Call, Outcome, replies, fails, panics, Handler, chain_interceptors,
}
use dense_cloud.Middleware.Grpc.Interceptors.{
  first_id, context_request_id, or_new_id, grpc_request_id, grpc_request_id_interceptor, recovered,
  recover_with, grpc_recovery,
}
use dense_cloud.Middleware.Grpc.Observability.{
  RpcType, rpc_type_label, metadata_carrier, set_header_if_some, in_span, grpc_tracing,
  GrpcLogEntry, log_grpc_completion, logged, grpc_logging, outcome_code, Recorded, grpc_metrics,
}
use dense_cloud.Middleware.Grpc.Preset.{
  GrpcOutside, GrpcServerPresetConfig, inner_interceptors, grpc_server_preset,
}
use dense_cloud.Telemetry.GrpcMetrics.{GrpcMetrics, begin_rpc, observe_rpc}
use dense_cloud.Middleware.Http.Tracing.{SpanIds}

-- What is outside does not touch the metrics, and neither the tracer nor the logger panics.
pub record KeepsMetrics {S : Type 0} (out : GrpcOutside (Recorded S)) : Type 0 where
  pub by_request_id : (s : Recorded S) → (out.new_request_id s).0.0 ≡ s.0
  pub by_header : (key value : String) (s : Recorded S) → (out.set_header key value s).0 ≡ s.0
  pub by_start :
      (name : String) (ctx : Context) (method : String) (s : Recorded S)
      → ((out.tracer name).start ctx method s).0.0 ≡ s.0
  pub starts :
      (name : String) (ctx : Context) (method : String) (s : Recorded S)
      → ((out.tracer name).start ctx method s).1 ≢ none
  pub by_end : (name : String) (s : Recorded S) → ((out.tracer name).end_span s).0 ≡ s.0
  pub by_log : (entry : GrpcLogEntry) (s : Recorded S) → (out.log entry s).0.0 ≡ s.0
  pub logs : (entry : GrpcLogEntry) (s : Recorded S) → (out.log entry s).1 ≡ false
  pub by_log_panic : (id method : String) (s : Recorded S) → (out.log_panic id method s).0 ≡ s.0

-- A call that is handed on: only its context, its request id and its span may be new.
abbrev pub IsSameCall : {Q : Type 0} → Call Q → Call Q → Type 0
IsSameCall call handed =
    (handed.metadata ≡ call.metadata)
    × (handed.peer_addr ≡ call.peer_addr)
    × (handed.payload ≡ call.payload)

module _ {R : Type 0} where
  recovered-code : (outcome : Outcome R) → outcome_code (recovered outcome) ≡ outcome_code outcome
  recovered-code (replies resp) = refl
  recovered-code (fails e) = refl
  recovered-code panics = refl

  recovered_idem : (outcome : Outcome R) → recovered (recovered outcome) ≡ recovered outcome
  recovered_idem (replies resp) = refl
  recovered_idem (fails e) = refl
  recovered_idem panics = refl

module _ {R S : Type 0} where
  recover_with-metrics :
      (log_panic : Recorded S → Recorded S) (s : Recorded S) (outcome : Outcome R)
      → ((s : Recorded S) → (log_panic s).0 ≡ s.0)
      → ((recover_with log_panic (s, outcome)).0.0 ≡ s.0)
        × ((recover_with log_panic (s, outcome)).1 ≡ recovered outcome)
  recover_with-metrics log_panic s (replies resp) h = (refl, refl)
  recover_with-metrics log_panic s (fails e) h = (refl, refl)
  recover_with-metrics log_panic s panics h = (h s, refl)

  logged-metrics :
      (log : Code → Recorded S → Recorded S × Bool) (s : Recorded S) (outcome : Outcome R)
      → ((code : Code) (s : Recorded S) → (log code s).0.0 ≡ s.0)
      → ((code : Code) (s : Recorded S) → (log code s).1 ≡ false)
      → ((logged log (s, outcome)).0.0 ≡ s.0) × ((logged log (s, outcome)).1 ≡ outcome)
  logged-metrics log s (replies resp) h k = (h ok_code s, rw (k ok_code s) refl)
  logged-metrics log s (fails e) h k = (h (code_of e) s, rw (k (code_of e) s) refl)
  logged-metrics log s panics h k = (refl, refl)

module _ {S : Type 0} where
  set_header_if_some-metrics :
      (set_header : String → String → Recorded S → Recorded S) (key : String)
      (value : Option String) (s : Recorded S)
      → ((key value : String) (s : Recorded S) → (set_header key value s).0 ≡ s.0)
      → (set_header_if_some set_header key value s).0 ≡ s.0
  set_header_if_some-metrics set_header key none s h = refl
  set_header_if_some-metrics set_header key (some value) s h = h key value s

  or_new_id-metrics :
      (new_request_id : Recorded S → Recorded S × String) (id : Option String) (s : Recorded S)
      → ((s : Recorded S) → (new_request_id s).0.0 ≡ s.0)
      → (or_new_id new_request_id id s).0.0 ≡ s.0
  or_new_id-metrics new_request_id none s h = h s
  or_new_id-metrics new_request_id (some id) s h = refl

module _ {Q R S : Type 0} where
  -- An end of a call that is counted once, around one run of the inner handler: begun before it, and
  -- observed behind it under the code of the outcome, which is that of the inner handler, or its
  -- panic recovered.
  abbrev pub IsMeasured :
      RpcType
      → GrpcOutside (Recorded S)
      → String
      → GrpcMetrics
      → Handler Q R (Recorded S)
      → Call Q
      → Recorded S × Outcome R
      → Type 0
  IsMeasured rpc_type out method m inner call (end, outcome) =
      (handed : Call Q) × (s : S) × IsSameCall call handed
      × (let (after, ended) = inner handed (begin_rpc (some m), s) in
          (end.0
            ≡ observe_rpc method (rpc_type_label rpc_type) (out.code_string (outcome_code outcome))
                (out.elapsed after) after.0)
          × (recovered outcome ≡ recovered ended))

  module _ (rpc_type : RpcType) (out : GrpcOutside (Recorded S)) (method : String) (m : GrpcMetrics)
      (inner : Handler Q R (Recorded S)) where
    -- Every call that a handler serves is counted so, if it starts with the metrics `m`.
    abbrev Counts : Handler Q R (Recorded S) → Type 0
    Counts handler =
        (call : Call Q) (s : Recorded S)
        → s.0 ≡ some m
        → IsMeasured rpc_type out method m inner call (handler call s)

    -- What changes neither the metrics nor the outcome, but for a panic that it recovers.
    IsMeasured-later :
        (call : Call Q) (end later : Recorded S) (outcome answer : Outcome R)
        → later.0 ≡ end.0
        → (answer ≡ outcome) ⊎ (answer ≡ recovered outcome)
        → IsMeasured rpc_type out method m inner call (end, outcome)
        → IsMeasured rpc_type out method m inner call (later, answer)
    IsMeasured-later call end later outcome answer kept (inl same)
          (handed, s, c, (observed, ended)) =
        (handed, s, c, (rw (kept, same) observed, rw same ended))
    IsMeasured-later call end later outcome answer kept (inr same)
          (handed, s, c, (observed, ended)) =
        (
          handed,
          s,
          c,
          (
            rw (kept, same, recovered-code outcome) observed,
            rw (same, recovered_idem outcome) ended,
          ),
        )

    grpc_metrics-Counts : Counts (grpc_metrics out.code_string out.elapsed rpc_type method inner)
    unfolding grpc_metrics
    grpc_metrics-Counts call s q =
        subst
          (λ (metrics : Option GrpcMetrics).
            IsMeasured rpc_type out method m inner call
              (grpc_metrics out.code_string out.elapsed rpc_type method inner call (metrics, s.1)))
          (sym q) (call, s.1, (refl, refl, refl), (refl, refl))

    module _ (keeps : KeepsMetrics out) where
      grpc_logging-Counts :
          (handler : Handler Q R (Recorded S))
          → Counts handler
          → Counts (grpc_logging out.log rpc_type method handler)
      unfolding grpc_logging
      grpc_logging-Counts handler counts call s q =
          let (s₁, outcome) = handler call s in
          let log : Code → Recorded S → Recorded S × Bool =
            λ code. out.log (log_grpc_completion rpc_type call method code) in
          let (kept, same) =
            logged-metrics log s₁ outcome
              (λ code. keeps.by_log (log_grpc_completion rpc_type call method code))
              (λ code. keeps.logs (log_grpc_completion rpc_type call method code)) in
          let (later, answer) = logged log (s₁, outcome) in
          IsMeasured-later call s₁ later outcome answer kept (inl same) (counts call s q)

      in_span-Counts :
          (name : String) (handler : Handler Q R (Recorded S)) (call : Call Q) (s : Recorded S)
          (started : Option (Context × SpanIds))
          → Counts handler
          → s.0 ≡ some m
          → started ≢ none
          → IsMeasured rpc_type out method m inner call
              (in_span (out.tracer name) out.set_header handler call s started)
      unfolding in_span
      in_span-Counts name handler call s none counts q running = absurd (running refl)
      in_span-Counts name handler call s (some (ctx, span)) counts q running =
          let s₂ = set_header_if_some out.set_header "x-trace-id" span.trace_id s in
          let s₃ = set_header_if_some out.set_header "x-span-id" span.span_id s₂ in
          let traced = record call { ctx = ctx; span = span } in
          let (s₄, outcome) = handler traced s₃ in
          let q₂ =
            set_header_if_some-metrics out.set_header "x-trace-id" span.trace_id s
              keeps.by_header in
          let q₃ =
            set_header_if_some-metrics out.set_header "x-span-id" span.span_id s₂ keeps.by_header in
          IsMeasured-later call s₄ ((out.tracer name).end_span s₄) outcome outcome
            (keeps.by_end name s₄) (inl refl) (counts traced s₃ (q₃ ∙ (q₂ ∙ q)))

      grpc_tracing-Counts :
          (name : String) (handler : Handler Q R (Recorded S))
          → Counts handler
          → Counts (grpc_tracing (out.tracer name) out.set_header method handler)
      unfolding grpc_tracing
      grpc_tracing-Counts name handler counts call s q =
          let ctx = (out.tracer name).extract call.ctx (metadata_carrier call.metadata) in
          let (s₁, started) = (out.tracer name).start ctx method s in
          in_span-Counts name handler call s₁ started counts (keeps.by_start name ctx method s ∙ q)
            (keeps.starts name ctx method s)

      grpc_recovery-Counts :
          (handler : Handler Q R (Recorded S))
          → Counts handler
          → Counts (grpc_recovery out.log_panic method handler)
      unfolding grpc_recovery
      grpc_recovery-Counts handler counts call s q =
          let (s₁, outcome) = handler call s in
          let (kept, same) =
            recover_with-metrics (out.log_panic (context_request_id call) method) s₁ outcome
              (keeps.by_log_panic (context_request_id call) method) in
          let (later, answer) =
            recover_with (out.log_panic (context_request_id call) method) (s₁, outcome) in
          IsMeasured-later call s₁ later outcome answer kept (inr same) (counts call s q)

      grpc_request_id-Counts :
          (handler : Handler Q R (Recorded S))
          → Counts handler
          → Counts (grpc_request_id_interceptor out.new_request_id out.set_header method handler)
      unfolding grpc_request_id_interceptor grpc_request_id
      grpc_request_id-Counts handler counts call s q =
          let (s₁, id) = grpc_request_id out.new_request_id call s in
          counts (record call { request_id = some id }) (out.set_header "x-request-id" id s₁)
            (keeps.by_header "x-request-id" id s₁
              ∙ (or_new_id-metrics out.new_request_id
                    (first_id (call.metadata.values "x-request-id")) s keeps.by_request_id
                  ∙ q))

module _ {Q R S : Type 0} where
  pub grpc_server_preset-IsMeasured :
      (rpc_type : RpcType) (out : GrpcOutside (Recorded S))
      (cfg : GrpcServerPresetConfig Q R (Recorded S)) (method : String)
      (handler : Handler Q R (Recorded S)) (call : Call Q) (m : GrpcMetrics) (s : S)
      → KeepsMetrics out
      → IsMeasured rpc_type out method m
          (chain_interceptors (inner_interceptors out cfg) method handler)
          call
          (chain_interceptors (grpc_server_preset rpc_type out cfg) method handler call (some m, s))
  unfolding grpc_server_preset chain_interceptors
  grpc_server_preset-IsMeasured rpc_type out cfg method handler call m s keeps =
      let inner = chain_interceptors (inner_interceptors out cfg) method handler in
      let tracer_name = if str_eq cfg.tracer_name "" then "dense-grpc" else cfg.tracer_name in
      let measured = grpc_metrics out.code_string out.elapsed rpc_type method inner in
      let written = grpc_logging out.log rpc_type method measured in
      let traced = grpc_tracing (out.tracer tracer_name) out.set_header method written in
      let safe = grpc_recovery out.log_panic method traced in
      grpc_request_id-Counts rpc_type out method m inner keeps safe
        (grpc_recovery-Counts rpc_type out method m inner keeps traced (
          grpc_tracing-Counts rpc_type out method m inner keeps tracer_name written (
            grpc_logging-Counts rpc_type out method m inner keeps measured
              (grpc_metrics-Counts rpc_type out method m inner))))
        call (some m, s) refl
