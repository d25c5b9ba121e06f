-- ===== src/Middleware/Grpc/Counted.antt =====
-- The gRPC metrics under the preset of go/middleware/grpc_preset.go.
use dense_cloud.Prelude.{String, ◌≡◌, refl, ap, ◌∙◌, some}
use dense_cloud.Telemetry.GrpcMetrics.{GrpcMetrics, begin_rpc, observe_rpc}
use dense_cloud.Middleware.Grpc.Resilience.{IsAnswer, grpc_server_preset-IsAnswer}
use dense_cloud.Middleware.Grpc.Preset.{
  GrpcOutside, GrpcServerPresetConfig, inner_interceptors, grpc_server_preset,
}
use dense_cloud.Middleware.Grpc.Observability.{RpcType, rpc_type_label, outcome_code, Recorded}
use dense_cloud.Middleware.Grpc.Measured.{
  KeepsMetrics, IsSameCall, IsMeasured, grpc_server_preset-IsMeasured,
}
use dense_cloud.Middleware.Grpc.Interceptors.{recovered}
use dense_cloud.Middleware.Grpc.{
  Code, ok_code, unknown, internal, status_error, plain_error, Call, Outcome, replies, fails,
  panics, Handler, chain_interceptors,
}

-- What a client gets of an outcome: a panic is an Internal error.
abbrev pub client_answer : {R : Type 0} → Outcome R → Outcome R
client_answer (replies resp) = replies resp
client_answer (fails e) = fails e
client_answer panics = fails (status_error internal "internal server error")

-- status.Code of an answer.
abbrev pub answer_code : {R : Type 0} → Outcome R → Code
answer_code (replies resp) = ok_code
answer_code (fails (status_error code message)) = code
answer_code (fails (plain_error message)) = unknown
answer_code panics = internal

module _ {R : Type 0} where
  recovered-IsAnswer :
      (outcome ended : Outcome R)
      → IsAnswer outcome
      → recovered outcome ≡ recovered ended
      → outcome ≡ client_answer ended
  recovered-IsAnswer (replies resp) (replies other) h e = e
  recovered-IsAnswer (replies resp) (fails other) h e = e
  recovered-IsAnswer (replies resp) panics h e = e
  recovered-IsAnswer (fails error) (replies other) h e = e
  recovered-IsAnswer (fails error) (fails other) h e = e
  recovered-IsAnswer (fails error) panics h e = e
  recovered-IsAnswer panics ended h e = absurd h

  outcome_code-answer_code : (outcome : Outcome R) → outcome_code outcome ≡ answer_code outcome
  outcome_code-answer_code (replies resp) = refl
  outcome_code-answer_code (fails (status_error code message)) = refl
  outcome_code-answer_code (fails (plain_error message)) = refl
  outcome_code-answer_code panics = refl

module _ {Q R S : Type 0} where
  -- One run of the inner handler, begun with one more call in flight, and observed once under the code
  -- of the answer that the client gets.
  abbrev pub IsCounted :
      RpcType
      → GrpcOutside (Recorded S)
      → String
      → GrpcMetrics
      → Handler Q R (Recorded S)
      → Call Q
      → Recorded S × Outcome R
      → Type 0
  IsCounted rpc_type out method m inner call (end, outcome) =
      (handed : Call Q) × (s : S) × IsSameCall call handed
      × (let (after, ended) = inner handed (begin_rpc (some m), s) in
          (end.0
            ≡ observe_rpc method (rpc_type_label rpc_type)
                (out.code_string (answer_code (client_answer ended))) (out.elapsed after) after.0)
          × (outcome ≡ client_answer ended))

  IsMeasured-IsCounted :
      (rpc_type : RpcType) (out : GrpcOutside (Recorded S)) (method : String) (m : GrpcMetrics)
      (inner : Handler Q R (Recorded S)) (call : Call Q) (end : Recorded S × Outcome R)
      → IsAnswer end.1
      → IsMeasured rpc_type out method m inner call end
      → IsCounted rpc_type out method m inner call end
  IsMeasured-IsCounted rpc_type out method m inner call (end, outcome) h
        (handed, s, c, (observed, ended)) =
      let (after, inside) = inner handed (begin_rpc (some m), s) in
      let told = recovered-IsAnswer outcome inside h ended in
      let code : outcome_code outcome ≡ answer_code (client_answer inside) =
        outcome_code-answer_code outcome ∙ ap answer_code told in
      (handed, s, c, (rw⁻¹ code observed, told))

  -- With the preset's interceptors, if what is outside does not touch the metrics, and neither the
  -- start of a span nor the log line panics, a call is counted
  -- once around one run of all that stands behind the metrics interceptor, which gets the call with
  -- its metadata, peer and payload: the gauge goes up before it, and the call is observed behind it.
  -- The client gets its reply or its error, and for a panic the Internal error "internal server
  -- error"; and the call is counted under status.Code of that answer.
  pub grpc_server_preset-IsCounted :
      (rpc_type : RpcType) (out : GrpcOutside (Recorded S))
      (cfg : GrpcServerPresetConfig Q R (Recorded S)) (method : String)
      (handler : Handler Q R (Recorded S)) (call : Call Q) (m : GrpcMetrics) (s : S)
      → KeepsMetrics out
      → IsCounted rpc_type out method m
          (chain_interceptors (inner_interceptors out cfg) method handler)
          call
          (chain_interceptors (grpc_server_preset rpc_type out cfg) method handler call (some m, s))
  grpc_server_preset-IsCounted rpc_type out cfg method handler call m s keeps =
      IsMeasured-IsCounted rpc_type out method m
        (chain_interceptors (inner_interceptors out cfg) method handler) call
        (chain_interceptors (grpc_server_preset rpc_type out cfg) method handler call (some m, s))
        (grpc_server_preset-IsAnswer rpc_type out cfg method handler call (some m, s))
        (grpc_server_preset-IsMeasured rpc_type out cfg method handler call m s keeps)
