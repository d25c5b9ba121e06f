-- ===== src/Server/Health/Endpoints.antt =====
-- The health endpoints of go/server/health.go as handlers of net/http. The registry and the store of
-- its executions are a part of the state of the process; `report_json` and `summary_json` are what
-- json.NewEncoder writes.
use dense_cloud.Prelude.{ℕ, String, ◌≡◌, refl, ◌⊎◌, true, false, some, List, [], ◌∷◌}
use dense_cloud.Golang.NetHttp.{
  Headers, WriterCall, set_header, write_header, write, Request, HttpHandler,
}
use dense_cloud.Server.Health.Registry.{phase_ready, HealthRegistry}
use dense_cloud.Server.Health.Evaluate.{
  HealthReport, Executions, Scheduler, evaluate, phase_handler, Summary, summary_handler,
}
use dense_cloud.Server.Health.Readiness.{evaluate_ready-closed}

pub record HealthEndpoints (S : Type 0) : Type 0 where
  pub registry : S → HealthRegistry
  pub executions : S → Executions
  pub set_executions : Executions → S → S
  pub scheduler : Scheduler
  pub report_json : HealthReport → String
  pub summary_json : Summary → String

-- writeHealthJSON, on the encoded payload
unfoldable pub write_health_json : ℕ → String → List WriterCall
write_health_json status payload =
    set_header "Content-Type" "application/json" ∷ write_header status ∷ write payload ∷ []

module _ {S : Type 0} (health : HealthEndpoints S) where
  unfoldable pub phase_endpoint : String → HttpHandler S
  unfolding phase_handler
  phase_endpoint phase r headers s =
      let (executions, code, report) =
        phase_handler health.scheduler (health.registry s) (some r.ctx) phase
          (health.executions s) in
      (
        health.set_executions executions s,
        write_health_json code (health.report_json report),
        false,
      )

  unfoldable pub summary_endpoint : HttpHandler S
  unfolding summary_handler
  summary_endpoint r headers s =
      let (executions, code, summary) =
        summary_handler health.scheduler (health.registry s) (some r.ctx) (health.executions s) in
      (
        health.set_executions executions s,
        write_health_json code (health.summary_json summary),
        false,
      )

  -- Readiness is refused: the registry is not started, or is shutting down.
  abbrev pub IsClosed : S → Type 0
  IsClosed s = ((health.registry s).started ≡ false) ⊎ ((health.registry s).shutting_down ≡ true)

  pub phase_endpoint-closed :
      (r : Request) (headers : Headers) (s : S)
      → IsClosed s
      → (payload : String) × (s₁ : S) × (phase_endpoint phase_ready r headers s
          ≡ (s₁, write_health_json 503 payload, false))
  unfolding phase_endpoint phase_handler
  phase_endpoint-closed r headers s closed =
      let refused =
        evaluate_ready-closed health.scheduler (health.registry s) (some r.ctx)
          (health.executions s) closed in
      (
        health.report_json
            (evaluate health.scheduler (health.registry s) (some r.ctx) phase_ready
              (health.executions s)).1,
        health.set_executions (health.executions s) s,
        rw (refused.0, refused.2) refl,
      )
