-- ===== src/Server/Health/Summary.antt =====
-- The HTTP answers of the health endpoints of go/server/health.go.
use dense_cloud.Prelude.{String, ◌≡◌, ◌↔◌, ◌⊎◌, true, false, Option, arith, eq_iff}
use dense_cloud.Golang.Contexts.{Context}
use dense_cloud.Server.Health.Registry.{phase_live, phase_ready, phase_startup, HealthRegistry}
use dense_cloud.Server.Health.Evaluate.{
  status_ok, status_degraded, Executions, Scheduler, evaluate, http_ok, http_service_unavailable,
  phase_handler, summary_handler,
}
use dense_cloud.Server.Health.Readiness.{evaluate-Agrees}

-- A phase endpoint answers 200 exactly when its report has the status "ok", and 503 otherwise.
pub phase_handler-code :
    (scheduler : Scheduler) (r : HealthRegistry) (ctx : Option Context) (phase : String)
    (executions : Executions)
    → let (after, code, report) = phase_handler scheduler r ctx phase executions in
      ((code ≡ http_ok) ↔ (report.status ≡ status_ok))
      × ((code ≡ http_ok) ⊎ (code ≡ http_service_unavailable))
unfolding phase_handler
phase_handler-code scheduler r ctx phase executions =
    ground (arith, evaluate-Agrees scheduler r ctx phase executions)

-- The summary endpoint answers 200 with the status "ok" exactly when each of the three phases, tried
-- one after the other, returns true; otherwise it answers 503 with the status "degraded".
pub summary_handler-code :
    (scheduler : Scheduler) (r : HealthRegistry) (ctx : Option Context) (executions : Executions)
    → let on_live = evaluate scheduler r ctx phase_live executions in
      let on_ready = evaluate scheduler r ctx phase_ready on_live.0 in
      let on_startup = evaluate scheduler r ctx phase_startup on_ready.0 in
      let (after, code, summary) = summary_handler scheduler r ctx executions in
      (((on_live.2 ≡ true)
          × (on_ready.2 ≡ true)
          × (on_startup.2 ≡ true)
          × (code ≡ http_ok)
          × (summary.status ≡ status_ok))
        ⊎ (((on_live.2 ≡ false) ⊎ (on_ready.2 ≡ false) ⊎ (on_startup.2 ≡ false))
            × (code ≡ http_service_unavailable)
            × (summary.status ≡ status_degraded)))
      × (after ≡ on_startup.0)
unfolding summary_handler
summary_handler-code scheduler r ctx executions =
    let on_live = evaluate scheduler r ctx phase_live executions in
    let on_ready = evaluate scheduler r ctx phase_ready on_live.0 in
    let on_startup = evaluate scheduler r ctx phase_startup on_ready.0 in
    ground (
      arith,
      evaluate-Agrees scheduler r ctx phase_live executions,
      evaluate-Agrees scheduler r ctx phase_ready on_live.0,
      evaluate-Agrees scheduler r ctx phase_startup on_ready.0,
      eq_iff on_live.1.status status_ok,
      eq_iff on_ready.1.status status_ok,
      eq_iff on_startup.1.status status_ok,
    )
