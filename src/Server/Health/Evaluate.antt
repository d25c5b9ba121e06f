-- ===== src/Server/Health/Evaluate.antt =====
-- evaluate, runChecks, runCheck and the two handlers of go/server/health.go. The executions are a
-- store of objects; while a probe waits in its select, a scheduler says how the store moves on and
-- which case is taken.
use dense_cloud.Golang.Errors.{Err, text}
use dense_cloud.Golang.Contexts.{Context, Duration, or_background}
use dense_cloud.Prelude.{
  str_eq, if◌then◌else◌, is_some, ℕ, String, Bool, true, false, not, ◌||◌, Option, none, some, List,
  [], ◌∷◌, ◌++◌,
}
use dense_cloud.Server.Health.Execution.{
  HealthCheckExecution, update, start_or_join, Wake, select_result,
}
use dense_cloud.Server.Health.Registry.{
  phase_live, phase_ready, phase_startup, default_health_check_timeout, HealthCheckEntry,
  HealthRegistry, is_positive,
}

abbrev pub status_ok : String
status_ok = "ok"

abbrev pub status_unavailable : String
status_unavailable = "unavailable"

abbrev pub status_starting : String
status_starting = "starting"

abbrev pub status_unknown : String
status_unknown = "unknown"

abbrev pub status_degraded : String
status_degraded = "degraded"

-- `error` holds the error whose text the JSON shows.
pub record HealthCheckResult : Type 0 where
  pub name : String
  pub status : String
  pub error : Option Err

pub record HealthReport : Type 0 where
  pub status : String
  pub phase : String
  pub checks : List HealthCheckResult

abbrev pub Executions : Type 0
Executions = ℕ → HealthCheckExecution

-- The state when the select of a probe wakes, with ctx.Err() and the case that it takes.
pub record Woken : Type 0 where
  pub executions : Executions
  pub ctx_err : Option Err
  pub wake : Wake

-- From the store, the execution and the call that the probe waits for.
abbrev pub Scheduler : Type 0
Scheduler = Context → Executions → ℕ → ℕ → Woken

abbrev pub effective_timeout : HealthRegistry → Duration
effective_timeout r =
    if is_positive r.check_timeout then r.check_timeout else default_health_check_timeout

-- The function of an entry; `register` admits no entry without one.
abbrev pub fn_of : HealthCheckEntry → ℕ
fn_of entry = elim entry.fn [ none ↦ 0 | some fn ↦ fn ]

abbrev pub execution_unavailable : Err
execution_unavailable = text "health check execution state is unavailable"

unfoldable pub await_call : Scheduler → Context → ℕ → Executions × ℕ → Executions × Option Err
await_call scheduler ctx k (executions, call) =
    let woken = scheduler ctx executions k call in
    (woken.executions, select_result ((woken.executions k).calls call) woken.ctx_err woken.wake)

unfoldable pub join_execution : ℕ → ℕ → Duration → Executions → Executions × ℕ
join_execution fn k timeout executions =
    let (execution, call) = start_or_join fn timeout (executions k) in
    (update executions k execution, call)

unfoldable pub run_check :
    Scheduler
    → HealthRegistry
    → Option Context
    → HealthCheckEntry
    → Executions
    → Executions × Option Err
run_check scheduler r ctx entry executions = elim entry.execution [
  | none ↦ (executions, some execution_unavailable)
  | some k ↦
      await_call scheduler (or_background ctx) k
        (join_execution (fn_of entry) k (effective_timeout r) executions)
]

abbrev pub result_of : String → Option Err → HealthCheckResult
result_of name none = record { name = name; status = status_ok; error = none }
result_of name (some err) = record { name = name; status = status_unavailable; error = some err }

-- The loop of runChecks: the store, the results so far, and `healthy`.
unfoldable pub check_loop :
    (HealthCheckEntry → Executions → Executions × Option Err)
    → List HealthCheckEntry
    → Executions
    → List HealthCheckResult
    → Bool
    → Executions × List HealthCheckResult × Bool
check_loop run [] executions results healthy = (executions, results, healthy)
check_loop run (entry ∷ entries) executions results healthy =
    let (executions', err) = run entry executions in
    check_loop run entries executions' (results ++ result_of entry.name err ∷ [])
      (if is_some err then false else healthy)

unfoldable pub run_checks :
    Scheduler
    → HealthRegistry
    → Option Context
    → List HealthCheckEntry
    → HealthReport
    → Executions
    → Executions × HealthReport × Bool
run_checks scheduler r ctx entries report executions =
    let (executions', checks, healthy) =
      check_loop (run_check scheduler r ctx) entries executions report.checks true in
    if not healthy
    then (executions', record report { status = status_unavailable; checks = checks }, false)
    else if str_eq report.status ""
    then (executions', record report { status = status_ok; checks = checks }, true)
    else (executions', record report { checks = checks }, true)

abbrev pub failed_report : String → String → String → String → HealthReport
failed_report status phase name reason = record {
  status = status;
  phase = phase;
  checks = record { name = name; status = status; error = some (text reason) } ∷ [];
}

abbrev pub not_started : String
not_started = "runtime has not completed startup"

unfoldable pub evaluate :
    Scheduler
    → HealthRegistry
    → Option Context
    → String
    → Executions
    → Executions × HealthReport × Bool
evaluate scheduler r ctx phase executions =
    let report : HealthReport = record { status = status_ok; phase = phase; checks = [] } in
    if str_eq phase phase_live
    then run_checks scheduler r ctx r.liveness report executions
    else if str_eq phase phase_ready
    then if not r.started
      then (executions, failed_report status_unavailable phase "runtime_started" not_started, false)
      else if r.shutting_down
      then (
        executions,
        failed_report status_unavailable phase "shutdown_state" "runtime is shutting down",
        false,
      )
      else run_checks scheduler r ctx r.readiness report executions
    else if str_eq phase phase_startup
    then if not r.started
      then (executions, failed_report status_starting phase "runtime_started" not_started, false)
      else run_checks scheduler r ctx r.startup report executions
    else (executions, failed_report status_unknown phase "phase" "unsupported health phase", false)

abbrev pub http_ok : ℕ
http_ok = 200

abbrev pub http_service_unavailable : ℕ
http_service_unavailable = 503

unfoldable pub phase_handler :
    Scheduler
    → HealthRegistry
    → Option Context
    → String
    → Executions
    → Executions × ℕ × HealthReport
phase_handler scheduler r ctx phase executions =
    let (executions', report, healthy) = evaluate scheduler r ctx phase executions in
    (executions', if healthy then http_ok else http_service_unavailable, report)

pub record Summary : Type 0 where
  pub status : String
  pub live : HealthReport
  pub ready : HealthReport
  pub startup : HealthReport

unfoldable pub summary_handler :
    Scheduler → HealthRegistry → Option Context → Executions → Executions × ℕ × Summary
summary_handler scheduler r ctx e₀ =
    let (e₁, live, _) = evaluate scheduler r ctx phase_live e₀ in
    let (e₂, ready, _) = evaluate scheduler r ctx phase_ready e₁ in
    let (e₃, startup, _) = evaluate scheduler r ctx phase_startup e₂ in
    let bad =
      not (str_eq live.status status_ok)
      || not (str_eq ready.status status_ok)
      || not (str_eq startup.status status_ok) in
    (
      e₃,
      if bad then http_service_unavailable else http_ok,
      record {
        status = if bad then status_degraded else status_ok;
        live = live;
        ready = ready;
        startup = startup;
      },
    )
