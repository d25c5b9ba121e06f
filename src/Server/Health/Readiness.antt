-- ===== src/Server/Health/Readiness.antt =====
-- What the health endpoints of go/server/health.go answer.
use dense_cloud.Golang.Errors.{Err}
use dense_cloud.Prelude.{
  str_eq, if◌then◌else◌, is_some, all, all-snoc, String, ◌≡◌, refl, sym, ap, ◌∙◌, ◌↔◌, ◌⊎◌, Bool,
  true, false, not, ◌&&◌, Option, none, some, List, [], ◌∷◌, ◌++◌, map, append_assoc, append-nil,
  map-append, arith, eq_iff,
}
use dense_cloud.Golang.Contexts.{Context}
use dense_cloud.Server.Health.Registry.{phase_live, phase_ready, HealthCheckEntry, HealthRegistry}
use dense_cloud.Server.Health.Evaluate.{
  status_ok, status_unavailable, status_starting, status_unknown, HealthCheckResult, HealthReport,
  Executions, Scheduler, run_check, result_of, check_loop, run_checks, evaluate,
}

abbrev pub result_ok : HealthCheckResult → Bool
result_ok result = str_eq result.status status_ok && not (is_some result.error)

abbrev name_of : HealthCheckResult → String
name_of result = result.name

abbrev entry_name : HealthCheckEntry → String
entry_name entry = entry.name

module _ (run : HealthCheckEntry → Executions → Executions × Option Err) where
  -- `healthy` is false exactly when one of the results shows a failure.
  check_loop-healthy :
      (entries : List HealthCheckEntry) (executions : Executions) (results : List HealthCheckResult)
      (healthy : Bool)
      → healthy ≡ all result_ok results
      → (check_loop run entries executions results healthy).2
        ≡ all result_ok (check_loop run entries executions results healthy).1
  unfolding check_loop
  check_loop-healthy [] executions results healthy h = h
  check_loop-healthy (entry ∷ entries) executions results healthy h =
      check_loop-healthy entries (run entry executions).0 _ _ (step (run entry executions).1)
    where
      step :
          (err : Option Err)
          → (if is_some err then false else healthy)
            ≡ all result_ok (results ++ result_of entry.name err ∷ [])
      step none = rw (all-snoc result_ok results (result_of entry.name none)) (ground arith)
      step (some err) =
          rw (all-snoc result_ok results (result_of entry.name (some err))) (ground arith)

  -- Every entry is checked, in order, also behind a failure.
  check_loop-names :
      (entries : List HealthCheckEntry) (executions : Executions) (results : List HealthCheckResult)
      (healthy : Bool)
      → map name_of (check_loop run entries executions results healthy).1
        ≡ map name_of results ++ map entry_name entries
  unfolding check_loop
  check_loop-names [] executions results healthy = sym (append-nil _)
  check_loop-names (entry ∷ entries) executions results healthy =
      check_loop-names entries (run entry executions).0 _ _
      ∙ ap (λ l. l ++ map entry_name entries) (step (run entry executions).1)
      ∙ append_assoc (map name_of results) (entry.name ∷ []) _
    where
      step :
          (err : Option Err)
          → map name_of (results ++ result_of entry.name err ∷ [])
            ≡ map name_of results ++ entry.name ∷ []
      step none = map-append name_of results _
      step (some err) = map-append name_of results _

-- The verdict and the status of a report agree, and a healthy report shows no failed check.
abbrev pub Agrees : HealthReport → Bool → Type 0
Agrees report healthy =
    ((healthy ≡ true) ↔ (report.status ≡ status_ok)) × (healthy ≡ all result_ok report.checks)

abbrev opening : String → HealthReport
opening phase = record { status = status_ok; phase = phase; checks = [] }

run_checks-Agrees :
    (scheduler : Scheduler) (r : HealthRegistry) (ctx : Option Context) (phase : String)
    (entries : List HealthCheckEntry) (executions : Executions)
    → Agrees
        (run_checks scheduler r ctx entries (opening phase) executions).1
        (run_checks scheduler r ctx entries (opening phase) executions).2
unfolding run_checks
run_checks-Agrees scheduler r ctx phase entries executions = ground (
  arith,
  check_loop-healthy (run_check scheduler r ctx) entries executions [] true refl,
  eq_iff status_unavailable status_ok,
)

-- For every phase, the three known ones and any other, `evaluate` returns true exactly when the
-- status of its report is "ok", and exactly when each check in the report is "ok" and has no error.
pub evaluate-Agrees :
    (scheduler : Scheduler) (r : HealthRegistry) (ctx : Option Context) (phase : String)
    (executions : Executions)
    → Agrees
        (evaluate scheduler r ctx phase executions).1
        (evaluate scheduler r ctx phase executions).2
unfolding evaluate
evaluate-Agrees scheduler r ctx phase executions = ground (
  arith,
  run_checks-Agrees scheduler r ctx phase r.liveness executions,
  run_checks-Agrees scheduler r ctx phase r.readiness executions,
  run_checks-Agrees scheduler r ctx phase r.startup executions,
  eq_iff status_unavailable status_ok,
  eq_iff status_starting status_ok,
  eq_iff status_unknown status_ok,
)

run_checks-names :
    (scheduler : Scheduler) (r : HealthRegistry) (ctx : Option Context) (phase : String)
    (entries : List HealthCheckEntry) (executions : Executions)
    → map name_of (run_checks scheduler r ctx entries (opening phase) executions).1.checks
      ≡ map entry_name entries
unfolding run_checks
run_checks-names scheduler r ctx phase entries executions =
    ground (arith, check_loop-names (run_check scheduler r ctx) entries executions [] true)

-- A liveness report lists every liveness check by name, in the order of registration, whatever the
-- checks return and whether or not the runtime has started or is shutting down.
pub evaluate_live-names :
    (scheduler : Scheduler) (r : HealthRegistry) (ctx : Option Context) (executions : Executions)
    → map name_of (evaluate scheduler r ctx phase_live executions).1.checks
      ≡ map entry_name r.liveness
unfolding evaluate
evaluate_live-names scheduler r ctx executions =
    run_checks-names scheduler r ctx phase_live r.liveness executions

-- Readiness is refused, and no check is run, while the registry is not started or is shutting down.
pub evaluate_ready-closed :
    (scheduler : Scheduler) (r : HealthRegistry) (ctx : Option Context) (executions : Executions)
    → (r.started ≡ false) ⊎ (r.shutting_down ≡ true)
    → ((evaluate scheduler r ctx phase_ready executions).0 ≡ executions)
      × ((evaluate scheduler r ctx phase_ready executions).1.status ≡ status_unavailable)
      × ((evaluate scheduler r ctx phase_ready executions).2 ≡ false)
unfolding evaluate
evaluate_ready-closed scheduler r ctx executions h = ground arith
