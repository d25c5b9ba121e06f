-- ===== src/Server/Tests/HealthRuns.antt =====
-- Runs of the health registry, and its theorems at them.
use dense_cloud.Prelude.{
  if◌then◌else◌, ℕ, suc, ◌≡◌, refl, ◌↔◌, ◌⊎◌, false, none, some, List, [], ◌∷◌, ◌++◌, map, arith,
  eq_iff,
}
use dense_cloud.Golang.Errors.{canceled}
use dense_cloud.Golang.Contexts.{seconds}
use dense_cloud.Server.Health.Execution.{
  returned, HealthCheckExecution, new_execution, start_or_join, store_result, close_done, probe,
  return, close, Reach, here, step, call_done, ctx_done, select_result,
}
use dense_cloud.Server.Health.SingleFlight.{single_flight, IsReport, select_result_sound}
use dense_cloud.Server.Health.Registry.{
  HealthCheckEntry, HealthRegistry, new_health_registry, mark_shutting_down, Target, checks_of,
  register_check,
}
use dense_cloud.Server.Health.Registration.{copies, Kept, new_entry, register_check_lem}
use dense_cloud.Server.Health.Invariant.{Op, apply_ops}
use dense_cloud.Server.Health.Evaluate.{
  status_ok, status_unavailable, HealthCheckResult, Executions, Scheduler, evaluate, http_ok,
  http_service_unavailable, phase_handler,
}
use dense_cloud.Server.Health.Summary.{phase_handler-code}
use dense_cloud.Server.Health.Shutdown.{mark_shutting_down_permanent}
use dense_cloud.Server.Health.Readiness.{evaluate_live-names}

-- One probe has started a call, and its check has returned nil.
abbrev one_call : HealthCheckExecution
one_call =
    close_done 0 (store_result 0 (returned none) (start_or_join 7 (seconds 2) new_execution).0)

one_call-Reach : Reach new_execution one_call
unfolding new_execution start_or_join store_result close_done
one_call-Reach =
    step (step (step here (probe 7 (seconds 2))) (return 0 (returned none) (omega arith) refl))
      (close 0 (omega arith) refl)

single_flight_example : ◌≡◌ {A = ℕ} 0 0
unfolding new_execution start_or_join store_result close_done
single_flight_example =
    single_flight one_call 0 0 one_call-Reach (omega arith) (omega arith) refl refl

select_result_sound_example :
    IsReport (one_call.calls 0) none (select_result (one_call.calls 0) none call_done)
unfolding new_execution start_or_join store_result close_done
select_result_sound_example =
    select_result_sound one_call 0 none call_done one_call-Reach (omega arith) refl

healthy_run : select_result (one_call.calls 0) none call_done ≡ none
unfolding select_result new_execution start_or_join store_result close_done
healthy_run = refl

-- A registry with one readiness check, started.
abbrev database : List Op
database = Op.check_op "database" (some 7) [] ∷ Op.started_op ∷ []

register_check_lem_example :
    let r = new_health_registry [] in
    ((t : Target)
      → checks_of t (register_check "database" (some 7) ("live" ∷ "ready" ∷ []) r)
        ≡ checks_of t r ++ copies t ("live" ∷ "ready" ∷ []) (new_entry "database" 7 r))
    × Kept r (register_check "database" (some 7) ("live" ∷ "ready" ∷ []) r)
    × ((register_check "database" (some 7) ("live" ∷ "ready" ∷ []) r).next_execution
        ≡ suc r.next_execution)
register_check_lem_example =
    register_check_lem "database" 7 ("live" ∷ "ready" ∷ []) (new_health_registry [])
      (ground (arith, eq_iff "database" ""))

apply_ops-new_health_registry-IsValid_example : dense_cloud.Server.Health.Invariant.IsValid (
    apply_ops database (
      new_health_registry
        (dense_cloud.Server.Health.Invariant.timeout_options (some (seconds 1) ∷ []))))
apply_ops-new_health_registry-IsValid_example =
    dense_cloud.Server.Health.Invariant.apply_ops-new_health_registry-IsValid
      (some (seconds 1) ∷ []) database

-- A scheduler that wakes a probe at once: on its call where that is done, and otherwise because the
-- request has ended.
abbrev impatient : Scheduler
impatient ctx executions k c = record {
  executions = executions;
  ctx_err = some canceled;
  wake = if ((executions k).calls c).done then call_done else ctx_done;
}

abbrev ready_registry : HealthRegistry
ready_registry = apply_ops database (new_health_registry [])

abbrev all_called : Executions
all_called k = one_call

mark_shutting_down_permanent_example :
    let r' = apply_ops database (mark_shutting_down ready_registry) in
    ((evaluate impatient r' none "ready" all_called).0 ≡ all_called)
    × ((evaluate impatient r' none "ready" all_called).1.status ≡ status_unavailable)
    × ((evaluate impatient r' none "ready" all_called).2 ≡ false)
mark_shutting_down_permanent_example =
    mark_shutting_down_permanent impatient ready_registry database none all_called

evaluate_live-names_example :
    map
      (λ (result : HealthCheckResult). result.name)
      (evaluate impatient ready_registry none "live" all_called).1.checks
    ≡ map (λ (entry : HealthCheckEntry). entry.name) ready_registry.liveness
evaluate_live-names_example = evaluate_live-names impatient ready_registry none all_called

phase_handler-code_example :
    let (after, code, report) = phase_handler impatient ready_registry none "ready" all_called in
    ((code ≡ http_ok) ↔ (report.status ≡ status_ok))
    × ((code ≡ http_ok) ⊎ (code ≡ http_service_unavailable))
phase_handler-code_example = phase_handler-code impatient ready_registry none "ready" all_called
