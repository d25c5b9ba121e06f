-- ===== src/Server/Health/Shutdown.antt =====
-- Readiness after a shutdown has begun, in go/server/health.go.
use dense_cloud.Prelude.{
  ℕ, String, ◌≡◌, refl, ◌∙◌, inr, true, false, Option, none, some, List, [], ◌∷◌, arith,
}
use dense_cloud.Golang.Contexts.{Context}
use dense_cloud.Server.Health.Registry.{
  phase_ready, HealthCheckEntry, HealthRegistry, mark_started, mark_shutting_down,
  set_health_check_timeout, Target, live, ready, start, register, register_liveness,
  register_readiness, register_startup, or_ready, register_check, register_dependency,
}
use dense_cloud.Server.Health.Registration.{
  register-Kept, register_phases-Kept, new_entry, allocate,
}
use dense_cloud.Server.Health.Invariant.{
  Op, liveness_op, readiness_op, startup_op, check_op, dependency_op, timeout_op, started_op,
  shutting_down_op, apply_op, apply_ops,
}
use dense_cloud.Server.Health.Evaluate.{status_unavailable, Executions, Scheduler, evaluate}
use dense_cloud.Server.Health.Readiness.{evaluate_ready-closed}

register_check-shutting_down :
    (name : String) (fn : Option ℕ) (phases : List String) (r : HealthRegistry)
    → (register_check name fn phases r).shutting_down ≡ r.shutting_down
unfolding register_check
register_check-shutting_down name none phases r = refl
register_check-shutting_down name (some fn) phases r =
    ground (arith, register_phases-Kept (or_ready phases) (new_entry name fn r) (allocate r))

abbrev raw_entry : String → Option ℕ → HealthRegistry → HealthCheckEntry
raw_entry name fn r = record { name = name; fn = fn; execution = some r.next_execution }

register_new-shutting_down :
    (target : Target) (entry : HealthCheckEntry) (r : HealthRegistry)
    → (register target entry (allocate r)).shutting_down ≡ r.shutting_down
register_new-shutting_down target entry r = (register-Kept target entry (allocate r)).0.2

apply_op-shutting_down :
    (op : Op) (r : HealthRegistry) → r.shutting_down ≡ true → (apply_op op r).shutting_down ≡ true
unfolding apply_op register_liveness register_readiness register_startup register_dependency
    set_health_check_timeout mark_started mark_shutting_down
apply_op-shutting_down (liveness_op name fn) r h =
    register_new-shutting_down live (raw_entry name fn r) r ∙ h
apply_op-shutting_down (readiness_op name fn) r h =
    register_new-shutting_down ready (raw_entry name fn r) r ∙ h
apply_op-shutting_down (startup_op name fn) r h =
    register_new-shutting_down start (raw_entry name fn r) r ∙ h
apply_op-shutting_down (check_op name fn phases) r h =
    register_check-shutting_down name fn phases r ∙ h
apply_op-shutting_down (dependency_op name none phases) r h = h
apply_op-shutting_down (dependency_op name (some fn) phases) r h =
    register_check-shutting_down name (some fn) phases r ∙ h
apply_op-shutting_down (timeout_op timeout) r h = ground arith
apply_op-shutting_down started_op r h = h
apply_op-shutting_down shutting_down_op r h = refl

apply_ops-shutting_down :
    (ops : List Op) (r : HealthRegistry)
    → r.shutting_down ≡ true
    → (apply_ops ops r).shutting_down ≡ true
unfolding apply_ops
apply_ops-shutting_down [] r h = h
apply_ops-shutting_down (op ∷ ops) r h =
    apply_ops-shutting_down ops (apply_op op r) (apply_op-shutting_down op r h)

-- Once a registry is marked as shutting down, readiness is refused with the status "unavailable" and
-- without running a check, whatever is called on the registry afterwards, MarkStarted included.
pub mark_shutting_down_permanent :
    (scheduler : Scheduler) (r : HealthRegistry) (ops : List Op) (ctx : Option Context)
    (executions : Executions)
    → let r' = apply_ops ops (mark_shutting_down r) in
      ((evaluate scheduler r' ctx phase_ready executions).0 ≡ executions)
      × ((evaluate scheduler r' ctx phase_ready executions).1.status ≡ status_unavailable)
      × ((evaluate scheduler r' ctx phase_ready executions).2 ≡ false)
unfolding mark_shutting_down
mark_shutting_down_permanent scheduler r ops ctx executions =
    evaluate_ready-closed scheduler _ ctx executions
      (inr (apply_ops-shutting_down ops (mark_shutting_down r) refl))
