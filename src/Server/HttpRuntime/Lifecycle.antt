-- ===== src/Server/HttpRuntime/Lifecycle.antt =====
-- Startup, BeginShutdown and Shutdown of go/server/runtime.go. A hook acts on the application's
-- state `W` and does not call the runtime it belongs to.
use dense_cloud.Prelude.{if◌then◌else◌, Bool, true, Option, none, some, List}
use dense_cloud.Golang.Errors.{Err, joined}
use dense_cloud.Golang.Contexts.{Context}
use dense_cloud.Server.Hooks.{Hook, run_startup_hooks, run_shutdown_hooks}
use dense_cloud.Server.Health.Registry.{HealthRegistry, mark_started, mark_shutting_down}

-- `shutdown_done` says whether shutdownOnce has run.
pub record HttpRuntime (W : Type 0) : Type 0 where
  pub health : HealthRegistry
  pub startup_hooks : List (Hook W)
  pub shutdown_hooks : List (Hook W)
  pub shutdown_done : Bool
  pub shutdown_err : Option Err

-- errors.Join of the failure and of the error of the rollback, where there is one
abbrev pub join_rollback : Err → Option Err → Err
join_rollback error none = error
join_rollback error (some rollback) = joined error rollback

module _ {W : Type 0} where
  unfoldable pub begin_shutdown : HttpRuntime W → HttpRuntime W
  unfolding mark_shutting_down
  begin_shutdown r = record r { health = mark_shutting_down r.health }

  -- The body of shutdownOnce.Do.
  unfoldable pub shutdown_once : Context → HttpRuntime W × W → HttpRuntime W × W
  shutdown_once ctx (r, w) =
      if r.shutdown_done
      then (r, w)
      else let (w', first) = run_shutdown_hooks r.shutdown_hooks ctx w r.shutdown_err in
        (record r { shutdown_done = true; shutdown_err = first }, w')

  unfoldable pub shutdown : Context → HttpRuntime W × W → HttpRuntime W × W × Option Err
  unfolding begin_shutdown shutdown_once
  shutdown ctx (r, w) =
      let (r', w') = shutdown_once ctx (begin_shutdown r, w) in (r', w', r'.shutdown_err)

  unfoldable pub startup : Context → HttpRuntime W × W → HttpRuntime W × W × Option Err
  unfolding shutdown mark_started
  startup ctx (r, w) =
      let (w₁, failed) = run_startup_hooks r.startup_hooks ctx w in
      elim failed [
        | some error ↦
            let (r', w₂, rollback) = shutdown ctx (r, w₁) in
            (r', w₂, some (join_rollback error rollback))
        | none ↦ (record r { health = mark_started r.health }, w₁, none)
      ]
