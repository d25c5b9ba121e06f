-- ===== src/Server/GrpcRuntime.antt =====
-- GRPCRuntime of go/server/grpc_runtime.go. The gRPC server, its health service and the listener are
-- outside: they are effects on the state `W` of the process. A call is one step, and Start is two,
-- before and behind Serve, between which other calls run. A listener is its address.
pub mod Steps
pub mod Assembly
pub mod Lifecycle
pub mod Application
use dense_cloud.Prelude.{
  str_eq, if◌then◌else◌, String, Bool, true, false, not, Option, none, some, List,
}
use dense_cloud.Golang.Errors.{Err, text, joined, is_server_stopped, Result, ok, err}
use dense_cloud.Golang.Contexts.{Context, background, second}
use dense_cloud.Server.Hooks.{Hook, run_startup_hooks, run_shutdown_hooks}
use dense_cloud.Server.HttpRuntime.Lifecycle.{join_rollback}

-- `set_serving_status service serving`, Shutdown of the health service, Stop and
-- GracefulStop of the server, and Close of the listener.
pub record GrpcEffects (W : Type 0) : Type 0 where
  pub set_serving_status : String → Bool → W → W
  pub health_shutdown : W → W
  pub server_stop : W → W
  pub server_graceful_stop : W → W
  pub close_listener : W → W

-- `has_health` is false when the health service is disabled; `hooks_done` is shutdownHooksOnce.
pub record GrpcRuntime (W : Type 0) : Type 0 where
  pub has_health : Bool
  pub service_name : String
  pub address : String
  pub listener : Option String
  pub serve_attempt : Bool
  pub hooks_done : Bool
  pub shutdown_error : Option Err
  pub shutting_down : Bool
  pub startup_hooks : List (Hook W)
  pub shutdown_hooks : List (Hook W)

-- GRPCRuntimeConfig; `listener` is the address of the given listener.
pub record GrpcRuntimeConfig (W : Type 0) : Type 0 where
  pub service_name : String
  pub address : String
  pub listener : Option String
  pub disable_health_service : Bool
  pub startup_hooks : List (Hook W)
  pub shutdown_hooks : List (Hook W)

abbrev pub text_or : String → String → String
text_or default s = if str_eq s "" then default else s

abbrev pub listener_or : String → Option String → String
listener_or address none = address
listener_or address (some bound) = bound

-- errors.Join of two errors that may be nil. The join of one error alone, which reads and matches as
-- that error, is not told from it.
abbrev pub join_errors : Option Err → Option Err → Option Err
join_errors error none = error
join_errors none (some second) = some second
join_errors (some first) (some second) = some (joined first second)

abbrev pub is_stopped : Option Err → Bool
is_stopped none = false
is_stopped (some error) = is_server_stopped error

module _ {W : Type 0} (effects : GrpcEffects W) where
  unfoldable pub set_serving : Bool → GrpcRuntime W → W → W
  set_serving serving r w =
      if not r.has_health
      then w
      else (let w₁ = effects.set_serving_status "" serving w in
          if str_eq r.service_name ""
          then w₁
          else effects.set_serving_status r.service_name serving w₁)

  unfoldable pub new_grpc_runtime : GrpcRuntimeConfig W → W → GrpcRuntime W × W
  new_grpc_runtime cfg w =
      let runtime : GrpcRuntime W = record {
        has_health = not cfg.disable_health_service;
        service_name = text_or "dense-service" cfg.service_name;
        address = listener_or (text_or ":9090" cfg.address) cfg.listener;
        listener = cfg.listener;
        serve_attempt = false;
        hooks_done = false;
        shutdown_error = none;
        shutting_down = false;
        startup_hooks = cfg.startup_hooks;
        shutdown_hooks = cfg.shutdown_hooks;
      } in
      (runtime, set_serving false runtime w)

  -- markShuttingDownLocked, which is what failHealth does under the lock.
  unfoldable pub mark_shutting_down_locked : GrpcRuntime W × W → GrpcRuntime W × W
  mark_shutting_down_locked (r, w) =
      (record r { shutting_down = true }, if r.has_health then effects.health_shutdown w else w)

  -- runShutdownHooks
  unfoldable pub run_hooks_once : Context → GrpcRuntime W × W → GrpcRuntime W × W × Option Err
  run_hooks_once ctx (r, w) =
      if r.hooks_done
      then (r, w, r.shutdown_error)
      else (let (w₁, first) = run_shutdown_hooks r.shutdown_hooks ctx w r.shutdown_error in
          (record r { hooks_done = true; shutdown_error = first }, w₁, first))

  -- What a startup hook's error leads to.
  unfoldable pub roll_back : Context → Err → GrpcRuntime W × W → GrpcRuntime W × W × Option Err
  roll_back ctx error s =
      let (r, w, rollback) = run_hooks_once ctx (mark_shutting_down_locked s) in
      (r, w, some (join_rollback error rollback))

  unfoldable pub grpc_startup : Context → GrpcRuntime W × W → GrpcRuntime W × W × Option Err
  grpc_startup ctx (r, w) =
      if r.shutting_down
      then (r, w, some (text "grpc runtime is shutting down"))
      else (let (w₁, failed) = run_startup_hooks r.startup_hooks ctx w in
          elim failed [
            | some error ↦ roll_back ctx error (r, w₁)
            | none ↦ (r, set_serving true r w₁, none)
          ])

  -- `listened` is what net.Listen answers.
  unfoldable pub bind : Result String → GrpcRuntime W → GrpcRuntime W × Option Err
  bind (err e) r = (r, some e)
  bind (ok address) r = (record r { listener = some address; address = address }, none)

  unfoldable pub prepare_listener : Result String → GrpcRuntime W → GrpcRuntime W × Option Err
  prepare_listener listened r =
      if r.serve_attempt
      then (r, some (text "grpc runtime already started"))
      else (let r₁ : GrpcRuntime W = record r { serve_attempt = true } in
          elim r₁.listener [
            | some address ↦ (record r₁ { address = address }, none)
            | none ↦ bind listened r₁
          ])

  abbrev pub close_on_error : GrpcRuntime W × W × Option Err → GrpcRuntime W × W × Option Err
  close_on_error (r, w, none) = (r, w, none)
  close_on_error (r, w, some e) = (r, effects.close_listener w, some e)

  -- Start up to Serve, which follows when the error is nil.
  unfoldable pub begin_serving : Result String → GrpcRuntime W × W → GrpcRuntime W × W × Option Err
  begin_serving listened (r, w) =
      let (r₁, failed) = prepare_listener listened r in
      elim failed [
        | some e ↦ (r₁, w, some e)
        | none ↦ close_on_error (grpc_startup background (r₁, w))
      ]

  -- Start behind Serve, which has returned `served`.
  unfoldable pub end_serving : Option Err → GrpcRuntime W × W → GrpcRuntime W × W × Option Err
  end_serving served (r, w) =
      if is_stopped served
      then (r, w, none)
      else (let (r₁, w₁, second) =
            run_hooks_once background (mark_shutting_down_locked (r, effects.close_listener w)) in
          (r₁, w₁, join_errors served second))

  unfoldable pub grpc_stop : GrpcRuntime W × W → GrpcRuntime W × W
  grpc_stop s =
      let (r, w) = mark_shutting_down_locked s in
      let (r₁, w₁, ignored) = run_hooks_once background (r, effects.server_stop w) in (r₁, w₁)

  -- `ctx` is context.Background() for nil; `waited` is the error of the context if it is done before the server's GracefulStop returns.
  unfoldable pub grpc_graceful_stop :
      Context → Option Err → GrpcRuntime W × W → GrpcRuntime W × W × Option Err
  grpc_graceful_stop ctx waited s =
      let (r, w₀) = mark_shutting_down_locked s in
      let w = effects.server_graceful_stop w₀ in
      elim waited [
        | none ↦ run_hooks_once ctx (r, w)
        | some error ↦
            let (r₁, w₁, second) = run_hooks_once ctx (r, effects.server_stop w) in
            (r₁, w₁, some (join_rollback error second))
      ]
