-- ===== src/Server/GrpcRuntime/Application.antt =====
-- The wiring of go/examples/grpc_runtime/main.go: a runner that drives an HTTP runtime by its hooks and
-- a gRPC runtime as its gRPC server. The HTTP server and the wait act on the application's state `W`;
-- while the runner waits, `events` happen to the gRPC runtime, such as the end of Serve.
use dense_cloud.Prelude.{
  Bool-cases, Option-cases, pos, String, ◌≡◌, refl, sym, subst, inl, inr, true, false, Option, none,
  some, List, [], ◌∷◌, arith,
}
use dense_cloud.Golang.Errors.{Err, Result, ok, err}
use dense_cloud.Golang.Contexts.{Context, background, seconds}
use dense_cloud.Server.Hooks.{Action, final_state}
use dense_cloud.Server.Runner.Defs.{
  GrpcServer, graceful, HttpServer, Options, Runner, Await, new_runner, shutdown_http,
  shutdown_grpc, run_blocking,
}
use dense_cloud.Server.HttpRuntime.Lifecycle.{shutdown as runtime_shutdown, HttpRuntime}
use dense_cloud.Server.GrpcRuntime.{
  GrpcEffects, GrpcRuntime, GrpcRuntimeConfig, new_grpc_runtime, mark_shutting_down_locked,
  run_hooks_once, begin_serving, grpc_stop, grpc_graceful_stop,
}
use dense_cloud.Server.GrpcRuntime.Steps.{IsDown}
use dense_cloud.Server.GrpcRuntime.Lifecycle.{Event, grpc_run}
use dense_cloud.Server.HttpRuntime.Application.{startup_hook, begin_shutdown_hook, shutdown_hook}
use dense_cloud.Server.Runner.Order.{shutdown_actions}
use dense_cloud.Server.Runner.Blocking.{run_blocking-final_state}

-- The two runtimes and the rest of the process.
abbrev pub Node : Type 0 → Type 0
Node W = HttpRuntime W × GrpcRuntime W × W

module _ {W : Type 0} where
  abbrev on_http : Action (HttpRuntime W × W) → Action (Node W)
  on_http action ctx (h, g, w) = let ((h₁, w₁), error) = action ctx (h, w) in ((h₁, g, w₁), error)

  abbrev on_world : (W → W) → Node W → Node W
  on_world f (h, g, w) = (h, g, f w)

  abbrev on_world_err : (Context → W → W × Option Err) → Action (Node W)
  on_world_err f ctx (h, g, w) = ((h, g, (f ctx w).0), (f ctx w).1)

  -- Both runtimes have been shut down.
  abbrev pub AreDown : Node W → Type 0
  AreDown (h, g, w) = (h.health.shutting_down ≡ true) × (h.shutdown_done ≡ true) × IsDown g

module _ {W : Type 0} (effects : GrpcEffects W) (listened : Result String)
    (waited : Option Err) where
  -- The gRPC runtime as a GracefulGRPCServer. `listened` is what net.Listen answers, `waited` the error
  -- of the shutdown's context if it ends before GracefulStop of the server.
  unfoldable pub grpc_runtime_server : GrpcServer (Node W)
  grpc_runtime_server =
      graceful
        (λ s.
          let (h, g, w) = s in
          let (g₁, w₁, error) = begin_serving effects listened (g, w) in (h, g₁, w₁))
        (λ s. let (h, g, w) = s in let (g₁, w₁) = grpc_stop effects (g, w) in (h, g₁, w₁))
        (λ ctx s.
          let (h, g, w) = s in
          let (g₁, w₁, error) = grpc_graceful_stop effects ctx waited (g, w) in
          ((h, g₁, w₁), error))

  -- The options that main builds around an HTTP server.
  unfoldable pub grpc_main_options : HttpServer W → Options (Node W)
  unfolding startup_hook begin_shutdown_hook shutdown_hook
  grpc_main_options server = record {
    http_server =
        some (record { start = on_world server.start; shutdown = on_world_err server.shutdown });
    grpc_server = some grpc_runtime_server;
    enable_grpc = true;
    shutdown_timeout = pos 0;
    startup_hooks = some (on_http startup_hook) ∷ [];
    pre_shutdown_hooks = some (on_http begin_shutdown_hook) ∷ [];
    shutdown_hooks = some (on_http shutdown_hook) ∷ [];
  }

  abbrev grpc_main_config : GrpcRuntimeConfig W
  grpc_main_config = record {
    service_name = "dense-consumer";
    address = ":9090";
    listener = none;
    disable_health_service = false;
    startup_hooks = [];
    shutdown_hooks = [];
  }

  unfoldable pub grpc_await : Await W → List Event → Await (Node W)
  grpc_await await events ctx (h, g, w) =
      let (g₁, w₁) = grpc_run effects events (g, w) in
      let (w₂, wakeup) = await ctx w₁ in ((h, g₁, w₂), wakeup)

  -- main, for the HTTP runtime that it has made
  unfoldable pub run_grpc_main :
      Await W → List Event → HttpServer W → HttpRuntime W → W → Result (Node W × Option Err)
  unfolding new_grpc_runtime
  run_grpc_main await events server h w =
      let (g, w₁) = new_grpc_runtime effects grpc_main_config w in
      elim (new_runner (grpc_main_options server)) [
        | err error ↦ err error
        | ok runner ↦
            ok (run_blocking (grpc_await await events) runner (some background) (h, g, w₁))
      ]

  grpc_stop-IsDown : (g : GrpcRuntime W) (w : W) → IsDown (grpc_stop effects (g, w)).0
  unfolding grpc_stop mark_shutting_down_locked run_hooks_once
  grpc_stop-IsDown g w = ground arith

  grpc_graceful_stop-IsDown :
      (ctx : Context) (g : GrpcRuntime W) (w : W)
      → IsDown (grpc_graceful_stop effects ctx waited (g, w)).0
  unfolding grpc_graceful_stop mark_shutting_down_locked run_hooks_once
  grpc_graceful_stop-IsDown ctx g w = elim (Option-cases waited) [
    | inl q ↦ ground arith
    | inr (error, q) ↦ ground arith
  ]

  -- The runner of `run_grpc_main`.
  abbrev grpc_main_runner : HttpServer W → Runner (Node W)
  grpc_main_runner server = record {
    http = record { start = on_world server.start; shutdown = on_world_err server.shutdown };
    opts = record (grpc_main_options server) { shutdown_timeout = seconds 30 };
  }

  -- The gRPC runtime's part of the shutdown.
  shutdown_grpc-IsDown :
      (ctx : Context) (s : Node W) → IsDown (shutdown_grpc grpc_runtime_server ctx s).0.1
  unfolding shutdown_grpc grpc_runtime_server
  shutdown_grpc-IsDown ctx (h, g, w) =
      let (g₁, w₁, error) = grpc_graceful_stop effects ctx waited (g, w) in
      let down = grpc_graceful_stop-IsDown ctx g w in
      elim (Option-cases error) [
        | inl fine ↦ rw (fine, shutdown_grpc) down
        | inr (e, failed) ↦ rw (failed, shutdown_grpc) (grpc_stop-IsDown g₁ w₁)
      ]

  on_http_shutdown-AreDown :
      (ctx : Context) (s : Node W) → IsDown s.1 → AreDown (on_http shutdown_hook ctx s).0
  unfolding shutdown_hook runtime_shutdown
  on_http_shutdown-AreDown ctx (h, g, w) down = elim (Bool-cases h.shutdown_done) [
    | inl done ↦ ground (arith, down)
    | inr fresh ↦ ground (arith, down)
  ]

  shutdown-AreDown :
      (server : HttpServer W) (ctx : Context) (s : Node W)
      → AreDown (final_state (shutdown_actions (grpc_main_runner server)) ctx s)
  unfolding grpc_main_options
  shutdown-AreDown server ctx s =
      let s₁ = (on_http begin_shutdown_hook ctx s).0 in
      let s₂ = (shutdown_http (grpc_main_runner server).http ctx s₁).0 in
      let s₃ = (shutdown_grpc grpc_runtime_server ctx s₂).0 in
      on_http_shutdown-AreDown ctx s₃ (shutdown_grpc-IsDown ctx s₂)

  -- However the application of go/examples/grpc_runtime ends, by a failed startup, a signal, a
  -- cancellation or the end of a server, whatever happens to the gRPC runtime before, and whether
  -- GracefulStop is in time or not, `main` returns with both runtimes shut down: readiness is
  -- refused, and both have spent the once-guard of their shutdown hooks.
  pub run_grpc_main-AreDown :
      (await : Await W) (events : List Event) (server : HttpServer W) (h : HttpRuntime W) (w : W)
      → (s : Node W) × (error : Option Err) × (run_grpc_main await events server h w
          ≡ ok (s, error))
        × AreDown s
  unfolding run_grpc_main new_runner grpc_main_options
  run_grpc_main-AreDown await events server h w =
      let (g, w₁) = new_grpc_runtime effects grpc_main_config w in
      let runner = grpc_main_runner server in
      let (s, error) = run_blocking (grpc_await await events) runner (some background) (h, g, w₁) in
      (
        s,
        error,
        refl,
        elim (run_blocking-final_state (grpc_await await events) runner (some background)
            (h, g, w₁)) [
              | inl (failed, e) ↦ subst AreDown (sym e) (shutdown-AreDown server _ _)
              | inr (fine, e) ↦ subst AreDown (sym e) (shutdown-AreDown server _ _)
            ],
      )
