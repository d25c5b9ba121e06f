-- ===== src/Server/HttpRuntime/Application.antt =====
-- The wiring of go/examples/minimal/main.go: a runner whose hooks are the methods of an HTTP runtime.
-- The HTTP server and the wait act on the application's state `W` alone.
use dense_cloud.Prelude.{
  pos, ℕ, ◌+◌, ◌≡◌, refl, sym, subst, inl, inr, true, false, Option, none, some, List, [], ◌∷◌,
  arith,
}
use dense_cloud.Golang.Errors.{Err, Result, ok, err}
use dense_cloud.Golang.Contexts.{Context, background, seconds}
use dense_cloud.Server.Hooks.{
  Action, Hook, run_startup_hooks, final_state, run_startup_hooks_single,
}
use dense_cloud.Server.Runner.Defs.{
  HttpServer, Options, Runner, Await, new_runner, shutdown_http, start_servers, run_blocking,
}
use dense_cloud.Server.HttpRuntime.Lifecycle.{
  startup as runtime_startup, shutdown as runtime_shutdown, HttpRuntime, begin_shutdown,
}
use dense_cloud.Server.Runner.Order.{shutdown_actions}
use dense_cloud.Server.HttpRuntime.Once.{to_number, Counts, Has, Balanced, startup-Balanced}
use dense_cloud.Server.Runner.Blocking.{run_blocking-final_state}

module _ {W : Type 0} where
  abbrev pub on_state : (W → W) → HttpRuntime W × W → HttpRuntime W × W
  on_state f (r, w) = (r, f w)

  -- runtime.Startup, runtime.BeginShutdown and runtime.Shutdown as hooks of a runner
  unfoldable pub startup_hook : Action (HttpRuntime W × W)
  startup_hook ctx s = let (r, w, error) = runtime_startup ctx s in ((r, w), error)

  unfoldable pub begin_shutdown_hook : Action (HttpRuntime W × W)
  begin_shutdown_hook ctx (r, w) = ((begin_shutdown r, w), none)

  unfoldable pub shutdown_hook : Action (HttpRuntime W × W)
  shutdown_hook ctx s = let (r, w, error) = runtime_shutdown ctx s in ((r, w), error)

  abbrev pub on_state_err : (Context → W → W × Option Err) → Action (HttpRuntime W × W)
  on_state_err f ctx (r, w) = ((r, (f ctx w).0), (f ctx w).1)

  -- The options that main builds around an HTTP server.
  unfoldable pub main_options : HttpServer W → Options (HttpRuntime W × W)
  main_options server = record {
    http_server =
        some (record { start = on_state server.start; shutdown = on_state_err server.shutdown });
    grpc_server = none;
    enable_grpc = false;
    shutdown_timeout = pos 0;
    startup_hooks = some startup_hook ∷ [];
    pre_shutdown_hooks = some begin_shutdown_hook ∷ [];
    shutdown_hooks = some shutdown_hook ∷ [];
  }

  abbrev pub on_await : Await W → Await (HttpRuntime W × W)
  on_await await ctx (r, w) = ((r, (await ctx w).0), (await ctx w).1)

  -- main, behind the construction of the runtime
  unfoldable pub run_main :
      Await W → HttpServer W → HttpRuntime W × W → Result ((HttpRuntime W × W) × Option Err)
  run_main await server s = elim (new_runner (main_options server)) [
    | err error ↦ err error
    | ok runner ↦ ok (run_blocking (on_await await) runner (some background) s)
  ]

  -- The runner of `run_main`.
  abbrev main_runner : HttpServer W → Runner (HttpRuntime W × W)
  main_runner server = record {
    http = record { start = on_state server.start; shutdown = on_state_err server.shutdown };
    opts = record (main_options server) { shutdown_timeout = seconds 30 };
  }

  run_main-run_blocking :
      (await : Await W) (server : HttpServer W) (s : HttpRuntime W × W)
      → run_main await server s
        ≡ ok (run_blocking (on_await await) (main_runner server) (some background) s)
  unfolding run_main new_runner main_options
  run_main-run_blocking await server s = refl

module _ {W : Type 0} (await : Await W) (server : HttpServer W) where
  abbrev pub IsStopped : HttpRuntime W × W → Type 0
  IsStopped s = (s.0.health.shutting_down ≡ true) × (s.0.shutdown_done ≡ true)

  shutdown-IsStopped :
      (s : HttpRuntime W × W) (ctx : Context)
      → IsStopped (final_state (shutdown_actions (main_runner server)) ctx s)
  unfolding main_options begin_shutdown_hook shutdown_http shutdown_hook begin_shutdown
      runtime_shutdown
  shutdown-IsStopped (r, w) ctx = ground arith

  -- However the application of go/examples/minimal ends, whatever the hooks of its runtime, and also
  -- without any, by a failed startup, a signal, a cancellation or a server error, `main` returns, with
  -- readiness refused and the runtime's shutdown done.
  pub run_main-IsStopped :
      (s : HttpRuntime W × W)
      → (end : HttpRuntime W × W) × (error : Option Err) × (run_main await server s
          ≡ ok (end, error))
        × IsStopped end
  run_main-IsStopped s =
      let ran = run_blocking (on_await await) (main_runner server) (some background) s in
      let stopped : IsStopped ran.0 =
        elim (run_blocking-final_state (on_await await) (main_runner server) (some background) s) [
          | inl (failed, e) ↦ subst IsStopped (sym e) (shutdown-IsStopped _ _)
          | inr (fine, e) ↦ subst IsStopped (sym e) (shutdown-IsStopped _ _)
        ] in
      (ran.0, ran.1, run_main-run_blocking await server s, stopped)

module _ {W : Type 0} (f : W → ℕ) (await : Await W) (server : HttpServer W) where
  -- Serving does not run the shutdown hooks.
  pub record Serves : Type 0 where
    pub start_keeps : (w : W) → f (server.start w) ≡ f w
    pub shutdown_keeps : (ctx : Context) (w : W) → f (server.shutdown ctx w).0 ≡ f w
    pub await_keeps : (ctx : Context) (w : W) → f (await ctx w).0 ≡ f w

  -- The application has been stopped, behind `n` runs of its shutdown hooks.
  abbrev pub Stopped : ℕ → HttpRuntime W × W → Type 0
  Stopped n s = (s.0.health.shutting_down ≡ true) × (s.0.shutdown_done ≡ true) × (f s.1 ≡ n)

  module _ (startup_hooks shutdown_hooks : List (Hook W))
      (c : Counts f startup_hooks shutdown_hooks) (q : Serves) where
    shutdown-Stopped :
        (r : HttpRuntime W) (w : W) (ctx : Context) (n : ℕ)
        → (r.shutdown_hooks ≡ shutdown_hooks) × (f w + 1 ≡ n + to_number r.shutdown_done)
        → Stopped n (final_state (shutdown_actions (main_runner server)) ctx (r, w))
    unfolding main_options begin_shutdown_hook shutdown_http shutdown_hook begin_shutdown
        runtime_shutdown
    shutdown-Stopped r w ctx n h =
        let w' = (server.shutdown ctx w).0 in
        ground (arith, q.shutdown_keeps ctx w, c.counts ctx w' r.shutdown_err)

    -- The state behind the startup hook of the runner.
    abbrev started_state : HttpRuntime W → W → HttpRuntime W × W
    started_state r w =
        (run_startup_hooks (main_runner server).opts.startup_hooks background (r, w)).0

    started_state-Balanced :
        (r : HttpRuntime W) (w : W)
        → Has f startup_hooks shutdown_hooks r
        → Balanced f startup_hooks shutdown_hooks (r, w) (started_state r w)
    unfolding main_options startup_hook
    started_state-Balanced r w h =
        subst (Balanced f startup_hooks shutdown_hooks (r, w))
          (sym (run_startup_hooks_single startup_hook background (r, w)))
          (startup-Balanced f startup_hooks shutdown_hooks c r w background h)

    -- An application that is wired as go/examples/minimal around a runtime with shutdown hooks of
    -- which `f` counts the runs: however it ends, by a failed startup, a signal, a cancellation or a
    -- server error, `main` returns with the shutdown hooks run exactly once and with readiness
    -- refused.
    pub run_main-Stopped :
        (r : HttpRuntime W) (w : W)
        → (r.startup_hooks ≡ startup_hooks) × (r.shutdown_hooks ≡ shutdown_hooks)
        → r.shutdown_done ≡ false
        → (s : HttpRuntime W × W) × (error : Option Err) × (run_main await server (r, w)
            ≡ ok (s, error))
          × Stopped (f w + 1) s
    unfolding start_servers main_options
    run_main-Stopped r w h fresh =
        let s = started_state r w in
        let b = started_state-Balanced r w h in
        let s' = start_servers (main_runner server) s in
        (
          (run_blocking (on_await await) (main_runner server) (some background) (r, w)).0,
          (run_blocking (on_await await) (main_runner server) (some background) (r, w)).1,
          run_main-run_blocking await server (r, w),
          elim (run_blocking-final_state (on_await await) (main_runner server) (some background)
              (r, w)) [
                | inl (failed, e) ↦
                    subst (Stopped (f w + 1)) (sym e)
                      (shutdown-Stopped s.0 s.1 _ (f w + 1) (b.0.1, ground arith))
                | inr (fine, e) ↦ subst (Stopped (f w + 1)) (sym e) (
                    shutdown-Stopped s.0 (await background (server.start s.1)).0 _ (f w + 1) (
                      b.0.1,
                      ground
                          (arith, q.start_keeps s.1, q.await_keeps background (server.start s.1)),
                    ))
              ],
        )
