-- ===== src/Server/Runner/Defs.antt =====
-- The definitions of go/server/runner.go. net/http and the product's gRPC server are their effects
-- on the state `W`; the goroutines that serve are their start, and what ends the wait is `await`.
use dense_cloud.Prelude.{if◌then◌else◌, pos, ltb_ℤ, Bool, Option, none, some, List}
use dense_cloud.Golang.Errors.{Err, text, joined, is_canceled, is_server_closed, Result, ok, err}
use dense_cloud.Golang.Contexts.{
  Context, background, with_timeout, Duration, seconds, or_background,
}
use dense_cloud.Server.Hooks.{Action, Hook, first_error, run_startup_hooks, run_shutdown_hooks}

-- A gRPC server with Start and Stop, or also with GracefulStop.
pub data GrpcServer (W : Type 0) : Type 0 where
  plain : (start stop : W → W) → GrpcServer W
  graceful : (start stop : W → W) → (graceful_stop : Context → W → W × Option Err) → GrpcServer W

pub record HttpServer (W : Type 0) : Type 0 where
  pub start : W → W
  pub shutdown : Context → W → W × Option Err

pub record Options (W : Type 0) : Type 0 where
  pub http_server : Option (HttpServer W)
  pub grpc_server : Option (GrpcServer W)
  pub enable_grpc : Bool
  pub shutdown_timeout : Duration
  pub startup_hooks : List (Hook W)
  pub pre_shutdown_hooks : List (Hook W)
  pub shutdown_hooks : List (Hook W)

-- The options of a runner, with the HTTP server that NewRunner has found.
pub record Runner (W : Type 0) : Type 0 where
  pub http : HttpServer W
  pub opts : Options W

-- Which case ends the select of RunBlocking.
pub data Wakeup : Type 0 where
  ctx_done : Err → Wakeup
  signal : Wakeup
  server_exit : Option Err → Wakeup

-- An error other than http.ErrServerClosed.
abbrev pub unless_closed : Option Err → Option Err
unless_closed none = none
unless_closed (some error) = if is_server_closed error then none else some error

unfoldable pub merge_run_and_shutdown_error : Option Err → Option Err → Option Err
unfolding is_canceled
merge_run_and_shutdown_error none shutdown_err = shutdown_err
merge_run_and_shutdown_error (some run_err) none =
    if is_canceled run_err then none else some run_err
merge_run_and_shutdown_error (some run_err) (some shutdown_err) =
    if is_canceled run_err then some shutdown_err else some (joined run_err shutdown_err)

unfoldable pub run_error : Wakeup → Option Err
run_error (ctx_done error) = some error
run_error signal = none
run_error (server_exit error) = unless_closed error

-- What ends the wait, and the state then.
abbrev pub Await : Type 0 → Type 0
Await W = Context → W → W × Wakeup

module _ {W : Type 0} where
  unfoldable pub new_runner : Options W → Result (Runner W)
  new_runner opts = elim opts.http_server [
    | none ↦ err (text "http server is required")
    | some http ↦ ok (record {
      http = http;
      opts =
          if ltb_ℤ (pos 0) opts.shutdown_timeout
          then opts
          else record opts { shutdown_timeout = seconds 30 };
    })
  ]

  unfoldable pub shutdown_http : HttpServer W → Action W
  shutdown_http http ctx w = ((http.shutdown ctx w).0, unless_closed (http.shutdown ctx w).1)

  unfoldable pub shutdown_grpc : GrpcServer W → Action W
  shutdown_grpc (plain start stop) ctx w = (stop w, none)
  shutdown_grpc (graceful start stop graceful_stop) ctx w = elim ((graceful_stop ctx w).1) [
    | none ↦ ((graceful_stop ctx w).0, none)
    | some error ↦ (stop (graceful_stop ctx w).0, some error)
  ]

  -- r.opts.EnableGRPC && r.opts.GRPCServer != nil
  abbrev pub enabled_grpc : Options W → Option (GrpcServer W)
  enabled_grpc opts = if opts.enable_grpc then opts.grpc_server else none

  -- One step of Shutdown, on the state and `firstErr`.
  abbrev pub and_then : Action W → Context → W × Option Err → W × Option Err
  and_then action ctx (w, first) = ((action ctx w).0, first_error first (action ctx w).1)

  unfoldable pub stop_grpc : Option (GrpcServer W) → Context → W × Option Err → W × Option Err
  stop_grpc none ctx s = s
  stop_grpc (some grpc) ctx s = and_then (shutdown_grpc grpc) ctx s

  unfoldable pub shutdown : Runner W → Context → W → W × Option Err
  shutdown r ctx w =
      let s₁ = run_shutdown_hooks r.opts.pre_shutdown_hooks ctx w none in
      let s₂ = and_then (shutdown_http r.http) ctx s₁ in
      let s₃ = stop_grpc (enabled_grpc r.opts) ctx s₂ in
      run_shutdown_hooks r.opts.shutdown_hooks ctx s₃.0 s₃.1

  abbrev pub start_grpc : GrpcServer W → W → W
  start_grpc (plain start stop) w = start w
  start_grpc (graceful start stop graceful_stop) w = start w

  unfoldable pub start_servers : Runner W → W → W
  start_servers r w = elim (enabled_grpc r.opts) [
    | none ↦ r.http.start w
    | some grpc ↦ start_grpc grpc (r.http.start w)
  ]

  abbrev pub shutdown_context : Runner W → Context
  shutdown_context r = with_timeout background r.opts.shutdown_timeout

  abbrev pub join_after : Err → W × Option Err → W × Option Err
  join_after error (w, none) = (w, some error)
  join_after error (w, some shutdown_err) = (w, some (joined error shutdown_err))

  unfoldable pub run_blocking : Await W → Runner W → Option Context → W → W × Option Err
  unfolding run_startup_hooks start_servers run_error
  run_blocking await r ctx w =
      let (w₁, failed) = run_startup_hooks r.opts.startup_hooks (or_background ctx) w in
      elim failed [
        | some error ↦ join_after error (shutdown r (shutdown_context r) w₁)
        | none ↦
            let (w₂, wakeup) = await (or_background ctx) (start_servers r w₁) in
            let (w₃, shutdown_err) = shutdown r (shutdown_context r) w₂ in
            (w₃, merge_run_and_shutdown_error (run_error wakeup) shutdown_err)
      ]
