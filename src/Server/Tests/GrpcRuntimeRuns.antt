-- ===== src/Server/Tests/GrpcRuntimeRuns.antt =====
-- Runs of the gRPC runtime and of the extension registry, and their theorems at them.
use dense_cloud.Prelude.{
  is_some, ℕ, ◌+◌, ◌≡◌, refl, ◌⊎◌, true, false, Option, none, some, List, [], ◌∷◌,
}
use dense_cloud.Golang.Errors.{Err, canceled, text, ok}
use dense_cloud.Golang.Contexts.{background}
use dense_cloud.Server.Hooks.{Hook, run_startup_hooks, run_shutdown_hooks}
use dense_cloud.Server.GrpcRuntime.{GrpcEffects, GrpcRuntime, begin_serving}
use dense_cloud.Server.GrpcRuntime.Steps.{as_number, IsDown, GrpcCounts}
use dense_cloud.Server.GrpcRuntime.Lifecycle.{
  Event, begins, ends, stops, stops_gracefully, grpc_step, grpc_run, grpc_run-shutdown_count,
  grpc_run-IsDown,
}
use dense_cloud.Server.Runner.Defs.{Wakeup}
use dense_cloud.Server.HttpRuntime.Lifecycle.{HttpRuntime}
use dense_cloud.Server.Health.Registry.{new_health_registry}
use dense_cloud.Server.GrpcRuntime.Application.{Node, AreDown, run_grpc_main, run_grpc_main-AreDown}

-- The state counts the runs of the one shutdown hook.
abbrev silent : GrpcEffects ℕ
silent = record {
  set_serving_status = λ service serving n. n;
  health_shutdown = λ n. n;
  server_stop = λ n. n;
  server_graceful_stop = λ n. n;
  close_listener = λ n. n;
}

abbrev counting_hooks : List (Hook ℕ)
counting_hooks = some (λ ctx n. (n + 1, none)) ∷ []

abbrev grpc_runtime : GrpcRuntime ℕ
grpc_runtime = record {
  has_health = true;
  service_name = "items";
  address = ":9090";
  listener = none;
  serve_attempt = false;
  hooks_done = false;
  shutdown_error = none;
  shutting_down = false;
  startup_hooks = [];
  shutdown_hooks = counting_hooks;
}

silent-GrpcCounts : GrpcCounts (λ n. n) silent [] counting_hooks
unfolding run_startup_hooks run_shutdown_hooks
silent-GrpcCounts = record {
  keeps = λ ctx w. refl;
  counts = λ ctx w first. refl;
  status_keeps = λ service serving w. refl;
  health_keeps = λ w. refl;
  stop_keeps = λ w. refl;
  graceful_keeps = λ w. refl;
  close_keeps = λ w. refl;
}

abbrev start_and_stop : List Event
start_and_stop = begins (ok "[::]:9090") ∷ stops ∷ ends none ∷ stops_gracefully background none ∷ []

grpc_run-shutdown_count_example :
    (grpc_run silent start_and_stop (grpc_runtime, 4)).1
    ≡ 4 + as_number (grpc_run silent start_and_stop (grpc_runtime, 4)).0.hooks_done
grpc_run-shutdown_count_example =
    grpc_run-shutdown_count (λ n. n) silent [] counting_hooks silent-GrpcCounts start_and_stop
      grpc_runtime 4 refl refl refl

grpc_run-IsDown_example :
    let (r₁, w₁) = grpc_step silent stops (grpc_runtime, 4) in
    let (r₂, w₂) = grpc_run silent (begins (ok "[::]:9090") ∷ []) (r₁, w₁) in
    let (r₃, w₃, error) = begin_serving silent (ok "[::]:9090") (r₂, w₂) in
    IsDown r₁ × (w₁ ≡ 5) × (w₂ ≡ 5) × (is_some error ≡ true) × ((w₃ ≡ w₂) ⊎ (w₃ ≡ w₂)) × IsDown r₃
grpc_run-IsDown_example =
    grpc_run-IsDown (λ n. n) silent [] counting_hooks silent-GrpcCounts stops
      (begins (ok "[::]:9090") ∷ []) (ok "[::]:9090") grpc_runtime 4 refl refl refl tt

abbrev http_side : HttpRuntime ℕ
http_side = record {
  health = new_health_registry [];
  startup_hooks = [];
  shutdown_hooks = counting_hooks;
  shutdown_done = false;
  shutdown_err = none;
}

-- Serve ends with an error while the runner waits, and GracefulStop is too late.
run_grpc_main-AreDown_example :
    (s : Node ℕ) × (error : Option Err) × (run_grpc_main silent
        (ok "[::]:9090")
        (some canceled)
        (λ ctx n. (n, Wakeup.server_exit (some (text "broken"))))
        (ends (some (text "broken")) ∷ [])
        (record { start = λ n. n; shutdown = λ ctx n. (n, none) })
        http_side
        4
      ≡ ok (s, error))
    × AreDown s
run_grpc_main-AreDown_example =
    run_grpc_main-AreDown silent (ok "[::]:9090") (some canceled)
      (λ ctx n. (n, Wakeup.server_exit (some (text "broken")))) (ends (some (text "broken")) ∷ [])
      (record { start = λ n. n; shutdown = λ ctx n. (n, none) }) http_side 4
