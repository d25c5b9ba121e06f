-- ===== src/Server/Tests/RunnerRuns.antt =====
-- Runs of the runner and of the HTTP runtime, and their theorems at them.
use dense_cloud.Prelude.{
  ℕ, ◌+◌, String, ◌≡◌, refl, ◌↔◌, true, false, Option, none, some, List, [], ◌∷◌, ◌++◌,
}
use dense_cloud.Golang.Errors.{Err, deadline_exceeded, text, ok}
use dense_cloud.Golang.Contexts.{background, seconds}
use dense_cloud.Server.Hooks.{Action, Hook, run_startup_hooks, run_shutdown_hooks, errors}
use dense_cloud.Server.Runner.Defs.{
  GrpcServer, HttpServer, shutdown, Runner, Wakeup, merge_run_and_shutdown_error, Await,
  shutdown_http, shutdown_grpc, stop_grpc, start_servers, shutdown_context, run_blocking,
}
use dense_cloud.Server.Runner.Order.{shutdown_actions, shutdown-outcome}
use dense_cloud.Server.Runner.Blocking.{run_blocking-none}
use dense_cloud.Server.HttpRuntime.Once.{Call, run, to_number, Counts, run-shutdown_count}
use dense_cloud.Server.HttpRuntime.Lifecycle.{HttpRuntime}
use dense_cloud.Server.HttpRuntime.Application.{
  run_main, IsStopped, run_main-IsStopped, Stopped, run_main-Stopped,
}
use dense_cloud.Server.Health.Registry.{new_health_registry}

-- The state is the list of what has happened.
abbrev Log : Type 0
Log = List String

abbrev logs : String → Option Err → Action Log
logs name error ctx w = (w ++ name ∷ [], error)

abbrev log_runner : Runner Log
log_runner = record {
  http = record { start = λ w. w ++ "listen" ∷ []; shutdown = logs "http" none };
  opts = record {
    http_server = none;
    grpc_server = some (
        GrpcServer.graceful (λ w. w) (λ w. w ++ "stop" ∷ [])
          (logs "drain" (some deadline_exceeded)));
    enable_grpc = true;
    shutdown_timeout = seconds 5;
    startup_hooks = some (logs "init" none) ∷ none ∷ [];
    pre_shutdown_hooks = some (logs "unready" none) ∷ [];
    shutdown_hooks = some (logs "close" (some (text "late"))) ∷ [];
  };
}

shutdown-outcome_example :
    dense_cloud.Server.Runner.Defs.shutdown log_runner background []
    ≡ ("unready" ∷ "http" ∷ "drain" ∷ "stop" ∷ "close" ∷ [], some deadline_exceeded)
unfolding shutdown_http shutdown_grpc
shutdown-outcome_example = shutdown-outcome log_runner background []

abbrev by_signal : Await Log
by_signal ctx w = (w, Wakeup.signal)

run_blocking_run : run_blocking by_signal log_runner none [] ≡ (
  "init" ∷ "listen" ∷ "unready" ∷ "http" ∷ "drain" ∷ "stop" ∷ "close" ∷ [],
  some deadline_exceeded,
)
unfolding run_blocking shutdown_http shutdown_grpc stop_grpc run_shutdown_hooks
    merge_run_and_shutdown_error dense_cloud.Server.Runner.Defs.shutdown
run_blocking_run = refl

run_blocking-none_example :
    ((run_blocking by_signal log_runner none []).1 ≡ none)
    ↔ ((run_startup_hooks log_runner.opts.startup_hooks background []).1 ≡ none)
      × Unit {0}
      × (errors (shutdown_actions log_runner) (shutdown_context log_runner) ("init" ∷ "listen" ∷ [])
          ≡ [])
unfolding run_startup_hooks start_servers
run_blocking-none_example = run_blocking-none by_signal log_runner none []

-- A runtime with one shutdown hook, over a count of its runs.
abbrev counted : List (Hook ℕ)
counted = some (λ ctx w. (w + 1, none)) ∷ []

abbrev fresh_runtime : HttpRuntime ℕ
fresh_runtime = record {
  health = new_health_registry [];
  startup_hooks = [];
  shutdown_hooks = counted;
  shutdown_done = false;
  shutdown_err = none;
}

counted-Counts : Counts (λ w. w) [] counted
unfolding run_startup_hooks run_shutdown_hooks
counted-Counts = record { keeps = λ ctx w. refl; counts = λ ctx w first. refl }

run-shutdown_count_example :
    (run
      (Call.shutdown_call background
        ∷ Call.startup_call background
        ∷ Call.shutdown_call background
        ∷ [])
      (fresh_runtime, 4)).1
    ≡ 4
      + to_number
          (run
            (Call.shutdown_call background
              ∷ Call.startup_call background
              ∷ Call.shutdown_call background
              ∷ [])
            (fresh_runtime, 4)).0.shutdown_done
run-shutdown_count_example =
    run-shutdown_count (λ w. w) [] counted counted-Counts
      (Call.shutdown_call background
        ∷ Call.startup_call background
        ∷ Call.shutdown_call background
        ∷ [])
      fresh_runtime 4 (refl, refl) refl

abbrev quiet_server : HttpServer ℕ
quiet_server = record { start = λ w. w; shutdown = λ ctx w. (w, none) }

run_main-Stopped_example :
    (s : HttpRuntime ℕ × ℕ) × (error : Option Err) × (run_main
        (λ ctx w. (w, Wakeup.signal))
        quiet_server
        (fresh_runtime, 4)
      ≡ ok (s, error))
    × Stopped (λ w. w) (λ ctx w. (w, Wakeup.signal)) quiet_server 5 s
run_main-Stopped_example =
    run_main-Stopped (λ w. w) (λ ctx w. (w, Wakeup.signal)) quiet_server [] counted counted-Counts
      (record {
        start_keeps = λ w. refl;
        shutdown_keeps = λ ctx w. refl;
        await_keeps = λ ctx w. refl;
      })
      fresh_runtime 4 (refl, refl) refl

-- The runtime of the application itself, which has no hooks.
abbrev bare_runtime : HttpRuntime ℕ
bare_runtime = record fresh_runtime { shutdown_hooks = [] }

run_main-IsStopped_example :
    (end : HttpRuntime ℕ × ℕ) × (error : Option Err) × (run_main
        (λ ctx w. (w, Wakeup.signal))
        quiet_server
        (bare_runtime, 4)
      ≡ ok (end, error))
    × IsStopped (λ ctx w. (w, Wakeup.signal)) quiet_server end
run_main-IsStopped_example =
    run_main-IsStopped (λ ctx w. (w, Wakeup.signal)) quiet_server (bare_runtime, 4)
