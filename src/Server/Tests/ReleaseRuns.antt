-- ===== src/Server/Tests/ReleaseRuns.antt =====
-- Runs of the goroutines of health checks, and the theorem on their end at one.
use dense_cloud.Golang.Errors.{canceled}
use dense_cloud.Prelude.{◌≡◌, refl, ◌≢◌, true, none, some, arith}
use dense_cloud.Golang.Contexts.{seconds}
use dense_cloud.Server.Health.Execution.{
  returned, released, HealthCheckExecution, new_execution, start_or_join, store_result, probe,
  return, Reach, here, step,
}
use dense_cloud.Server.Health.Release.{goroutine_alone, goroutine_alone-released}

-- Two probes share a call, whose check has failed.
abbrev failed_call : HealthCheckExecution
failed_call =
    store_result 0 (returned (some canceled))
      (start_or_join 8 (seconds 3) (start_or_join 7 (seconds 2) new_execution).0).0

failed_call-Reach : Reach new_execution failed_call
unfolding new_execution start_or_join store_result
failed_call-Reach =
    step (step (step here (probe 7 (seconds 2))) (probe 8 (seconds 3)))
      (return 0 (returned (some canceled)) (omega arith) refl)

goroutine_alone-released_example :
    Reach new_execution (goroutine_alone 3 0 (returned none) failed_call)
    × (((goroutine_alone 3 0 (returned none) failed_call).calls 0).stage ≡ released)
    × (((goroutine_alone 3 0 (returned none) failed_call).calls 0).done ≡ true)
    × (((goroutine_alone 3 0 (returned none) failed_call).calls 0).ctx_err ≢ none)
    × ((goroutine_alone 3 0 (returned none) failed_call).current ≡ none)
    × ((start_or_join 9 (seconds 1) (goroutine_alone 3 0 (returned none) failed_call)).1 ≡ 1)
unfolding new_execution start_or_join store_result
goroutine_alone-released_example =
    goroutine_alone-released failed_call 0 (returned none) 9 (seconds 1) failed_call-Reach
      (omega arith) refl
