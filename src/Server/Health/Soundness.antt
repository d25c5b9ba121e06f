-- ===== src/Server/Health/Soundness.antt =====
-- From the endpoint of go/server/health.go down to the executions: what a passed check means.
use dense_cloud.Prelude.{ℕ, ◌<◌, ◌≡◌, Option, some, List, [], ◌∷◌}
use dense_cloud.Golang.Contexts.{Context}
use dense_cloud.Server.Health.SingleFlight.{Observed}
use dense_cloud.Server.Health.Registry.{HealthCheckEntry, HealthRegistry}
use dense_cloud.Server.Health.Evaluate.{
  Executions, Scheduler, effective_timeout, join_execution, run_check,
}
use dense_cloud.Server.Health.Stores.{IsSound, AllReach, fn_or_zero}

module _ (scheduler : Scheduler) (sound : IsSound scheduler) where
  module _ (r : HealthRegistry) (ctx : Option Context) where
    -- The check of the entry, begun in this store, has passed: the call that the probe starts or
    -- joins there is, in the store in which the probe wakes, one whose check has returned nil before
    -- its deadline.
    abbrev pub Passes : Executions → HealthCheckEntry → Type 0
    Passes executions entry =
        (k : ℕ) × (entry.execution ≡ some k)
        × (let call = (join_execution (fn_or_zero entry.fn) k (effective_timeout r) executions).1 in
            let after = (run_check scheduler r ctx entry executions).0 in
            (call < (after k).next) × Observed ((after k).calls call))

    -- One check after the other has passed, each begun in the store that the one before has left.
    abbrev pub PassInTurn : Executions → List HealthCheckEntry → Executions → Type 0
    PassInTurn before [] after = after ≡ before
    PassInTurn before (entry ∷ entries) after =
        Passes before entry
        × AllReach before (run_check scheduler r ctx entry before).0
        × PassInTurn (run_check scheduler r ctx entry before).0 entries after
