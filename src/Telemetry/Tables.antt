-- ===== src/Telemetry/Tables.antt =====
-- The tables of RED metrics that HTTPMetrics and GRPCMetrics of go/telemetry both keep, under keys of
-- their own, and the locked part of `observe` and ObserveRPC. Counters are whole numbers.
use dense_cloud.Prelude.{
  if◌then◌else◌, Eq, get_or, alter, get_or-alter, count_up, get_or-count_up, ℕ, suc, ◌≡◌, refl, ap,
  ◌∙◌, Bool, ◌&&◌, List, [], ◌∷◌, arith,
}
use dense_cloud.Telemetry.Histogram.{
  DurationMetricValue, new_duration_metric_value, observe, cumulative_counts, observe_all,
  expected_counts, IsAscending, observe_all-counts,
}

pub record RedTables (K D : Type 0) : Type 0 where
  pub requests : List (K × ℕ)
  pub errors : List (K × ℕ)
  pub durations : List (D × DurationMetricValue)

-- A completed request, as it is observed.
pub record Observation (K D : Type 0) : Type 0 where
  pub key : K
  pub duration_key : D
  pub failed : Bool
  pub duration : ℕ

module _ {K D : Type 0} where
  abbrev pub no_requests : RedTables K D
  no_requests = record { requests = []; errors = []; durations = [] }

module _ {K D : Type 0} ⦃e : Eq K⦄ ⦃f : Eq D⦄ where
  unfoldable pub observe_in : List ℕ → Observation K D → RedTables K D → RedTables K D
  observe_in bounds o tables = record {
    requests = count_up ⦃e = e⦄ o.key tables.requests;
    errors = if o.failed then count_up ⦃e = e⦄ o.key tables.errors else tables.errors;
    durations =
        alter ⦃e = f⦄ (new_duration_metric_value bounds) (observe bounds o.duration) o.duration_key
          tables.durations;
  }

  -- The tables behind a log, the last request first.
  unfoldable pub observe_log : List ℕ → List (Observation K D) → RedTables K D
  unfolding observe_in
  observe_log bounds [] = no_requests
  observe_log bounds (o ∷ log) = observe_in bounds o (observe_log bounds log)

  -- What a log says: the requests of a key, those of them that failed, and the durations of a key.
  abbrev pub request_count : K → List (Observation K D) → ℕ
  request_count key [] = 0
  request_count key (o ∷ log) =
      let rest = request_count key log in if e.same o.key key then suc rest else rest

  abbrev pub failure_count : K → List (Observation K D) → ℕ
  failure_count key [] = 0
  failure_count key (o ∷ log) =
      let rest = failure_count key log in if o.failed && e.same o.key key then suc rest else rest

  abbrev pub durations_of : D → List (Observation K D) → List ℕ
  durations_of key [] = []
  durations_of key (o ∷ log) =
      let rest = durations_of key log in
      if f.same o.duration_key key then o.duration ∷ rest else rest

  pub observe_log-requests :
      (bounds : List ℕ) (log : List (Observation K D)) (key : K)
      → (get_or ⦃e = e⦄ 0 key (observe_log bounds log).requests ≡ request_count key log)
        × (get_or ⦃e = e⦄ 0 key (observe_log bounds log).errors ≡ failure_count key log)
  unfolding observe_log observe_in get_or
  observe_log-requests bounds [] key = (refl, refl)
  observe_log-requests bounds (o ∷ log) key =
      let (requests, errors) = observe_log-requests bounds log key in
      let tables = observe_log bounds log in
      (
        ground (arith, requests, get_or-count_up ⦃e = e⦄ o.key key tables.requests),
        ground (arith, errors, get_or-count_up ⦃e = e⦄ o.key key tables.errors),
      )

  pub observe_log-durations :
      (bounds : List ℕ) (log : List (Observation K D)) (key : D)
      → get_or ⦃e = f⦄ (new_duration_metric_value bounds) key (observe_log bounds log).durations
        ≡ observe_all bounds (durations_of key log)
  unfolding observe_log observe_in get_or observe_all
  observe_log-durations bounds [] key = refl
  observe_log-durations bounds (o ∷ log) key =
      let tables = observe_log bounds log in
      ground (
        arith,
        observe_log-durations bounds log key,
        get_or-alter ⦃e = f⦄ (new_duration_metric_value bounds) (observe bounds o.duration)
            o.duration_key key tables.durations,
      )

  -- The histogram that is rendered of a key, the count for each bound and for +Inf.
  unfoldable pub rendered_counts : List ℕ → D → RedTables K D → List ℕ
  rendered_counts bounds key tables =
      cumulative_counts 0
        (get_or ⦃e = f⦄ (new_duration_metric_value bounds) key tables.durations).buckets

  pub observe_log-rendered :
      (bounds : List ℕ) (log : List (Observation K D)) (key : D)
      → IsAscending bounds
      → rendered_counts bounds key (observe_log bounds log)
        ≡ expected_counts bounds (durations_of key log)
  unfolding rendered_counts
  observe_log-rendered bounds log key a =
      ap (λ (v : DurationMetricValue). cumulative_counts 0 v.buckets)
        (observe_log-durations bounds log key)
      ∙ (observe_all-counts bounds (durations_of key log) a).0
