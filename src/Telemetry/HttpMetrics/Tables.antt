-- ===== src/Telemetry/HttpMetrics/Tables.antt =====
-- The tables of HTTPMetrics in go/telemetry/metrics.go behind completed requests.
use dense_cloud.Prelude.{
  leb, str_eq, if◌then◌else◌, all, pos, get_or, ℕ, suc, ◌/◌, String, ◌<>◌, ◌≡◌, refl, ◌∙◌, Bool,
  ◌&&◌, List, [], ◌∷◌, arith,
}
use dense_cloud.Telemetry.Histogram.{expected_counts, IsAscending}
use dense_cloud.Telemetry.Keys.{
  RequestMetricKey, DurationMetricKey, request_key_eq, duration_key_eq,
}
use dense_cloud.Telemetry.Tables.{
  Observation, observe_log, request_count, failure_count, durations_of, observe_log-requests,
  rendered_counts, observe_log-rendered,
}
use dense_cloud.Telemetry.HttpMetrics.{
  HttpMetricsConfig, HttpMetrics, HttpRecorded, buckets_or_default, new_http_metrics,
  http_observation, http_observe,
}

-- The arguments of `observe`.
pub record CompletedRequest : Type 0 where
  pub method : String
  pub path : String
  pub status_code : ℕ
  pub duration : ℕ

module _ (decimal : ℕ → String) where
  abbrev pub observations :
      List CompletedRequest → List (Observation RequestMetricKey DurationMetricKey)
  observations [] = []
  observations (q ∷ requests) =
      http_observation decimal q.method q.path q.status_code q.duration ∷ observations requests

  -- What is recorded behind the requests, the last one first.
  unfoldable pub http_observe_all :
      HttpMetrics → List CompletedRequest → HttpRecorded → HttpRecorded
  http_observe_all m [] recorded = recorded
  http_observe_all m (q ∷ requests) recorded =
      http_observe m (http_observation decimal q.method q.path q.status_code q.duration)
        (http_observe_all m requests recorded)

  -- The requests of a key, and those of them from 400 on.
  abbrev pub in_class : RequestMetricKey → CompletedRequest → Bool
  in_class key q =
      str_eq q.method key.method
      && str_eq q.path key.path
      && str_eq (decimal (q.status_code / 100) <> "xx") key.status_class

  abbrev pub count_in_class : RequestMetricKey → List CompletedRequest → ℕ
  count_in_class key [] = 0
  count_in_class key (q ∷ requests) =
      let rest = count_in_class key requests in if in_class key q then suc rest else rest

  abbrev pub count_errors : RequestMetricKey → List CompletedRequest → ℕ
  count_errors key [] = 0
  count_errors key (q ∷ requests) =
      let rest = count_errors key requests in
      if leb 400 q.status_code && in_class key q then suc rest else rest

  observations-count :
      (requests : List CompletedRequest) (key : RequestMetricKey)
      → (request_count ⦃e = request_key_eq⦄ key (observations requests)
          ≡ count_in_class key requests)
        × (failure_count ⦃e = request_key_eq⦄ key (observations requests)
            ≡ count_errors key requests)
  unfolding http_observation
  observations-count [] key = (refl, refl)
  observations-count (q ∷ requests) key =
      let (all, failed) = observations-count requests key in
      (ground (arith, all), ground (arith, failed))

  http_observe_all-log :
      (cfg : HttpMetricsConfig) (requests : List CompletedRequest)
      → let (m, recorded) = new_http_metrics cfg in
        http_observe_all m requests recorded ≡ record {
          in_flight = pos 0;
          tables =
              observe_log ⦃e = request_key_eq⦄ ⦃f = duration_key_eq⦄ m.buckets
                (observations requests);
        }
  unfolding http_observe_all new_http_metrics observe_log http_observe
  http_observe_all-log cfg [] = refl
  http_observe_all-log cfg (q ∷ requests) = rw (http_observe_all-log cfg requests) refl

  -- For ascending buckets, new metrics behind any completed requests have: for a method, a path and a
  -- status class as many requests, and as many errors, as there were of that method, path and class,
  -- and of these with a status from 400 on; and for a method and a path a histogram that shows, for each
  -- bound, how many requests took at most that long, and for +Inf how many there were.
  pub http_observe_all-counts :
      (cfg : HttpMetricsConfig) (requests : List CompletedRequest) (key : RequestMetricKey)
      (duration_key : DurationMetricKey)
      → IsAscending (buckets_or_default cfg.buckets)
      → let (m, recorded) = new_http_metrics cfg in
        let seen = http_observe_all m requests recorded in
        (get_or ⦃e = request_key_eq⦄ 0 key seen.tables.requests ≡ count_in_class key requests)
        × (get_or ⦃e = request_key_eq⦄ 0 key seen.tables.errors ≡ count_errors key requests)
        × (rendered_counts ⦃f = duration_key_eq⦄ m.buckets duration_key seen.tables
            ≡ expected_counts m.buckets
                (durations_of ⦃f = duration_key_eq⦄ duration_key (observations requests)))
  unfolding new_http_metrics
  http_observe_all-counts cfg requests key duration_key a =
      let bounds = buckets_or_default cfg.buckets in
      let log = observations requests in
      let (all, failed) = observations-count requests key in
      let (counted, errors) = observe_log-requests bounds log key in
      rw (http_observe_all-log cfg requests)
        (counted ∙ all, errors ∙ failed, observe_log-rendered bounds log duration_key a)
