-- ===== src/Telemetry/Histogram.antt =====
-- The duration histograms that `observe` of go/telemetry/metrics.go and ObserveRPC of
-- go/telemetry/grpc_metrics.go keep, and the cumulative counts that both render. Durations and upper
-- bounds are whole numbers of one unit, in place of float64.
use dense_cloud.Prelude.{
  leb, if◌then◌else◌, leb→le, Bool-cases, length, ℕ, zero, suc, ◌+◌, ◌≤◌, ◌≡◌, refl, ap, inl, inr,
  List, [], ◌∷◌, map, arith,
}

pub record DurationMetricValue : Type 0 where
  pub buckets : List ℕ
  pub sum : ℕ
  pub count : ℕ

abbrev pub zeros : List ℕ → List ℕ
zeros [] = 0 ∷ []
zeros (bound ∷ bounds) = 0 ∷ zeros bounds

-- `make([]uint64, len(m.buckets)+1)`
unfoldable pub new_duration_metric_value : List ℕ → DurationMetricValue
new_duration_metric_value bounds = record { buckets = zeros bounds; sum = 0; count = 0 }

-- The first bucket whose upper bound is at least the duration, else the last one.
unfoldable pub bucket_index : List ℕ → ℕ → ℕ
bucket_index [] duration = 0
bucket_index (bound ∷ bounds) duration =
    if leb duration bound then 0 else suc (bucket_index bounds duration)

-- `value.buckets[idx]++`
unfoldable pub increment : ℕ → List ℕ → List ℕ
increment index [] = []
increment zero (n ∷ rest) = suc n ∷ rest
increment (suc index) (n ∷ rest) = n ∷ increment index rest

unfoldable pub observe : List ℕ → ℕ → DurationMetricValue → DurationMetricValue
observe bounds duration value = record {
  buckets = increment (bucket_index bounds duration) value.buckets;
  sum = value.sum + duration;
  count = suc value.count;
}

-- The counts that are rendered, for each bound and then for +Inf.
unfoldable pub cumulative_counts : ℕ → List ℕ → List ℕ
cumulative_counts cumulative [] = []
cumulative_counts cumulative (n ∷ rest) = (cumulative + n) ∷ cumulative_counts (cumulative + n) rest

-- The durations that have been observed, the last one first.
unfoldable pub observe_all : List ℕ → List ℕ → DurationMetricValue
observe_all bounds [] = new_duration_metric_value bounds
observe_all bounds (duration ∷ earlier) = observe bounds duration (observe_all bounds earlier)

-- What a histogram is to show: how many durations are at most each bound, and how many there are.
abbrev pub count_at_most : ℕ → List ℕ → ℕ
count_at_most bound [] = 0
count_at_most bound (duration ∷ rest) =
    (if leb duration bound then 1 else 0) + count_at_most bound rest

abbrev pub expected_counts : List ℕ → List ℕ → List ℕ
expected_counts [] durations = length durations ∷ []
expected_counts (bound ∷ bounds) durations =
    count_at_most bound durations ∷ expected_counts bounds durations

abbrev pub AllAtLeast : ℕ → List ℕ → Type 0
AllAtLeast low [] = Unit
AllAtLeast low (bound ∷ bounds) = (low ≤ bound) × AllAtLeast low bounds

abbrev pub IsAscending : List ℕ → Type 0
IsAscending [] = Unit
IsAscending (bound ∷ bounds) = AllAtLeast bound bounds × IsAscending bounds

cumulative_counts-suc :
    (c : ℕ) (counts : List ℕ)
    → cumulative_counts (suc c) counts ≡ map suc (cumulative_counts c counts)
unfolding cumulative_counts
cumulative_counts-suc c [] = refl
cumulative_counts-suc c (n ∷ rest) =
    let e : suc c + n ≡ suc (c + n) = omega arith in
    rw e (ap (λ (t : List ℕ). suc (c + n) ∷ t) (cumulative_counts-suc (c + n) rest))

expected_counts-small :
    (bounds : List ℕ) (low duration : ℕ) (earlier : List ℕ)
    → duration ≤ low
    → AllAtLeast low bounds
    → expected_counts bounds (duration ∷ earlier) ≡ map suc (expected_counts bounds earlier)
expected_counts-small [] low duration earlier h a = refl
expected_counts-small (bound ∷ bounds) low duration earlier h a =
    ground (arith, expected_counts-small bounds low duration earlier h a.1)

increment-counts :
    (bounds : List ℕ) (counts : List ℕ) (c duration : ℕ) (earlier : List ℕ)
    → IsAscending bounds
    → cumulative_counts c counts ≡ expected_counts bounds earlier
    → cumulative_counts c (increment (bucket_index bounds duration) counts)
      ≡ expected_counts bounds (duration ∷ earlier)
unfolding cumulative_counts increment bucket_index
increment-counts [] [] c duration earlier a h = absurd (ground arith)
increment-counts [] (n ∷ []) c duration earlier a h = ground arith
increment-counts [] (n ∷ m ∷ rest) c duration earlier a h = absurd (ground arith)
increment-counts (bound ∷ bounds) [] c duration earlier a h = absurd (ground arith)
increment-counts (bound ∷ bounds) (n ∷ rest) c duration earlier a h =
    elim (Bool-cases (leb duration bound)) [
      | inl q ↦ ground (
        arith,
        q,
        cumulative_counts-suc (c + n) rest,
        expected_counts-small bounds bound duration earlier (leb→le duration bound q) a.0,
      )
      | inr q ↦ ground (arith, q, increment-counts bounds rest (c + n) duration earlier a.1)
    ]

new-counts : (bounds : List ℕ) → cumulative_counts 0 (zeros bounds) ≡ expected_counts bounds []
unfolding cumulative_counts
new-counts [] = refl
new-counts (bound ∷ bounds) = ground (arith, new-counts bounds)

-- For ascending upper bounds and any durations, the cumulative counts that are rendered are, for each
-- bound, the number of durations of at most that bound, and for +Inf the number of all; that is also
-- the rendered count.
pub observe_all-counts :
    (bounds durations : List ℕ)
    → IsAscending bounds
    → (cumulative_counts 0 (observe_all bounds durations).buckets
        ≡ expected_counts bounds durations)
      × ((observe_all bounds durations).count ≡ length durations)
unfolding observe_all observe new_duration_metric_value
observe_all-counts bounds [] a = (new-counts bounds, refl)
observe_all-counts bounds (duration ∷ earlier) a =
    let (counts, number) = observe_all-counts bounds earlier a in
    (
      increment-counts bounds (observe_all bounds earlier).buckets 0 duration earlier a counts,
      omega (arith, number),
    )
