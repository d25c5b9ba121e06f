-- ===== src/Telemetry/HttpMetrics/Order.antt =====
-- The order of the lines that renderPrometheus of go/telemetry/metrics.go writes.
use mathlib.Core.List.{Permᴰ}
use dense_cloud.Prelude.{str_eq, String, ◌≡◌, refl, true, false, not, arith, eq_iff}
use dense_cloud.Telemetry.Keys.{
  RequestMetricKey, DurationMetricKey, request_key_same, request_key_eq, duration_key_same,
  duration_key_eq,
}
use dense_cloud.Telemetry.Text.{Formats, str_ltb}
use dense_cloud.Telemetry.Order.{str_ltb_trans, str_ltb_total}
use dense_cloud.Telemetry.Lines.{IsMap, counter_lines-Perm, histogram_lines-Perm}
use dense_cloud.Telemetry.HttpMetrics.{HttpMetrics, HttpRecorded}
use dense_cloud.Telemetry.HttpMetrics.Render.{
  request_key_less, duration_key_less, request_key_labels, duration_key_labels,
  render_prometheus_own, render_prometheus,
}

less_if_different : (s t : String) → str_eq s t ≡ false → str_ltb t s ≡ not (str_ltb s t)
less_if_different s t h = str_ltb_total s t (λ e. ground (arith, h, e, eq_iff s t))

request_key_less_trans :
    (a b c : RequestMetricKey)
    → request_key_less a b ≡ true
    → request_key_less b c ≡ true
    → request_key_less a c ≡ true
unfolding request_key_less
request_key_less_trans a b c h k = ground (
  arith,
  h,
  k,
  eq_iff a.method b.method,
  eq_iff b.method c.method,
  eq_iff a.method c.method,
  eq_iff a.path b.path,
  eq_iff b.path c.path,
  eq_iff a.path c.path,
  str_ltb_trans a.method b.method c.method,
  less_if_different a.method b.method,
  less_if_different b.method c.method,
  str_ltb_trans a.path b.path c.path,
  less_if_different a.path b.path,
  less_if_different b.path c.path,
  str_ltb_trans a.status_class b.status_class c.status_class,
)

request_key_less_total :
    (a b : RequestMetricKey)
    → request_key_same a b ≡ false
    → request_key_less b a ≡ not (request_key_less a b)
unfolding request_key_less
request_key_less_total a b h = ground (
  arith,
  h,
  eq_iff a.method b.method,
  eq_iff b.method a.method,
  eq_iff a.path b.path,
  eq_iff b.path a.path,
  less_if_different a.method b.method,
  less_if_different a.path b.path,
  less_if_different a.status_class b.status_class,
)

duration_key_less_trans :
    (a b c : DurationMetricKey)
    → duration_key_less a b ≡ true
    → duration_key_less b c ≡ true
    → duration_key_less a c ≡ true
unfolding duration_key_less
duration_key_less_trans a b c h k = ground (
  arith,
  h,
  k,
  eq_iff a.method b.method,
  eq_iff b.method c.method,
  eq_iff a.method c.method,
  str_ltb_trans a.method b.method c.method,
  less_if_different a.method b.method,
  less_if_different b.method c.method,
  str_ltb_trans a.path b.path c.path,
)

duration_key_less_total :
    (a b : DurationMetricKey)
    → duration_key_same a b ≡ false
    → duration_key_less b a ≡ not (duration_key_less a b)
unfolding duration_key_less
duration_key_less_total a b h = ground (
  arith,
  h,
  eq_iff a.method b.method,
  eq_iff b.method a.method,
  less_if_different a.method b.method,
  less_if_different a.path b.path,
)

-- Two orders of the entries of the same maps give the same text: what /metrics shows does not depend on
-- the order in which Go ranges over a map.
pub render_prometheus-Perm :
    (f : Formats) (m : HttpMetrics) (recorded shuffled : HttpRecorded)
    → recorded.in_flight ≡ shuffled.in_flight
    → IsMap ⦃e = request_key_eq⦄ recorded.tables.requests
    → IsMap ⦃e = request_key_eq⦄ recorded.tables.errors
    → IsMap ⦃e = duration_key_eq⦄ recorded.tables.durations
    → Permᴰ recorded.tables.requests shuffled.tables.requests
    → Permᴰ recorded.tables.errors shuffled.tables.errors
    → Permᴰ recorded.tables.durations shuffled.tables.durations
    → render_prometheus f m recorded ≡ render_prometheus f m shuffled
unfolding render_prometheus render_prometheus_own
render_prometheus-Perm f m recorded shuffled same h h' h'' p p' p'' =
    let requests =
      counter_lines-Perm ⦃e = request_key_eq⦄ request_key_less request_key_less_trans
        request_key_less_total f "densecloud_http_requests_total"
        (request_key_labels m.service_name) h p in
    let errors =
      counter_lines-Perm ⦃e = request_key_eq⦄ request_key_less request_key_less_trans
        request_key_less_total f "densecloud_http_request_errors_total"
        (request_key_labels m.service_name) h' p' in
    let durations =
      histogram_lines-Perm ⦃e = duration_key_eq⦄ duration_key_less duration_key_less_trans
        duration_key_less_total f "densecloud_http_request_duration_seconds"
        (duration_key_labels m.service_name) m.buckets h'' p'' in
    rw (same, requests, errors, durations) refl
