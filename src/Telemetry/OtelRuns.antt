-- ===== src/Telemetry/OtelRuns.antt =====
-- Runs of go/telemetry/otel.go, and its theorems at them.
use dense_cloud.Prelude.{
  str_eq, if◌then◌else◌, pos_part, ◌≡◌, refl, true, none, some, List, [], ◌∷◌,
}
use dense_cloud.Golang.Errors.{text, ok, err}
use dense_cloud.Golang.Contexts.{background}
use dense_cloud.Telemetry.Otel.{
  OTelConfig, default_otel_config, Globals, OTelProvider, Sdk, install, otel_shutdown,
}
use dense_cloud.Telemetry.Otel.Restored.{nest, nest-restores, otel_shutdown-out_of_order}

-- An SDK whose exporter fails for an empty endpoint, and whose providers are numbered by the timeout.
abbrev small_sdk : Sdk
small_sdk = record {
  new_exporter = λ endpoint insecure. if str_eq endpoint "" then err (text "no endpoint") else ok 1;
  new_resource = λ attributes. ok 2;
  new_provider = λ exporter resource sampler timeout. pos_part timeout;
  trace_context_and_baggage = 9;
  shutdown_provider = λ provider ctx. some (text "flush");
  split = λ endpoint. none;
  trim_brackets = λ host. host;
  equal_fold = str_eq;
  is_loopback_ip = λ host. str_eq host "::1";
}

abbrev at_start : Globals
at_start = record { tracer_provider = 0; propagator = 0; shut_down = [] }

abbrev enabled_config : OTelConfig
enabled_config = record default_otel_config { enabled = true; endpoint = "::1"; insecure = true }

abbrev exposed_config : OTelConfig
exposed_config = record enabled_config { endpoint = "collector:4317" }

abbrev three_configs : List OTelConfig
three_configs = enabled_config ∷ exposed_config ∷ enabled_config ∷ []

nest-restores_example :
    ((nest small_sdk background three_configs at_start).tracer_provider ≡ 0)
    × ((nest small_sdk background three_configs at_start).propagator ≡ 0)
nest-restores_example = nest-restores small_sdk background three_configs at_start

abbrev installed : Globals × OTelProvider
unfolding install
installed = install small_sdk enabled_config 5 at_start

otel_shutdown-out_of_order_example :
    let (globals₁, p) = install small_sdk enabled_config 5 at_start in
    let (globals₂, p') = install small_sdk enabled_config 6 globals₁ in
    let (globals₃, p₃, error) = otel_shutdown small_sdk background globals₂ (some p) in
    let (globals₄, p₄, error') = otel_shutdown small_sdk background globals₃ (some p') in
    (globals₄.tracer_provider ≡ 5) × (globals₄.shut_down ≡ 6 ∷ 5 ∷ [])
otel_shutdown-out_of_order_example =
    otel_shutdown-out_of_order small_sdk background enabled_config enabled_config 5 6 at_start refl
