-- ===== src/Telemetry/Otel.antt =====
-- go/telemetry/otel.go. Outside is the OpenTelemetry SDK: `sdk` makes an exporter and a resource, and
-- shuts a tracer provider down; providers and propagators stand as numbers. Log lines are left out.
pub mod Restored
use dense_cloud.Prelude.{
  ◌==◌, str_eq, if◌then◌else◌, ℤ, pos, leb_ℤ, ℕ, String, Bool, true, false, not, ◌&&◌, Option, none,
  some, List, [], ◌∷◌,
}
use dense_cloud.Golang.Strings.{trim_space}
use dense_cloud.Golang.Errors.{Err, text, wrapped, Result, ok, err}
use dense_cloud.Golang.Contexts.{Context, background, with_timeout, Duration, seconds}

-- The rate is in millionths.
pub record OTelConfig : Type 0 where
  pub service_name : String
  pub service_version : String
  pub deployment_environment : String
  pub endpoint : String
  pub enabled : Bool
  pub insecure : Bool
  pub sampling_rate : ℤ
  pub batch_timeout : Duration

-- DefaultOTelConfig
abbrev pub default_otel_config : OTelConfig
default_otel_config = record {
  service_name = "dense-service";
  service_version = "0.0.0";
  deployment_environment = "";
  endpoint = "localhost:4317";
  enabled = false;
  insecure = false;
  sampling_rate = pos 1000000;
  batch_timeout = seconds 5;
}

pub data Sampler : Type 0 where
  always_sample never_sample : Sampler
  trace_id_ratio_based : ℤ → Sampler

-- The package variables of otel, and the providers that have been shut down.
pub record Globals : Type 0 where
  pub tracer_provider : ℕ
  pub propagator : ℕ
  pub shut_down : List ℕ

-- `shutdown_done` says whether shutdownOnce has run.
pub record OTelProvider : Type 0 where
  pub provider : ℕ
  pub config : OTelConfig
  pub previous_provider : ℕ
  pub previous_propagator : ℕ
  pub shutdown_done : Bool
  pub shutdown_err : Option Err

-- `new_provider` is of a config's exporter, resource and sampler. `split` is the host of
-- net.SplitHostPort, `none` for an error; `trim_brackets` is strings.Trim with "[]".
pub record Sdk : Type 0 where
  pub new_exporter : String → Bool → Result ℕ
  pub new_resource : List (String × String) → Result ℕ
  pub new_provider : ℕ → ℕ → Sampler → Duration → ℕ
  pub trace_context_and_baggage : ℕ
  pub shutdown_provider : ℕ → Context → Option Err
  pub split : String → Option String
  pub trim_brackets : String → String
  pub equal_fold : String → String → Bool
  pub is_loopback_ip : String → Bool

unfoldable pub sampler_of : ℤ → Sampler
sampler_of rate =
    if leb_ℤ (pos 1000000) rate
    then always_sample
    else if leb_ℤ rate (pos 0)
    then never_sample
    else trace_id_ratio_based rate

unfoldable pub resource_attributes : OTelConfig → List (String × String)
resource_attributes cfg =
    let env = trim_space cfg.deployment_environment in
    ("service.name", cfg.service_name)
    ∷ ("service.version", cfg.service_version)
    ∷ (if str_eq env "" then [] else ("deployment.environment", env) ∷ [])

module _ (sdk : Sdk) where
  unfoldable pub is_loopback_otlp_endpoint : String → Bool
  is_loopback_otlp_endpoint endpoint =
      let given = trim_space endpoint in
      let host = sdk.trim_brackets (elim (sdk.split given) [ none ↦ given | some h ↦ h ]) in
      if sdk.equal_fold host "localhost" then true else sdk.is_loopback_ip host

  -- The provider of a config that is enabled and allowed, which becomes the global one.
  unfoldable pub install : OTelConfig → ℕ → Globals → Globals × OTelProvider
  install cfg provider globals = (
    record globals { tracer_provider = provider; propagator = sdk.trace_context_and_baggage },
    record {
      provider = provider;
      config = cfg;
      previous_provider = globals.tracer_provider;
      previous_propagator = globals.propagator;
      shutdown_done = false;
      shutdown_err = none;
    },
  )

  -- The exporter and the resource, in this order.
  unfoldable pub make_provider : OTelConfig → Result ℕ
  unfolding sampler_of resource_attributes
  make_provider cfg = elim (sdk.new_exporter cfg.endpoint cfg.insecure) [
    | err e ↦ err (wrapped "failed to create OTLP exporter" e)
    | ok exporter ↦ elim (sdk.new_resource (resource_attributes cfg)) [
      | err e ↦ err (wrapped "failed to create resource" e)
      | ok resource ↦
          ok (sdk.new_provider exporter resource (sampler_of cfg.sampling_rate) cfg.batch_timeout)
    ]
  ]

  -- InitOTelTracer; the provider is `none` for a config that is not enabled.
  unfoldable pub init_otel_tracer : OTelConfig → Globals → Globals × Result (Option OTelProvider)
  unfolding is_loopback_otlp_endpoint make_provider install
  init_otel_tracer cfg globals =
      if not cfg.enabled
      then (globals, ok none)
      else if cfg.insecure && not (is_loopback_otlp_endpoint cfg.endpoint)
      then (globals, err (text "insecure OTLP transport is only allowed for loopback endpoints"))
      else elim (make_provider cfg) [
        | err e ↦ (globals, err e)
        | ok provider ↦
            let (installed, p) = install cfg provider globals in (installed, ok (some p))
      ]

  -- The body of shutdownOnce.Do.
  unfoldable pub otel_shutdown_once : Context → Globals → OTelProvider → Globals × OTelProvider
  otel_shutdown_once ctx globals p =
      let down = record globals { shut_down = p.provider ∷ globals.shut_down } in
      (
        if globals.tracer_provider == p.provider
            then record down {
              tracer_provider = p.previous_provider;
              propagator = p.previous_propagator;
            }
            else down,
        record p { shutdown_done = true; shutdown_err = sdk.shutdown_provider p.provider ctx },
      )

  -- Shutdown; `none` is a nil *OTelProvider.
  unfoldable pub otel_shutdown :
      Context → Globals → Option OTelProvider → Globals × Option OTelProvider × Option Err
  unfolding otel_shutdown_once
  otel_shutdown ctx globals none = (globals, none, none)
  otel_shutdown ctx globals (some p) =
      if p.shutdown_done
      then (globals, some p, p.shutdown_err)
      else let (globals₁, p₁) = otel_shutdown_once ctx globals p in
        (globals₁, some p₁, p₁.shutdown_err)

  -- ShutdownWithTimeout
  unfoldable pub shutdown_with_timeout :
      Duration → Globals → Option OTelProvider → Globals × Option OTelProvider × Option Err
  shutdown_with_timeout timeout globals p =
      otel_shutdown (with_timeout background timeout) globals p
