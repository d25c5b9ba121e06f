-- ===== src/Middleware/CircuitBreaker.antt =====
-- The configuration of the circuit breakers, go/middleware/circuitbreaker.go. The breaker itself,
-- sony/gobreaker, is outside: `Breaker` holds the two sides of its documented `Execute`, which
-- rejects a request at once or runs it and reports whether it succeeded.
use dense_cloud.Prelude.{
  leb, ◌==◌, str_eq, if◌then◌else◌, Bool-cases, pos, pos_part, leb_ℤ, ℕ, ◌≤◌, String, ◌<>◌, ◌≡◌,
  ◌≢◌, inl, inr, Bool, false, Option, arith, eq_iff,
}
use dense_cloud.Golang.Contexts.{Duration, seconds}

pub record CircuitBreakerConfig : Type 0 where
  pub name : String
  pub max_requests : ℕ
  pub interval : Duration
  pub timeout : Duration
  pub ready_to_trip : ℕ

abbrev pub default_circuit_breaker_config : CircuitBreakerConfig
default_circuit_breaker_config = record {
  name = "http";
  max_requests = 1;
  interval = seconds 60;
  timeout = seconds 30;
  ready_to_trip = 5;
}

unfoldable pub normalize_circuit_breaker_config :
    CircuitBreakerConfig → String → CircuitBreakerConfig
normalize_circuit_breaker_config cfg fallback_name =
    let defaults = default_circuit_breaker_config in
    record {
      name = if str_eq cfg.name "" then fallback_name else cfg.name;
      max_requests = if cfg.max_requests == 0 then defaults.max_requests else cfg.max_requests;
      interval = if leb_ℤ cfg.interval (pos 0) then defaults.interval else cfg.interval;
      timeout = if leb_ℤ cfg.timeout (pos 0) then defaults.timeout else cfg.timeout;
      ready_to_trip = if cfg.ready_to_trip == 0 then defaults.ready_to_trip else cfg.ready_to_trip;
    }

-- `ReadyToTrip` of the settings, on the breaker's consecutive failures.
unfoldable pub trips : CircuitBreakerConfig → ℕ → Bool
trips cfg consecutive_failures = leb cfg.ready_to_trip consecutive_failures

-- gobreaker.Settings, without the callback that logs the changes of the state.
pub record BreakerSettings : Type 0 where
  pub name : String
  pub max_requests : ℕ
  pub interval : Duration
  pub timeout : Duration
  pub ready_to_trip : ℕ → Bool

abbrev pub settings_of : String → CircuitBreakerConfig → BreakerSettings
settings_of name cfg = record {
  name = name;
  max_requests = cfg.max_requests;
  interval = cfg.interval;
  timeout = cfg.timeout;
  ready_to_trip = trips cfg;
}

-- The settings that CircuitBreaker gives to gobreaker.
unfoldable pub http_breaker_settings : CircuitBreakerConfig → BreakerSettings
http_breaker_settings given =
    let cfg = normalize_circuit_breaker_config given "http" in settings_of cfg.name cfg

-- newGRPCCircuitBreaker: the settings that it gives to gobreaker.
unfoldable pub grpc_breaker_settings : CircuitBreakerConfig → BreakerSettings
grpc_breaker_settings given =
    let cfg = normalize_circuit_breaker_config given "grpc" in settings_of ("grpc:" <> cfg.name) cfg

-- A breaker in the state `S`: `accept` answers with the error of a rejection, and `report` counts
-- a request that ended, `true` for one without an error.
pub record Breaker (S E : Type 0) : Type 0 where
  pub accept : S → S × Option E
  pub report : Bool → S → S

-- Behind the normalisation, for any configuration and any fallback name that is not empty, the name
-- is not empty, both periods are positive, and the breaker does not trip without a failure.
pub normalize_circuit_breaker_config-defaults :
    (cfg : CircuitBreakerConfig) (fallback_name : String)
    → fallback_name ≢ ""
    → let normal = normalize_circuit_breaker_config cfg fallback_name in
      (normal.name ≢ "")
      × (1 ≤ normal.max_requests)
      × (1 ≤ pos_part normal.interval)
      × (1 ≤ pos_part normal.timeout)
      × (trips normal 0 ≡ false)
unfolding normalize_circuit_breaker_config trips
normalize_circuit_breaker_config-defaults cfg fallback_name h = (
  elim (Bool-cases (str_eq cfg.name "")) [
    | inl q ↦ ground (arith, eq_iff cfg.name "")
    | inr q ↦ ground (arith, eq_iff cfg.name "")
  ],
  ground arith,
  ground arith,
  ground arith,
  ground arith,
)
