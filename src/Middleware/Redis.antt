-- ===== src/Middleware/Redis.antt =====
-- The distributed limiter of go/middleware/ratelimit_redis.go: its settings, its breaker and
-- `AllowKey`. Redis is outside: what `script.Run(...).Int()` answers is an argument, `none` for an
-- error, and so are the answers of ParseURL and Ping, and the clock readings. The in-memory
-- fallback is any keyed limiter. The script itself is in Redis/Script.
pub mod Breaker
pub mod Recovery
pub mod Degraded
pub mod Script
pub mod ScriptBound
use dense_cloud.Prelude.{
  ◌==◌, str_eq, if◌then◌else◌, ℤ, pos, pos_part, sub_ℕ, ◌*ℤ◌, ltb_ℤ, leb_ℤ, ℕ, suc, ◌+◌, ◌-◌, ◌/◌,
  String, Bool, true, false, not, ◌&&◌, Option, none, some, List, [], ◌∷◌,
}
use dense_cloud.Golang.Errors.{Err, Result, ok, err}
use dense_cloud.Golang.Contexts.{Duration, second, seconds}
use dense_cloud.Middleware.Partitioned.{
  PartitionedRateLimiter, positive_or, new_partitioned_rate_limiter, or_global,
}

-- `KeyedRateLimiter`: a limiter of state `F` answers for a key.
abbrev pub KeyedRateLimiter : Type 0 → Type 0
KeyedRateLimiter F = String → F → F × Bool

pub record RedisRateLimiterConfig : Type 0 where
  pub redis_url : String
  pub redis_password : String
  pub redis_db : ℤ
  pub redis_tls : Bool
  pub requests_per_second : ℤ
  pub burst : ℤ
  pub key_ttl : Duration
  pub failure_threshold : ℤ
  pub reset_timeout : Duration

pub record RedisRateLimiter (F : Type 0) : Type 0 where
  pub fallback : F
  pub key_prefix : String
  pub max_tokens : ℤ
  pub refill_rate : ℤ
  pub key_ttl_seconds : ℤ
  pub failures : ℕ
  pub last_failure : ℕ
  pub circuit_open : Bool
  pub threshold : ℤ
  pub reset_timeout : Duration

-- The fields of redis.Options that the code sets; `tls` holds MinVersion.
pub record Options : Type 0 where
  pub password : String
  pub db : ℤ
  pub tls : Option ℕ

-- tls.VersionTLS12
abbrev pub version_tls12 : ℕ
version_tls12 = 771

abbrev pub at_least_tls12 : ℕ → ℕ
at_least_tls12 version = if version == 0 then version_tls12 else version

abbrev pub with_tls : Option ℕ → Option ℕ
with_tls none = some version_tls12
with_tls (some version) = some (at_least_tls12 version)

-- `parsed` is the answer of redis.ParseURL.
unfoldable pub redis_client_options : Result Options → RedisRateLimiterConfig → Result Options
redis_client_options (err e) cfg = err e
redis_client_options (ok opts) cfg = ok record {
  password = if str_eq cfg.redis_password "" then opts.password else cfg.redis_password;
  db = cfg.redis_db;
  tls = if cfg.redis_tls then with_tls opts.tls else opts.tls;
}

-- The threshold, the reset timeout, and the keys' time to live in whole seconds, rounded up.
unfoldable pub normalize_redis_rate_limiter_settings : RedisRateLimiterConfig → ℤ × Duration × ℤ
normalize_redis_rate_limiter_settings cfg = (
  positive_or (pos 3) cfg.failure_threshold,
  positive_or (seconds 30) cfg.reset_timeout,
  pos ((pos_part (positive_or (seconds 3600) cfg.key_ttl) + second - 1) / second),
)

-- `ping` is the error of the first Ping.
unfoldable pub new_redis_rate_limiter :
    Result Options
    → Option Err
    → RedisRateLimiterConfig
    → ℕ
    → ℕ
    → Result (RedisRateLimiter PartitionedRateLimiter)
new_redis_rate_limiter parsed ping cfg now created = elim (redis_client_options parsed cfg) [
  | err e ↦ err e
  | ok opts ↦ elim ping [
    | some e ↦ err e
    | none ↦
        let (threshold, reset_timeout, key_ttl_seconds) =
          normalize_redis_rate_limiter_settings cfg in
        ok record {
          fallback =
              new_partitioned_rate_limiter cfg.requests_per_second cfg.burst
                (key_ttl_seconds *ℤ seconds 1) now created;
          key_prefix = "ratelimit:";
          max_tokens = cfg.burst;
          refill_rate = cfg.requests_per_second;
          key_ttl_seconds = key_ttl_seconds;
          failures = 0;
          last_failure = 0;
          circuit_open = false;
          threshold = threshold;
          reset_timeout = reset_timeout;
        }
  ]
]

pub data KeyedLimiter : Type 0 where
  distributed : RedisRateLimiter PartitionedRateLimiter → KeyedLimiter
  in_memory : PartitionedRateLimiter → KeyedLimiter

-- `trimmed` is strings.TrimSpace of the URL.
unfoldable pub new_redis_or_partitioned_rate_limiter :
    String → Result Options → Option Err → RedisRateLimiterConfig → Duration → ℕ → ℕ → KeyedLimiter
new_redis_or_partitioned_rate_limiter trimmed parsed ping cfg entry_ttl now created =
    let local =
      new_partitioned_rate_limiter cfg.requests_per_second cfg.burst entry_ttl now created in
    if str_eq trimmed ""
    then in_memory local
    else elim (new_redis_rate_limiter parsed ping cfg now created) [
      | err e ↦ in_memory local
      | ok limiter ↦ distributed limiter
    ]

-- A call to AllowKey: the reading of isCircuitOpen, that of recordFailure, and what Redis would answer.
pub record RedisCall : Type 0 where
  pub now : ℕ
  pub failed_at : ℕ
  pub key : String
  pub reply : Option ℤ

module _ {F : Type 0} where
  unfoldable pub is_circuit_open : ℕ → RedisRateLimiter F → Bool
  is_circuit_open now rl =
      if not rl.circuit_open
      then false
      else if ltb_ℤ rl.reset_timeout (sub_ℕ now rl.last_failure)
      then false
      else true

  unfoldable pub record_failure : ℕ → RedisRateLimiter F → RedisRateLimiter F
  record_failure now rl =
      let failures = suc rl.failures in
      record rl {
        failures = failures;
        last_failure = now;
        circuit_open = if leb_ℤ rl.threshold (pos failures) then true else rl.circuit_open;
      }

  unfoldable pub record_success : RedisRateLimiter F → RedisRateLimiter F
  record_success rl = record rl { failures = 0; circuit_open = false }

  abbrev pub ask_fallback :
      KeyedRateLimiter F → String → RedisRateLimiter F → RedisRateLimiter F × Bool
  ask_fallback fallback_allow_key key rl =
      let (fallback, allowed) = fallback_allow_key key rl.fallback in
      (record rl { fallback = fallback }, allowed)

  -- What follows the answer of Redis; `now` is the reading of recordFailure.
  unfoldable pub on_reply :
      KeyedRateLimiter F → ℕ → String → RedisRateLimiter F → Option ℤ → RedisRateLimiter F × Bool
  on_reply fallback_allow_key now key rl none =
      ask_fallback fallback_allow_key key (record_failure now rl)
  on_reply fallback_allow_key now key rl (some result) =
      (record_success rl, leb_ℤ result (pos 1) && leb_ℤ (pos 1) result)

  unfoldable pub redis_allow_key :
      KeyedRateLimiter F → RedisCall → RedisRateLimiter F → RedisRateLimiter F × Bool
  redis_allow_key fallback_allow_key call rl =
      if is_circuit_open call.now rl
      then ask_fallback fallback_allow_key (or_global call.key) rl
      else on_reply fallback_allow_key call.failed_at (or_global call.key) rl call.reply

  unfoldable pub redis_allow_keys :
      KeyedRateLimiter F → List RedisCall → RedisRateLimiter F → RedisRateLimiter F
  redis_allow_keys fallback_allow_key [] rl = rl
  redis_allow_keys fallback_allow_key (call ∷ calls) rl =
      redis_allow_keys fallback_allow_key calls (redis_allow_key fallback_allow_key call rl).0
