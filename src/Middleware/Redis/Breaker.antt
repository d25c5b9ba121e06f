-- ===== src/Middleware/Redis/Breaker.antt =====
-- The settings and the breaker of the distributed limiter of go/middleware/ratelimit_redis.go.
use dense_cloud.Prelude.{
  length, ℤ, pos, pos_part, sub_ℕ, ◌≤ℤ◌, ltb_ℤ, leb_ℤ, suc, ◌+◌, ◌*◌, ◌≤◌, ◌<◌, ◌≡◌, ap, ◌⊎◌, inl,
  inr, true, false, ◌&&◌, none, some, List, [], ◌∷◌, arith,
}
use dense_cloud.Golang.Contexts.{second}
use dense_cloud.Middleware.Partitioned.{or_global}
use dense_cloud.Middleware.Redis.{
  KeyedRateLimiter, RedisRateLimiterConfig, RedisRateLimiter, normalize_redis_rate_limiter_settings,
  RedisCall, is_circuit_open, record_failure, record_success, on_reply, redis_allow_key,
  redis_allow_keys,
}

-- Every configuration gives a positive threshold, a positive reset timeout, and a time to live in
-- seconds that is positive, covers the configured one, and exceeds it by less than a second.
pub normalize_redis_rate_limiter_settings-bounds :
    (cfg : RedisRateLimiterConfig)
    → let (threshold, reset_timeout, ttl) = normalize_redis_rate_limiter_settings cfg in
      (1 ≤ pos_part threshold)
      × (1 ≤ pos_part reset_timeout)
      × (1 ≤ pos_part ttl)
      × (pos_part cfg.key_ttl ≤ pos_part ttl * second)
      × (1 ≤ pos_part cfg.key_ttl → pos_part ttl * second < pos_part cfg.key_ttl + second)
unfolding normalize_redis_rate_limiter_settings
normalize_redis_rate_limiter_settings-bounds cfg = ground arith

-- Failed calls: Redis answers none of them.
abbrev pub AreFailures : List RedisCall → Type 0
AreFailures [] = Unit
AreFailures (call ∷ calls) = (call.reply ≡ none) × AreFailures calls

-- The breaker's flag tells whether the failures in a row have reached the threshold.
abbrev pub IsConsistent : {F : Type 0} → RedisRateLimiter F → Type 0
IsConsistent rl = rl.circuit_open ≡ leb_ℤ rl.threshold (pos rl.failures)

module _ {F : Type 0} (fallback_allow_key : KeyedRateLimiter F) where
  -- While the circuit is open and the reset timeout has not passed, a call does not ask Redis: the
  -- fallback decides whatever Redis would answer, and the breaker's state stays as it is.
  pub redis_allow_key-open :
      (call : RedisCall) (rl : RedisRateLimiter F)
      → rl.circuit_open ≡ true
      → sub_ℕ call.now rl.last_failure ≤ℤ rl.reset_timeout
      → ((redis_allow_key fallback_allow_key call rl).1
          ≡ (fallback_allow_key (or_global call.key) rl.fallback).1)
        × ((redis_allow_key fallback_allow_key call rl).0
            ≡ record rl { fallback = (fallback_allow_key (or_global call.key) rl.fallback).0 })
  unfolding redis_allow_key is_circuit_open
  redis_allow_key-open call rl opened early = (ground arith, ground arith)

  -- A call behind the reset timeout of an open circuit asks Redis: an answer decides the call and
  -- closes the circuit, and an error leaves the call to the fallback and the circuit open, with the
  -- failure's time as the start of the next timeout.
  pub redis_allow_key-trial :
      (call : RedisCall) (rl : RedisRateLimiter F)
      → rl.circuit_open ≡ true
      → ltb_ℤ rl.reset_timeout (sub_ℕ call.now rl.last_failure) ≡ true
      → let (after, allowed) = redis_allow_key fallback_allow_key call rl in
        ((result : ℤ)
          → call.reply ≡ some result
          → (allowed ≡ (leb_ℤ result (pos 1) && leb_ℤ (pos 1) result))
            × (after.circuit_open ≡ false)
            × (after.failures ≡ 0))
        × (call.reply ≡ none
            → (allowed ≡ (fallback_allow_key (or_global call.key) rl.fallback).1)
              × (after.circuit_open ≡ true)
              × (after.last_failure ≡ call.failed_at))
  unfolding redis_allow_key is_circuit_open on_reply record_failure record_success
  redis_allow_key-trial call rl opened late = (
    λ result q. (ground arith, ground arith, ground arith),
    λ q. (ground arith, ground arith, ground arith),
  )

  redis_allow_key-fields :
      (call : RedisCall) (rl : RedisRateLimiter F)
      → 1 ≤ pos_part rl.threshold
      → IsConsistent rl
      → ((redis_allow_key fallback_allow_key call rl).0.threshold ≡ rl.threshold)
        × IsConsistent (redis_allow_key fallback_allow_key call rl).0
  unfolding redis_allow_key on_reply record_failure record_success is_circuit_open
  redis_allow_key-fields call rl positive h = ground arith

  redis_allow_key-failure :
      (call : RedisCall) (rl : RedisRateLimiter F)
      → call.reply ≡ none
      → IsConsistent rl
      → ((redis_allow_key fallback_allow_key call rl).0.failures ≡ suc rl.failures)
        ⊎ (((redis_allow_key fallback_allow_key call rl).0.failures ≡ rl.failures)
            × (leb_ℤ rl.threshold (pos rl.failures) ≡ true))
  unfolding redis_allow_key on_reply record_failure is_circuit_open
  redis_allow_key-failure call rl q h = ground arith

  redis_allow_keys-failures_from :
      (calls : List RedisCall) (rl : RedisRateLimiter F)
      → 1 ≤ pos_part rl.threshold
      → AreFailures calls
      → IsConsistent rl
      → (redis_allow_keys fallback_allow_key calls rl).circuit_open
        ≡ leb_ℤ rl.threshold (pos (rl.failures + length calls))
  unfolding redis_allow_keys
  redis_allow_keys-failures_from [] rl t f h = ground arith
  redis_allow_keys-failures_from (call ∷ calls) rl t f h =
      let rl₁ = (redis_allow_key fallback_allow_key call rl).0 in
      let k = redis_allow_key-fields call rl t h in
      let ih = redis_allow_keys-failures_from calls rl₁ (omega (arith, ap pos_part k.0)) f.1 k.1 in
      elim (redis_allow_key-failure call rl f.0 h) [ inl q ↦ ground arith | inr q ↦ ground arith ]

  -- Behind any calls and any answers of Redis, the circuit is marked open exactly when the failures
  -- since the last success have reached the threshold, if that held before and it is positive.
  pub redis_allow_keys-IsConsistent :
      (calls : List RedisCall) (rl : RedisRateLimiter F)
      → 1 ≤ pos_part rl.threshold
      → IsConsistent rl
      → IsConsistent (redis_allow_keys fallback_allow_key calls rl)
  unfolding redis_allow_keys
  redis_allow_keys-IsConsistent [] rl t h = h
  redis_allow_keys-IsConsistent (call ∷ calls) rl t h =
      let rl₁ = (redis_allow_key fallback_allow_key call rl).0 in
      let k = redis_allow_key-fields call rl t h in
      redis_allow_keys-IsConsistent calls rl₁ (omega (arith, ap pos_part k.0)) k.1

  -- From a fresh breaker with a positive threshold, calls that all fail open the circuit exactly
  -- when there are at least as many of them as the threshold.
  pub redis_allow_keys-failures :
      (calls : List RedisCall) (rl : RedisRateLimiter F)
      → 1 ≤ pos_part rl.threshold
      → rl.failures ≡ 0
      → rl.circuit_open ≡ false
      → AreFailures calls
      → (redis_allow_keys fallback_allow_key calls rl).circuit_open
        ≡ leb_ℤ rl.threshold (pos (length calls))
  redis_allow_keys-failures calls rl t z c f =
      let h = redis_allow_keys-failures_from calls rl t f (ground arith) in ground arith
