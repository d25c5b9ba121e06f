-- ===== src/Middleware/Redis/Recovery.antt =====
-- How the breaker of go/middleware/ratelimit_redis.go closes again.
use dense_cloud.Prelude.{
  ℤ, pos, sub_ℕ, ltb_ℤ, leb_ℤ, ◌≡◌, refl, ◌∙◌, ◌≢◌, true, false, ◌&&◌, none, some, List, [], ◌∷◌,
  arith,
}
use dense_cloud.Middleware.Redis.{
  KeyedRateLimiter, RedisRateLimiter, RedisCall, is_circuit_open, record_success, on_reply,
  redis_allow_key, redis_allow_keys,
}

-- Redis answers each call that asks it.
abbrev pub AreAnswered : List RedisCall → Type 0
AreAnswered [] = Unit
AreAnswered (call ∷ calls) = (call.reply ≢ none) × AreAnswered calls

module _ {F : Type 0} (fallback_allow_key : KeyedRateLimiter F) where
  redis_allow_key-keeps :
      (call : RedisCall) (rl : RedisRateLimiter F)
      → call.reply ≢ none
      → ((redis_allow_key fallback_allow_key call rl).0.last_failure ≡ rl.last_failure)
        × ((redis_allow_key fallback_allow_key call rl).0.reset_timeout ≡ rl.reset_timeout)
  unfolding redis_allow_key on_reply record_success is_circuit_open
  redis_allow_key-keeps call rl answered = ground arith

  redis_allow_keys-keeps :
      (calls : List RedisCall) (rl : RedisRateLimiter F)
      → AreAnswered calls
      → ((redis_allow_keys fallback_allow_key calls rl).last_failure ≡ rl.last_failure)
        × ((redis_allow_keys fallback_allow_key calls rl).reset_timeout ≡ rl.reset_timeout)
  unfolding redis_allow_keys
  redis_allow_keys-keeps [] rl answered = (refl, refl)
  redis_allow_keys-keeps (call ∷ calls) rl answered =
      let one = redis_allow_key-keeps call rl answered.0 in
      let rest =
        redis_allow_keys-keeps calls (redis_allow_key fallback_allow_key call rl).0 answered.1 in
      (rest.0 ∙ one.0, rest.1 ∙ one.1)

  redis_allow_key-asks :
      (call : RedisCall) (result : ℤ) (rl : RedisRateLimiter F)
      → call.reply ≡ some result
      → ltb_ℤ rl.reset_timeout (sub_ℕ call.now rl.last_failure) ≡ true
      → ((redis_allow_key fallback_allow_key call rl).1
          ≡ (leb_ℤ result (pos 1) && leb_ℤ (pos 1) result))
        × ((redis_allow_key fallback_allow_key call rl).0.circuit_open ≡ false)
        × ((redis_allow_key fallback_allow_key call rl).0.failures ≡ 0)
  unfolding redis_allow_key on_reply record_success is_circuit_open
  redis_allow_key-asks call result rl answered late = ground arith

  -- Whatever the state of the breaker, if Redis would answer each of some calls, then a call behind
  -- them, for which Redis has an answer and which comes later than the reset timeout after the
  -- last failure, is decided by that answer, and leaves the circuit closed and no failure counted.
  pub redis_allow_keys-recovers :
      (calls : List RedisCall) (call : RedisCall) (result : ℤ) (rl : RedisRateLimiter F)
      → AreAnswered calls
      → call.reply ≡ some result
      → ltb_ℤ rl.reset_timeout (sub_ℕ call.now rl.last_failure) ≡ true
      → let rl₁ = redis_allow_keys fallback_allow_key calls rl in
        ((redis_allow_key fallback_allow_key call rl₁).1
          ≡ (leb_ℤ result (pos 1) && leb_ℤ (pos 1) result))
        × ((redis_allow_key fallback_allow_key call rl₁).0.circuit_open ≡ false)
        × ((redis_allow_key fallback_allow_key call rl₁).0.failures ≡ 0)
  redis_allow_keys-recovers calls call result rl answered reply late =
      let kept = redis_allow_keys-keeps calls rl answered in
      redis_allow_key-asks call result (redis_allow_keys fallback_allow_key calls rl) reply
        (rw kept.0 (rw kept.1 late))
