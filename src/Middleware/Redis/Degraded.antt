-- ===== src/Middleware/Redis/Degraded.antt =====
-- The distributed limiter of go/middleware/ratelimit_redis.go while Redis is away.
use dense_cloud.Prelude.{Bool-cases, ◌≡◌, refl, inl, inr, Bool, none, List, [], ◌∷◌}
use dense_cloud.Middleware.Redis.Breaker.{AreFailures}
use dense_cloud.Middleware.Redis.{
  KeyedRateLimiter, RedisRateLimiter, RedisCall, is_circuit_open, record_failure, on_reply,
  redis_allow_key,
}
use dense_cloud.Middleware.Partitioned.{or_global}

module _ {F : Type 0} (fallback_allow_key : KeyedRateLimiter F) where
  -- What the limiter answers to the calls.
  unfoldable pub redis_answers : List RedisCall → RedisRateLimiter F → List Bool
  redis_answers [] rl = []
  redis_answers (call ∷ calls) rl =
      let (rl₁, allowed) = redis_allow_key fallback_allow_key call rl in
      allowed ∷ redis_answers calls rl₁

  -- The specification: what the limiter in memory answers to the keys, on its own.
  unfoldable pub fallback_answers : List RedisCall → F → List Bool
  fallback_answers [] f = []
  fallback_answers (call ∷ calls) f =
      let (f₁, allowed) = fallback_allow_key (or_global call.key) f in
      allowed ∷ fallback_answers calls f₁

  -- A failed call, whether the circuit is open or not.
  redis_allow_key-failed :
      (call : RedisCall) (rl : RedisRateLimiter F)
      → call.reply ≡ none
      → let (rl₁, allowed) = redis_allow_key fallback_allow_key call rl in
        let (f₁, told) = fallback_allow_key (or_global call.key) rl.fallback in
        (allowed ≡ told) × (rl₁.fallback ≡ f₁)
  unfolding redis_allow_key on_reply record_failure
  redis_allow_key-failed call rl failed = elim (Bool-cases (is_circuit_open call.now rl)) [
    | inl opened ↦ rw opened (refl, refl)
    | inr closed ↦ rw (closed, failed) (refl, refl)
  ]

  -- While Redis answers no call, the limiter gives exactly the answers that the limiter in memory
  -- behind it would give on its own, whatever the state of the circuit and however often it opens
  -- and tries Redis again.
  pub redis_answers-degraded :
      (calls : List RedisCall) (rl : RedisRateLimiter F)
      → AreFailures calls
      → redis_answers calls rl ≡ fallback_answers calls rl.fallback
  unfolding redis_answers fallback_answers
  redis_answers-degraded [] rl h = refl
  redis_answers-degraded (call ∷ calls) rl (failed, later) =
      let (told, left) = redis_allow_key-failed call rl failed in
      let rest =
        redis_answers-degraded calls (redis_allow_key fallback_allow_key call rl).0 later in
      rw (told, rest, left) refl
