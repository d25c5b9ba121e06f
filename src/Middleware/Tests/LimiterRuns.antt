-- ===== src/Middleware/Tests/LimiterRuns.antt =====
-- Runs of the rate limiters of go/middleware, and their theorems at them.
use dense_cloud.Prelude.{
  leb, length, pos, pos_part, ◌+ℤ◌, lookup, insert, keep, ℕ, suc, ◌+◌, ◌-◌, ◌*◌, ◌≤◌, String, ◌≡◌,
  refl, true, false, none, some, List, [], ◌∷◌, arith,
}
use dense_cloud.Golang.Contexts.{seconds}
use dense_cloud.Middleware.RateLimiter.{new_rate_limiter, allow}
use dense_cloud.Middleware.Partitioned.{
  PartitionedRateLimiterConfig, PartitionEntry, PartitionedRateLimiter,
  normalize_partitioned_rate_limiter_config, new_partition_entry,
  new_partitioned_rate_limiter_with_config, cleanup_stale, place, partition_for_key, allow_slot,
  Clock, allow_key, allow_keys,
}
use dense_cloud.Middleware.Partitioned.Bounded.{IsBounded, allow_keys-IsBounded}
use dense_cloud.Middleware.Redis.ScriptBound.{run_scripts-admitted}
use dense_cloud.Middleware.Redis.Script.{token_bucket_script, run_scripts}
use dense_cloud.Middleware.Redis.{
  KeyedRateLimiter, RedisRateLimiterConfig, RedisRateLimiter, RedisCall, redis_allow_key,
  redis_allow_keys,
}
use dense_cloud.Middleware.Redis.Recovery.{redis_allow_keys-recovers}
use dense_cloud.Middleware.Partitioned.Refines.{
  answers_to, times_of, bucket_answers, IsActive, answers_to-bucket,
}
use dense_cloud.Middleware.Redis.Degraded.{redis_answers, fallback_answers, redis_answers-degraded}

-- At most two keys, one request a second with a burst of two.
abbrev two_keys_config : PartitionedRateLimiterConfig
two_keys_config = record {
  requests_per_second = pos 1;
  burst = pos 2;
  entry_ttl = seconds 60;
  max_partitions = pos 2;
  cleanup_interval = seconds 10;
}

abbrev at_ns : ℕ → Clock
at_ns t = record { now = t; created = t + 1; at = t + 2 }

abbrev two_keys : PartitionedRateLimiter
two_keys = new_partitioned_rate_limiter_with_config two_keys_config 0 0

abbrev full : PartitionedRateLimiter
full = allow_keys ((at_ns 10, "a") ∷ (at_ns 20, "b") ∷ []) two_keys

full_length : length full.partitions ≡ 2
unfolding allow_keys allow_key partition_for_key cleanup_stale place allow_slot allow
    new_partitioned_rate_limiter_with_config normalize_partitioned_rate_limiter_config
    new_partition_entry new_rate_limiter lookup insert keep ◌+ℤ◌
full_length = refl

allow_keys-IsBounded_example : IsBounded full
allow_keys-IsBounded_example =
    allow_keys-IsBounded two_keys_config 0 0 ((at_ns 10, "a") ∷ (at_ns 20, "b") ∷ [])

abbrev entry_a : PartitionEntry
entry_a = record {
  limiter = record {
    tokens = 1_000_000_000;
    max_tokens = 2_000_000_000;
    refill_rate = 1;
    last_refill = 12;
  };
  last_seen = 10;
}

full_a : lookup "a" full.partitions ≡ some entry_a
unfolding allow_keys allow_key partition_for_key cleanup_stale place allow_slot allow
    new_partitioned_rate_limiter_with_config normalize_partitioned_rate_limiter_config
    new_partition_entry new_rate_limiter lookup insert keep ◌+ℤ◌
full_a = refl

abbrev three_keys : List (Clock × String)
three_keys = (at_ns 30, "b") ∷ (at_ns 40, "a") ∷ (at_ns 50, "c") ∷ (at_ns 60, "a") ∷ []

full_IsActive : IsActive "a" full.entry_ttl entry_a.last_seen three_keys
unfolding allow_keys allow_key partition_for_key cleanup_stale place allow_slot allow
    new_partitioned_rate_limiter_with_config normalize_partitioned_rate_limiter_config
    new_partition_entry new_rate_limiter lookup insert keep ◌+ℤ◌
full_IsActive = (refl, (refl, (refl, (refl, tt))))

answers_to-bucket_example :
    answers_to "a" three_keys full ≡ bucket_answers (times_of "a" three_keys) entry_a.limiter
answers_to-bucket_example =
    answers_to-bucket "a" three_keys entry_a full allow_keys-IsBounded_example.0 full_a
      full_IsActive

-- The distributed limiter, with the in-memory one behind it.
abbrev redis_config : RedisRateLimiterConfig
redis_config = record {
  redis_url = "redis://localhost";
  redis_password = "";
  redis_db = pos 0;
  redis_tls = false;
  requests_per_second = pos 1;
  burst = pos 2;
  key_ttl = pos 1_500_000_000;
  failure_threshold = pos 2;
  reset_timeout = seconds 30;
}

-- A fallback that admits every request and counts them.
abbrev admit_all : KeyedRateLimiter ℕ
admit_all key n = (suc n, true)

abbrev fresh : RedisRateLimiter ℕ
fresh = record {
  fallback = 0;
  key_prefix = "ratelimit:";
  max_tokens = pos 2;
  refill_rate = pos 1;
  key_ttl_seconds = pos 2;
  failures = 0;
  last_failure = 0;
  circuit_open = false;
  threshold = pos 2;
  reset_timeout = seconds 30;
}

abbrev opened : RedisRateLimiter ℕ
opened = record fresh { failures = 2; last_failure = 10; circuit_open = true }

abbrev failing : ℕ → RedisCall
failing t = record { now = t; failed_at = t + 1; key = "a"; reply = none }

-- A fallback that admits one request.
abbrev admit_one : KeyedRateLimiter ℕ
admit_one key n = (suc n, leb n 0)

-- Behind the reset timeout the second call tries Redis in vain.
redis_answers-degraded_example :
    redis_answers admit_one
      (failing 20 ∷ failing 30_000_000_011 ∷ failing 30_000_000_020 ∷ [])
      opened
    ≡ fallback_answers admit_one
        (failing 20 ∷ failing 30_000_000_011 ∷ failing 30_000_000_020 ∷ [])
        0
redis_answers-degraded_example =
    redis_answers-degraded admit_one
      (failing 20 ∷ failing 30_000_000_011 ∷ failing 30_000_000_020 ∷ []) opened
      (refl, (refl, (refl, tt)))

abbrev answering : ℕ → RedisCall
answering now = record { now = now; failed_at = now + 1; key = "k"; reply = some (pos 1) }

redis_allow_keys-recovers_example :
    let rl = redis_allow_keys admit_all (answering 20 ∷ []) opened in
    ((redis_allow_key admit_all (answering 30_000_000_011) rl).1 ≡ true)
    × ((redis_allow_key admit_all (answering 30_000_000_011) rl).0.circuit_open ≡ false)
    × ((redis_allow_key admit_all (answering 30_000_000_011) rl).0.failures ≡ 0)
redis_allow_keys-recovers_example =
    redis_allow_keys-recovers admit_all (answering 20 ∷ []) (answering 30_000_000_011) (pos 1)
      opened (λ e. cc, tt) refl refl

run_scripts-admitted_example :
    pos_part (token_bucket_script (pos 2) (pos 1) (pos 100) (pos 5) none).1
      + (run_scripts 2 1
          (pos 5)
          (100 ∷ 103 ∷ [])
          (token_bucket_script (pos 2) (pos 1) (pos 100) (pos 5) none).0).1
    ≤ 2 + (103 - 100) * 1
run_scripts-admitted_example =
    run_scripts-admitted 2 1 100 (pos 5) (100 ∷ 103 ∷ []) (omega arith, (omega arith, tt))
