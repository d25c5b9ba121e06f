-- ===== src/Middleware/Redis/ScriptBound.antt =====
-- How many requests the Lua script of go/middleware/ratelimit_redis.go admits on one key.
use dense_cloud.Prelude.{
  ℤ, pos, pos_part, neg_part, ◌+ℤ◌, ◌-ℤ◌, ◌*ℤ◌, ℕ, ◌+◌, ◌-◌, ◌*◌, ◌≤◌, ◌≡◌, refl, none, some, List,
  [], ◌∷◌, arith,
}
use dense_cloud.Middleware.Redis.Script.{Hash, token_bucket_script, run_scripts}
use dense_cloud.Middleware.RateLimiter.Bound.{IsMonotone, last_time, IsMonotone-le, elapsed_add}

refill_parts :
    (last now r : ℕ) → last ≤ now → ((pos now -ℤ pos last) *ℤ pos r) ≡ pos ((now - last) * r)
unfolding ◌-ℤ◌ ◌*ℤ◌
refill_parts last now r h = ground arith

-- A hash with no debt.
abbrev IsFunded : Hash → ℕ → Type 0
IsFunded hash last = (neg_part hash.tokens ≡ 0) × (hash.last_refill ≡ pos last)

script-step :
    (max r now last : ℕ) (ttl : ℤ) (hash : Hash)
    → last ≤ now
    → IsFunded hash last
    → let (after, allowed) = token_bucket_script (pos max) (pos r) (pos now) ttl (some hash) in
      IsFunded after now
      × (pos_part after.tokens + pos_part allowed ≤ pos_part hash.tokens + (now - last) * r)
      × (pos_part after.tokens + pos_part allowed ≤ max)
unfolding token_bucket_script ◌+ℤ◌ ◌-ℤ◌
script-step max r now last ttl hash le h =
    let refill = refill_parts last now r le in rw h.1 (rw refill (ground arith))

-- Over the runs at times that do not run backwards, the bucket spends no more than it held and was
-- refilled with since.
run_scripts-tokens :
    (max r : ℕ) (ttl : ℤ) (times : List ℕ) (last : ℕ) (hash : Hash)
    → IsMonotone last times
    → IsFunded hash last
    → pos_part (run_scripts max r ttl times hash).0.tokens + (run_scripts max r ttl times hash).1
      ≤ pos_part hash.tokens + (last_time last times - last) * r
unfolding run_scripts
run_scripts-tokens max r ttl [] last hash m h = omega arith
run_scripts-tokens max r ttl (now ∷ times) last hash m h =
    let step = script-step max r now last ttl hash m.0 h in
    let after = (token_bucket_script (pos max) (pos r) (pos now) ttl (some hash)).0 in
    let rest = run_scripts-tokens max r ttl times now after m.1 step.0 in
    let split = elapsed_add last now (last_time now times) r m.0 (IsMonotone-le now times m.1) in
    omega (arith, step.1, rest, split)

-- The script on a key that Redis does not hold yet, and then on the hash it leaves, allows at most
-- `max` requests and `rate` more for each second from the first run to the last, if the clients'
-- clocks do not run backwards and the key does not expire in between.
pub run_scripts-admitted :
    (max rate first : ℕ) (ttl : ℤ) (times : List ℕ)
    → IsMonotone first times
    → let (hash, allowed) = token_bucket_script (pos max) (pos rate) (pos first) ttl none in
      pos_part allowed + (run_scripts max rate ttl times hash).1
      ≤ max + (last_time first times - first) * rate
unfolding token_bucket_script
run_scripts-admitted max rate first ttl times m =
    let full : Hash = record { tokens = pos max; last_refill = pos first; ttl = ttl } in
    let step = script-step max rate first first ttl full (omega arith) (refl, refl) in
    let after = (token_bucket_script (pos max) (pos rate) (pos first) ttl none).0 in
    let rest = run_scripts-tokens max rate ttl times first after m step.0 in
    omega (arith, step.2, rest)
