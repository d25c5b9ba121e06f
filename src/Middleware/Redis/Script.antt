-- ===== src/Middleware/Redis/Script.antt =====
-- The Lua script `tokenBucketScript` of go/middleware/ratelimit_redis.go, as a function on the
-- hash that Redis keeps under the key (`none` when it keeps none). Times are whole seconds, as the
-- limiter passes them, so every number in it is an integer.
use dense_cloud.Prelude.{
  if◌then◌else◌, ℤ, pos, pos_part, ◌+ℤ◌, ◌-ℤ◌, ◌*ℤ◌, leb_ℤ, ℕ, ◌+◌, Option, none, some, List, [],
  ◌∷◌,
}
use dense_cloud.Middleware.Partitioned.{min_ℤ}

-- The two fields of the hash, and the time to live that EXPIRE sets.
pub record Hash : Type 0 where
  pub tokens : ℤ
  pub last_refill : ℤ
  pub ttl : ℤ

abbrev pub tokens_or : ℤ → Option Hash → ℤ
tokens_or max_tokens none = max_tokens
tokens_or max_tokens (some hash) = hash.tokens

abbrev pub last_refill_or : ℤ → Option Hash → ℤ
last_refill_or now none = now
last_refill_or now (some hash) = hash.last_refill

-- The new hash, and `allowed`.
unfoldable pub token_bucket_script : ℤ → ℤ → ℤ → ℤ → Option Hash → Hash × ℤ
token_bucket_script max_tokens refill_rate now key_ttl hash =
    let elapsed = now -ℤ last_refill_or now hash in
    let tokens = min_ℤ max_tokens (tokens_or max_tokens hash +ℤ elapsed *ℤ refill_rate) in
    if leb_ℤ (pos 1) tokens
    then (record { tokens = tokens -ℤ pos 1; last_refill = now; ttl = key_ttl }, pos 1)
    else (record { tokens = tokens; last_refill = now; ttl = key_ttl }, pos 0)

-- The runs at the given times on one key: the hash at the end, and how many allowed the request.
unfoldable pub run_scripts : ℕ → ℕ → ℤ → List ℕ → Hash → Hash × ℕ
run_scripts max_tokens refill_rate key_ttl [] hash = (hash, 0)
run_scripts max_tokens refill_rate key_ttl (now ∷ times) hash =
    let (hash₁, allowed) =
      token_bucket_script (pos max_tokens) (pos refill_rate) (pos now) key_ttl (some hash) in
    let (hash₂, rest) = run_scripts max_tokens refill_rate key_ttl times hash₁ in
    (hash₂, pos_part allowed + rest)
