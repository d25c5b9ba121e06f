-- ===== src/Middleware/RateLimiter.antt =====
-- The token bucket of go/middleware/ratelimit.go. Times are nanoseconds of the monotonic clock, and
-- tokens are counted in units of 10⁻⁹, in which `elapsed * refillRate` is exact: the rounding of
-- float64 is left out, by which the code may still deny a request at the instant of a refill, and so are negative rates and bursts.
pub mod Bound
use dense_cloud.Prelude.{
  ltb, leb, if◌then◌else◌, ℕ, ◌+◌, ◌-◌, ◌*◌, String, Bool, true, false, List, [], ◌∷◌,
}

abbrev pub one_token : ℕ
one_token = 1_000_000_000

pub record RateLimiter : Type 0 where
  pub tokens : ℕ
  pub max_tokens : ℕ
  pub refill_rate : ℕ
  pub last_refill : ℕ

unfoldable pub new_rate_limiter : ℕ → ℕ → ℕ → RateLimiter
new_rate_limiter requests_per_second burst now = record {
  tokens = burst * one_token;
  max_tokens = burst * one_token;
  refill_rate = requests_per_second;
  last_refill = now;
}

-- The tokens behind the refill, capped.
abbrev pub refilled : ℕ → RateLimiter → ℕ
refilled now rl =
    let tokens = rl.tokens + (now - rl.last_refill) * rl.refill_rate in
    if ltb rl.max_tokens tokens then rl.max_tokens else tokens

unfoldable pub allow : ℕ → RateLimiter → RateLimiter × Bool
allow now rl =
    if leb one_token (refilled now rl)
    then (record rl { tokens = refilled now rl - one_token; last_refill = now }, true)
    else (record rl { tokens = refilled now rl; last_refill = now }, false)

-- AllowKey of the token bucket, which has one bucket for all keys.
abbrev pub allow_any_key : String → ℕ → RateLimiter → RateLimiter × Bool
allow_any_key key now rl = allow now rl

-- Requests at the given times: the bucket behind them, and how many were admitted.
unfoldable pub allow_all : List ℕ → RateLimiter → RateLimiter × ℕ
allow_all [] rl = (rl, 0)
allow_all (now ∷ times) rl =
    let (rl₁, admitted) = allow now rl in
    let (rl₂, rest) = allow_all times rl₁ in (rl₂, (if admitted then 1 else 0) + rest)
