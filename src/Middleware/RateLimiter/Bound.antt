-- ===== src/Middleware/RateLimiter/Bound.antt =====
-- How many requests the token bucket of go/middleware/ratelimit.go admits.
use Prim.Native.Nat.{min}
use dense_cloud.Prelude.{
  leb, if◌then◌else◌, Bool-cases, ℕ, zero, suc, ◌+◌, ◌-◌, ◌*◌, ◌≤◌, ◌≡◌, refl, ◌∙◌, subst, inl, inr,
  List, [], ◌∷◌, arith,
}
use dense_cloud.Middleware.RateLimiter.{
  one_token, RateLimiter, new_rate_limiter, refilled, allow, allow_all,
}

-- The times do not run backwards, as those of the monotonic clock under the lock.
abbrev pub IsMonotone : ℕ → List ℕ → Type 0
IsMonotone t [] = Unit
IsMonotone t (now ∷ times) = (t ≤ now) × IsMonotone now times

abbrev pub last_time : ℕ → List ℕ → ℕ
last_time t [] = t
last_time t (now ∷ times) = last_time now times

pub IsMonotone-le : (t : ℕ) (times : List ℕ) → IsMonotone t times → t ≤ last_time t times
IsMonotone-le t [] m = omega arith
IsMonotone-le t (now ∷ times) m = omega (arith, IsMonotone-le now times m.1)

pub elapsed_add : (a b c r : ℕ) → a ≤ b → b ≤ c → (b - a) * r + (c - b) * r ≡ (c - a) * r
elapsed_add a b c r h k = let e : c - a ≡ (b - a) + (c - b) = omega arith in rw e (omega arith)

allow-tokens :
    (now : ℕ) (rl : RateLimiter)
    → ((allow now rl).0.tokens + (if (allow now rl).1 then one_token else 0)
        ≤ rl.tokens + (now - rl.last_refill) * rl.refill_rate)
      × ((allow now rl).0.max_tokens ≡ rl.max_tokens)
      × ((allow now rl).0.refill_rate ≡ rl.refill_rate)
      × ((allow now rl).0.last_refill ≡ now)
unfolding allow
allow-tokens now rl = ground arith

-- Over any sequence of requests the bucket spends no more than it held and was refilled with since.
allow_all-tokens :
    (times : List ℕ) (rl : RateLimiter) (t r : ℕ)
    → rl.last_refill ≡ t
    → rl.refill_rate ≡ r
    → IsMonotone t times
    → (allow_all times rl).0.tokens + (allow_all times rl).1 * one_token
      ≤ rl.tokens + (last_time t times - t) * r
unfolding allow_all
allow_all-tokens [] rl t r et er m = omega arith
allow_all-tokens (now ∷ times) rl t r et er m =
    let spent = allow-tokens now rl in
    let rest = allow_all-tokens times (allow now rl).0 now r spent.3 (spent.2 ∙ er) m.1 in
    let split = elapsed_add t now (last_time now times) r m.0 (IsMonotone-le now times m.1) in
    let spent' =
      subst
        (λ (k : ℕ).
          (allow now rl).0.tokens + (if (allow now rl).1 then one_token else 0)
          ≤ rl.tokens + (now - k) * rl.refill_rate)
        et spent.0 in
    let spent'' =
      subst
        (λ (k : ℕ).
          (allow now rl).0.tokens + (if (allow now rl).1 then one_token else 0)
          ≤ rl.tokens + (now - t) * k)
        er spent' in
    elim (Bool-cases (allow now rl).1) [
      | inl yes' ↦ ground (arith, yes', spent'', rest, split)
      | inr no' ↦ ground (arith, no', spent'', rest, split)
    ]

pub record IsValid (rl : RateLimiter) : Type 0 where
  pub capped : rl.tokens ≤ rl.max_tokens

pub allow-IsValid : (now : ℕ) (rl : RateLimiter) → IsValid rl → IsValid (allow now rl).0
unfolding allow
allow-IsValid now rl v = ground arith

allow_all-IsValid :
    (times : List ℕ) (rl : RateLimiter) → IsValid rl → IsValid (allow_all times rl).0
unfolding allow_all
allow_all-IsValid [] rl v = v
allow_all-IsValid (now ∷ times) rl v =
    allow_all-IsValid times (allow now rl).0 (allow-IsValid now rl v)

-- A bucket that holds at most its capacity admits, over any sequence of requests at times that do not
-- run backwards, at most the capacity and the refill since its last use; and it never holds more
-- than its capacity.
pub allow_all-admitted :
    (times : List ℕ) (rl : RateLimiter)
    → IsValid rl
    → IsMonotone rl.last_refill times
    → ((allow_all times rl).1 * one_token
        ≤ rl.max_tokens + (last_time rl.last_refill times - rl.last_refill) * rl.refill_rate)
      × IsValid (allow_all times rl).0
allow_all-admitted times rl v m = (
  omega (arith, allow_all-tokens times rl rl.last_refill rl.refill_rate refl refl m, v.capped),
  allow_all-IsValid times rl v,
)

abbrev pub replicate : ℕ → ℕ → List ℕ
replicate zero now = []
replicate (suc n) now = now ∷ replicate n now

refilled_same :
    (now : ℕ) (rl : RateLimiter)
    → rl.tokens ≤ rl.max_tokens
    → rl.last_refill ≡ now
    → refilled now rl ≡ rl.tokens
refilled_same now rl h t =
    let e : (now - rl.last_refill) * rl.refill_rate ≡ 0 =
      (let z : now - rl.last_refill ≡ 0 = omega arith in rw z (omega arith)) in
    ground (arith, e)

allow_same :
    (now : ℕ) (rl : RateLimiter)
    → rl.tokens ≤ rl.max_tokens
    → rl.last_refill ≡ now
    → ((allow now rl).1 ≡ leb one_token rl.tokens)
      × ((allow now rl).0.tokens
          ≡ (if leb one_token rl.tokens then rl.tokens - one_token else rl.tokens))
      × ((allow now rl).0.max_tokens ≡ rl.max_tokens)
      × ((allow now rl).0.last_refill ≡ now)
unfolding allow
allow_same now rl h t = ground (arith, refilled_same now rl h t)

burst_from :
    (n k now : ℕ) (rl : RateLimiter)
    → rl.tokens ≡ k * one_token
    → rl.tokens ≤ rl.max_tokens
    → rl.last_refill ≡ now
    → (allow_all (replicate n now) rl).1 ≡ min n k
unfolding allow_all
burst_from zero k now rl e h t = omega arith
burst_from (suc n) zero now rl e h t =
    let a = allow_same now rl h t in ground (arith, a, burst_from n zero now (allow now rl).0)
burst_from (suc n) (suc k) now rl e h t =
    let a = allow_same now rl h t in ground (arith, a, burst_from n k now (allow now rl).0)

-- A new limiter admits exactly its burst of requests that arrive at the instant of its creation.
pub new_rate_limiter_burst :
    (requests_per_second burst now n : ℕ)
    → (allow_all (replicate n now) (new_rate_limiter requests_per_second burst now)).1 ≡ min n burst
unfolding new_rate_limiter
new_rate_limiter_burst requests_per_second burst now n =
    burst_from n burst now _ refl (omega arith) refl
