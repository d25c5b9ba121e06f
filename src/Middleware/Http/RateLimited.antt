-- ===== src/Middleware/Http/RateLimited.antt =====
-- A server behind RateLimit of go/middleware/ratelimit.go with an in-memory token bucket. The state
-- of the middleware is the bucket and that of the handler behind it.
use dense_cloud.Prelude.{
  ◌==◌, if◌then◌else◌, Bool-cases, length, ℕ, suc, ◌+◌, ◌-◌, ◌*◌, ◌≤◌, String, ◌≡◌, refl, inl, inr,
  Bool, false, Option, none, some, List, [], ◌∷◌, arith,
}
use dense_cloud.Middleware.RateLimiter.{one_token, RateLimiter, allow, allow_all}
use dense_cloud.Middleware.Http.Guards.{rate_limit}
use dense_cloud.Golang.NetHttp.{
  is_informational, send_status, serve_call, serve, unsent, Request, HttpHandler, HttpMiddleware,
}
use dense_cloud.Middleware.RateLimiter.Bound.{IsMonotone, last_time, IsValid, allow_all-admitted}

-- Whether the client gets 429.
unfoldable pub is_refused : Option ℕ → Bool
is_refused none = false
is_refused (some code) = code == 429

-- The requests that arrive, each at its time.
abbrev pub Arrivals : Type 0
Arrivals = List (ℕ × Request)

abbrev pub arrival_times : Arrivals → List ℕ
arrival_times [] = []
arrival_times ((now, r) ∷ arrivals) = now ∷ arrival_times arrivals

module _ {W : Type 0} where
  -- Allow of the bucket at the time of the request.
  abbrev allow_shared : ℕ → RateLimiter × W → (RateLimiter × W) × Bool
  allow_shared now (rl, w) = (((allow now rl).0, w), (allow now rl).1)

  -- RateLimit with a bucket that is not nil; `body` is the encoded error.
  unfoldable pub rate_limit_bucket : String → ℕ → HttpMiddleware (RateLimiter × W)
  rate_limit_bucket body now = rate_limit body (some (allow_shared now))

  -- The handler beside the bucket.
  abbrev pub beside_bucket : HttpHandler W → HttpHandler (RateLimiter × W)
  beside_bucket next r headers (rl, w) =
      let (w₁, calls, panicked) = next r headers w in ((rl, w₁), calls, panicked)

-- The handler, and how often it has been called.
abbrev pub counted : {W : Type 0} → HttpHandler W → HttpHandler (ℕ × W)
counted next r headers (n, w) =
    let (w₁, calls, panicked) = next r headers w in ((suc n, w₁), calls, panicked)

-- The requests one after the other: the state behind them, and how many got 429.
unfoldable pub serve_limited :
    {W : Type 0} → String → HttpHandler W → Arrivals → RateLimiter × W → (RateLimiter × W) × ℕ
serve_limited body next [] s = (s, 0)
serve_limited body next ((now, r) ∷ arrivals) s =
    let (s₁, calls, panicked) = rate_limit_bucket body now (beside_bucket next) r [] s in
    let (s₂, refused) = serve_limited body next arrivals s₁ in
    (s₂, (if is_refused (serve unsent calls).status then 1 else 0) + refused)

module _ {W : Type 0} where
  -- The handler answers nothing with 429 on its own account.
  abbrev pub NeverRefuses : HttpHandler W → Type 0
  NeverRefuses next =
      (r : Request) (w : W) → is_refused (serve unsent (next r [] w).1).status ≡ false

  rate_limit_bucket-counted :
      (body : String) (next : HttpHandler W) (now : ℕ) (r : Request) (s : RateLimiter × (ℕ × W))
      → NeverRefuses next
      → let (s₁, calls, panicked) =
          rate_limit_bucket body now (beside_bucket (counted next)) r [] s in
        (s₁.0 ≡ (allow now s.0).0)
        × (s₁.1.0 ≡ s.1.0 + (if (allow now s.0).1 then 1 else 0))
        × ((if is_refused (serve unsent calls).status then 1 else 0)
              + (if (allow now s.0).1 then 1 else 0)
            ≡ 1)
  unfolding rate_limit_bucket rate_limit serve serve_call send_status is_refused is_informational
  rate_limit_bucket-counted body next now r (rl, (n, w)) never =
      elim (Bool-cases (allow now rl).1) [
        | inl q ↦ rw q (refl, omega arith, rw (never r w) refl)
        | inr q ↦ rw q (refl, omega arith, refl)
      ]

  serve_limited-counts :
      (body : String) (next : HttpHandler W) (arrivals : Arrivals) (s : RateLimiter × (ℕ × W))
      → NeverRefuses next
      → let (s₁, refused) = serve_limited body (counted next) arrivals s in
        (s₁.1.0 ≡ s.1.0 + (allow_all (arrival_times arrivals) s.0).1)
        × (refused + (allow_all (arrival_times arrivals) s.0).1 ≡ length arrivals)
  unfolding serve_limited allow_all
  serve_limited-counts body next [] s never = (omega arith, refl)
  serve_limited-counts body next ((now, r) ∷ arrivals) s never =
      let s₁ = (rate_limit_bucket body now (beside_bucket (counted next)) r [] s).0 in
      let (bucket, ran, once) = rate_limit_bucket-counted body next now r s never in
      let (ran_rest, rest) = serve_limited-counts body next arrivals s₁ never in
      (omega (arith, ran, rw bucket at ran_rest), omega (arith, once, rw bucket at rest))

  -- A server behind RateLimit, with a bucket whose content is within its capacity, requests at times
  -- that do not run backwards, and a handler that never answers 429 on its own account: it runs the
  -- handler for at most the capacity and the refill since the bucket's last use, and the requests
  -- that get 429 and the runs of the handler add up to all the requests.
  pub rate_limit-protects :
      (body : String) (next : HttpHandler W) (arrivals : Arrivals) (rl : RateLimiter) (w : W)
      → NeverRefuses next
      → IsValid rl
      → IsMonotone rl.last_refill (arrival_times arrivals)
      → let ((rl₁, (ran, w₁)), refused) = serve_limited body (counted next) arrivals (rl, (0, w)) in
        let elapsed = last_time rl.last_refill (arrival_times arrivals) - rl.last_refill in
        (ran * one_token ≤ rl.max_tokens + elapsed * rl.refill_rate)
        × (refused + ran ≡ length arrivals)
  rate_limit-protects body next arrivals rl w never v m =
      let (counted_from, refused) = serve_limited-counts body next arrivals (rl, (0, w)) never in
      let ran : (serve_limited body (counted next) arrivals (rl, (0, w))).0.1.0
          ≡ (allow_all (arrival_times arrivals) rl).1 =
        omega (arith, counted_from) in
      let admitted = (allow_all-admitted (arrival_times arrivals) rl v m).0 in
      rw ran (admitted, refused)
