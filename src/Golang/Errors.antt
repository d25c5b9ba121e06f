-- ===== src/Golang/Errors.antt =====
-- Go errors as the code builds and inspects them: sentinels, errors.New and fmt.Errorf texts,
-- wrapping by %w, and errors.Join. `timed_out t` is the error that the health registry builds with
-- "health check timed out after %s: %w" around context.DeadlineExceeded.
use dense_cloud.Prelude.{ℤ, String, ◌≡◌, refl, ◌⊎◌, inl, inr, Bool, true, false, ◌||◌}

pub data Err : Type 0 where
  canceled : Err
  deadline_exceeded : Err
  server_closed : Err
  server_stopped : Err
  text : String → Err
  timed_out : ℤ → Err
  wrapped : String → Err → Err
  joined : Err → Err → Err

-- errors.Is(err, context.DeadlineExceeded)
unfoldable pub is_deadline_exceeded : Err → Bool
is_deadline_exceeded deadline_exceeded = true
is_deadline_exceeded (timed_out t) = true
is_deadline_exceeded (wrapped s e) = is_deadline_exceeded e
is_deadline_exceeded (joined e f) = is_deadline_exceeded e || is_deadline_exceeded f
is_deadline_exceeded e = false

-- errors.Is(err, context.Canceled)
unfoldable pub is_canceled : Err → Bool
is_canceled canceled = true
is_canceled (wrapped s e) = is_canceled e
is_canceled (joined e f) = is_canceled e || is_canceled f
is_canceled e = false

-- errors.Is(err, grpc.ErrServerStopped)
unfoldable pub is_server_stopped : Err → Bool
is_server_stopped server_stopped = true
is_server_stopped (wrapped s e) = is_server_stopped e
is_server_stopped (joined e f) = is_server_stopped e || is_server_stopped f
is_server_stopped e = false

-- err == http.ErrServerClosed, the comparison of the sentinel itself
abbrev pub is_server_closed : Err → Bool
is_server_closed server_closed = true
is_server_closed e = false

-- A value and an error, of which a Go function returns one.
pub data Result {ℓ} (A : Type ℓ) : Type ℓ where
  ok : A → Result A
  err : Err → Result A

-- A function that returns a value or an error, or panics.
pub data Attempt {ℓ} (A : Type ℓ) : Type ℓ where
  gives : A → Attempt A
  failed_with : Err → Attempt A
  crashed : Attempt A

infixl 5 ◌>>=◌
abbrev pub ◌>>=◌ {ℓ κ} : {A : Type ℓ} {B : Type κ} → Attempt A → (A → Attempt B) → Attempt B
gives a >>= f = f a
failed_with e >>= f = failed_with e
crashed >>= f = crashed

abbrev pub if_valid {ℓ} : {A : Type ℓ} → Bool → Err → Attempt A → Attempt A
if_valid true e attempt = attempt
if_valid false e attempt = failed_with e

pub Result-cases {ℓ} :
    {A : Type ℓ} (r : Result A) → ((a : A) × (r ≡ ok a)) ⊎ ((e : Err) × (r ≡ err e))
Result-cases (ok a) = inl (a, refl)
Result-cases (err e) = inr (e, refl)
