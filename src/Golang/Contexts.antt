-- ===== src/Golang/Contexts.antt =====
-- Contexts as the code passes them on, and the durations that it writes out.
use dense_cloud.Prelude.{ℤ, pos, ℕ, ◌*◌, Option, none, some}

-- A context that a caller supplies, context.Background(), and context.WithTimeout.
pub data Context : Type 0 where
  background : Context
  supplied : ℕ → Context
  with_timeout : Context → ℤ → Context

-- time.Duration counts nanoseconds.
abbrev pub Duration : Type 0
Duration = ℤ

abbrev pub second : ℕ
second = 1_000_000_000

abbrev pub seconds : ℕ → Duration
seconds n = pos (n * second)

-- `ctx == nil` replaced by context.Background()
abbrev pub or_background : Option Context → Context
or_background none = background
or_background (some ctx) = ctx
