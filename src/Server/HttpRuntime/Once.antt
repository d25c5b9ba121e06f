-- ===== src/Server/HttpRuntime/Once.antt =====
-- What the lifecycle of go/server/runtime.go guarantees over a sequence of calls.
use dense_cloud.Golang.Errors.{Err}
use dense_cloud.Prelude.{
  if◌then◌else◌, Bool-cases, Option-cases, ℕ, ◌+◌, ◌≡◌, refl, inl, inr, Bool, true, false, Option,
  none, List, [], ◌∷◌, arith,
}
use dense_cloud.Golang.Contexts.{Context}
use dense_cloud.Server.Hooks.{
  Hook, head_error, run_startup_hooks, run_shutdown_hooks, present, final_state, errors,
  run_shutdown_hooks-outcome,
}
use dense_cloud.Server.HttpRuntime.Lifecycle.{HttpRuntime, begin_shutdown, shutdown, startup}

-- The calls that an application makes.
pub data Call : Type 0 where
  startup_call shutdown_call : Context → Call
  begin_call : Call

module _ {W : Type 0} where
  -- A second Shutdown, under whatever context, runs no hook and returns the error of the first.
  pub shutdown-shutdown :
      (r : HttpRuntime W) (w : W) (ctx ctx' : Context)
      → let (r', w', error) = shutdown ctx (r, w) in shutdown ctx' (r', w') ≡ (r', w', error)
  unfolding shutdown
  shutdown-shutdown r w ctx ctx' = elim (Bool-cases r.shutdown_done) [
    | inl done ↦ ground arith
    | inr fresh ↦ ground arith
  ]

  -- The first Shutdown runs all shutdown hooks, in order, and returns the first of their errors;
  -- behind it readiness is refused.
  pub shutdown_first :
      (r : HttpRuntime W) (w : W) (ctx : Context)
      → r.shutdown_done ≡ false
      → r.shutdown_err ≡ none
      → let (r', w', error) = shutdown ctx (r, w) in
        (w' ≡ final_state (present r.shutdown_hooks) ctx w)
        × (error ≡ head_error (errors (present r.shutdown_hooks) ctx w))
        × (r'.health.shutting_down ≡ true)
        × (r'.shutdown_done ≡ true)
  unfolding shutdown
  shutdown_first r w ctx h k =
      ground (arith, run_shutdown_hooks-outcome r.shutdown_hooks ctx w r.shutdown_err)

  unfoldable pub step : Call → HttpRuntime W × W → HttpRuntime W × W
  step (startup_call ctx) s = let (r, w, error) = startup ctx s in (r, w)
  step (shutdown_call ctx) s = let (r, w, error) = shutdown ctx s in (r, w)
  step begin_call (r, w) = (begin_shutdown r, w)

  unfoldable pub run : List Call → HttpRuntime W × W → HttpRuntime W × W
  run [] s = s
  run (call ∷ calls) s = run calls (step call s)

abbrev pub to_number : Bool → ℕ
to_number b = if b then 1 else 0

-- `f` counts the runs of the shutdown hooks: no startup hook changes it, and the shutdown hooks
-- together raise it by one.
module _ {W : Type 0} (f : W → ℕ) (startup_hooks shutdown_hooks : List (Hook W)) where
  pub record Counts : Type 0 where
    pub keeps : (ctx : Context) (w : W) → f (run_startup_hooks startup_hooks ctx w).0 ≡ f w
    pub counts :
        (ctx : Context) (w : W) (first : Option Err)
        → f (run_shutdown_hooks shutdown_hooks ctx w first).0 ≡ f w + 1

  abbrev pub Has : HttpRuntime W → Type 0
  Has r = (r.startup_hooks ≡ startup_hooks) × (r.shutdown_hooks ≡ shutdown_hooks)

  shutdown-counts :
      Counts
      → (r : HttpRuntime W) (w : W) (ctx : Context) → Has r
      → Has (shutdown ctx (r, w)).0
        × ((shutdown ctx (r, w)).0.shutdown_done ≡ true)
        × (f (shutdown ctx (r, w)).1 + to_number r.shutdown_done ≡ f w + 1)
  unfolding shutdown
  shutdown-counts c r w ctx h = ground (arith, c.counts ctx w r.shutdown_err)

  -- The count rises with the flag of shutdownOnce.
  abbrev pub Balanced : HttpRuntime W × W → HttpRuntime W × W → Type 0
  Balanced s t =
      Has t.0 × (f t.1 + to_number s.0.shutdown_done ≡ f s.1 + to_number t.0.shutdown_done)

  pub startup-Balanced :
      Counts
      → (r : HttpRuntime W) (w : W) (ctx : Context) → Has r
      → Balanced (r, w) ((startup ctx (r, w)).0, (startup ctx (r, w)).1)
  unfolding startup
  startup-Balanced c r w ctx h = elim (Option-cases (run_startup_hooks r.startup_hooks ctx w).1) [
    | inl fine ↦ ground (arith, c.keeps ctx w)
    | inr (error, failed) ↦
        let w₁ = (run_startup_hooks r.startup_hooks ctx w).0 in
        ground (arith, c.keeps ctx w, shutdown-counts c r w₁ ctx h)
  ]

  step-Balanced :
      Counts → (call : Call) (s : HttpRuntime W × W) → Has s.0 → Balanced s (step call s)
  unfolding step begin_shutdown
  step-Balanced c (startup_call ctx) (r, w) h = startup-Balanced c r w ctx h
  step-Balanced c (shutdown_call ctx) (r, w) h = ground (arith, shutdown-counts c r w ctx h)
  step-Balanced c begin_call (r, w) h = (h, refl)

  run-Balanced :
      Counts → (calls : List Call) (s : HttpRuntime W × W) → Has s.0 → Balanced s (run calls s)
  unfolding run
  run-Balanced c [] s h = (h, refl)
  run-Balanced c (call ∷ calls) s h =
      let one = step-Balanced c call s h in
      let rest = run-Balanced c calls (step call s) one.0 in (rest.0, omega (arith, one.1, rest.1))

  -- In any sequence of Startup, BeginShutdown and Shutdown calls on a runtime that has not been shut
  -- down, the rollbacks of failed startups included, the shutdown hooks run once if shutdownOnce is
  -- spent at the end, and not at all otherwise.
  pub run-shutdown_count :
      Counts
      → (calls : List Call) (r : HttpRuntime W) (w : W) → Has r
      → r.shutdown_done ≡ false
      → f (run calls (r, w)).1 ≡ f w + to_number (run calls (r, w)).0.shutdown_done
  run-shutdown_count c calls r w h fresh = ground (arith, run-Balanced c calls (r, w) h)
