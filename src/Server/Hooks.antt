-- ===== src/Server/Hooks.antt =====
-- StartupHook and ShutdownHook of go/server/runner.go, and the two kinds of loop over them that the
-- runner and the runtimes share. `W` is the state of the application that the hooks act on; a hook
-- may be nil. A panic in a hook is left out.
use dense_cloud.Golang.Errors.{Err}
use dense_cloud.Golang.Contexts.{Context}
use dense_cloud.Prelude.{
  Option-cases, ◌≡◌, refl, sym, ◌∙◌, Option, none, some, List, [], ◌∷◌, ◌++◌, arith,
}

module _ (W : Type 0) where
  abbrev pub Action : Type 0
  Action = Context → W → W × Option Err

  abbrev pub Hook : Type 0
  Hook = Option (Context → W → W × Option Err)

-- `if firstErr == nil { firstErr = err }`
abbrev pub first_error : Option Err → Option Err → Option Err
first_error none error = error
first_error (some first) error = some first

abbrev pub head_error : List Err → Option Err
head_error [] = none
head_error (error ∷ rest) = some error

first_error-head_error :
    (first : Option Err) (xs ys : List Err)
    → first_error first (head_error (xs ++ ys))
      ≡ first_error (first_error first (head_error xs)) (head_error ys)
first_error-head_error none [] ys = refl
first_error-head_error none (x ∷ xs) ys = refl
first_error-head_error (some first) xs ys = refl

module _ {W : Type 0} where
  -- Stops at the first error.
  unfoldable pub run_startup_hooks : List (Hook W) → Context → W → W × Option Err
  run_startup_hooks [] ctx w = (w, none)
  run_startup_hooks (none ∷ hooks) ctx w = run_startup_hooks hooks ctx w
  run_startup_hooks (some hook ∷ hooks) ctx w = elim ((hook ctx w).1) [
    | none ↦ run_startup_hooks hooks ctx (hook ctx w).0
    | some error ↦ ((hook ctx w).0, some error)
  ]

  -- Runs all hooks, and keeps the first error.
  unfoldable pub run_shutdown_hooks : List (Hook W) → Context → W → Option Err → W × Option Err
  run_shutdown_hooks [] ctx w first = (w, first)
  run_shutdown_hooks (none ∷ hooks) ctx w first = run_shutdown_hooks hooks ctx w first
  run_shutdown_hooks (some hook ∷ hooks) ctx w first =
      run_shutdown_hooks hooks ctx (hook ctx w).0 (first_error first (hook ctx w).1)

  -- The specification: the actions in order, with the errors of all of them.
  abbrev pub present : List (Hook W) → List (Action W)
  present [] = []
  present (none ∷ hooks) = present hooks
  present (some hook ∷ hooks) = hook ∷ present hooks

  abbrev pub final_state : List (Action W) → Context → W → W
  final_state [] ctx w = w
  final_state (action ∷ actions) ctx w = final_state actions ctx (action ctx w).0

  abbrev pub errors : List (Action W) → Context → W → List Err
  errors [] ctx w = []
  errors (action ∷ actions) ctx w = elim ((action ctx w).1) [
    | none ↦ errors actions ctx (action ctx w).0
    | some error ↦ error ∷ errors actions ctx (action ctx w).0
  ]

  -- `first_error` before the errors of the actions behind it.
  abbrev pub outcome : Option Err → List (Action W) → Context → W → W × Option Err
  outcome first actions ctx w =
      (final_state actions ctx w, first_error first (head_error (errors actions ctx w)))

  pub errors-append :
      (xs ys : List (Action W)) (ctx : Context) (w : W)
      → errors (xs ++ ys) ctx w ≡ errors xs ctx w ++ errors ys ctx (final_state xs ctx w)
  errors-append [] ys ctx w = refl
  errors-append (x ∷ xs) ys ctx w =
      ground (arith, errors-append xs ys ctx (x ctx w).0, Option-cases ((x ctx w).1))

  pub final_state-append :
      (xs ys : List (Action W)) (ctx : Context) (w : W)
      → final_state (xs ++ ys) ctx w ≡ final_state ys ctx (final_state xs ctx w)
  final_state-append [] ys ctx w = refl
  final_state-append (x ∷ xs) ys ctx w = final_state-append xs ys ctx (x ctx w).0

  pub outcome-append :
      (first : Option Err) (xs ys : List (Action W)) (ctx : Context) (w : W)
      → outcome first (xs ++ ys) ctx w
        ≡ outcome (outcome first xs ctx w).1 ys ctx (outcome first xs ctx w).0
  outcome-append first xs ys ctx w = ground (
    arith,
    final_state-append xs ys ctx w,
    errors-append xs ys ctx w,
    first_error-head_error first (errors xs ctx w) (errors ys ctx (final_state xs ctx w)),
  )

  pub outcome-cons :
      (x : Action W) (xs : List (Action W)) (ctx : Context) (w : W) (first : Option Err)
      → outcome first (x ∷ xs) ctx w ≡ outcome (first_error first (x ctx w).1) xs ctx (x ctx w).0
  outcome-cons x xs ctx w none = ground (arith, Option-cases ((x ctx w).1))
  outcome-cons x xs ctx w (some error) = refl

  pub run_shutdown_hooks-outcome :
      (hooks : List (Hook W)) (ctx : Context) (w : W) (first : Option Err)
      → run_shutdown_hooks hooks ctx w first ≡ outcome first (present hooks) ctx w
  unfolding run_shutdown_hooks
  run_shutdown_hooks-outcome [] ctx w none = refl
  run_shutdown_hooks-outcome [] ctx w (some error) = refl
  run_shutdown_hooks-outcome (none ∷ hooks) ctx w first =
      run_shutdown_hooks-outcome hooks ctx w first
  run_shutdown_hooks-outcome (some hook ∷ hooks) ctx w first =
      run_shutdown_hooks-outcome hooks ctx (hook ctx w).0 (first_error first (hook ctx w).1)
      ∙ sym (outcome-cons hook (present hooks) ctx w first)

  pub run_startup_hooks_single :
      (hook : Action W) (ctx : Context) (w : W)
      → (run_startup_hooks (some hook ∷ []) ctx w).0 ≡ (hook ctx w).0
  unfolding run_startup_hooks
  run_startup_hooks_single hook ctx w = ground (arith, Option-cases ((hook ctx w).1))
