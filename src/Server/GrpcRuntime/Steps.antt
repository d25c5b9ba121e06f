-- ===== src/Server/GrpcRuntime/Steps.antt =====
-- What each operation of go/server/grpc_runtime.go does to the hooks and to the flags.
use dense_cloud.Prelude.{
  if◌then◌else◌, Bool-cases, Option-cases, ℕ, ◌+◌, String, ◌≡◌, refl, ap, ◌∙◌, inl, inr, Bool, true,
  false, Option, none, some, List, arith,
}
use dense_cloud.Golang.Errors.{Err, Result, ok, err}
use dense_cloud.Golang.Contexts.{Context, background}
use dense_cloud.Server.Hooks.{Hook, run_startup_hooks, run_shutdown_hooks}
use dense_cloud.Server.GrpcRuntime.{
  GrpcEffects, GrpcRuntime, is_stopped, set_serving, mark_shutting_down_locked, run_hooks_once,
  roll_back, grpc_startup, bind, prepare_listener, close_on_error, begin_serving, end_serving,
  grpc_stop, grpc_graceful_stop,
}

abbrev pub as_number : Bool → ℕ
as_number b = if b then 1 else 0

-- From one state to another the hooks stay the same, the count `f` rises with the flag of
-- shutdownHooksOnce, and
-- a shutdown and a start are not taken back.
abbrev pub Proceeds : {W : Type 0} → (W → ℕ) → GrpcRuntime W → W → GrpcRuntime W → W → Type 0
Proceeds f r w r₁ w₁ =
    (r₁.startup_hooks ≡ r.startup_hooks)
    × (r₁.shutdown_hooks ≡ r.shutdown_hooks)
    × (f w₁ + as_number r.hooks_done ≡ f w + as_number r₁.hooks_done)
    × (r.shutting_down ≡ true → r₁.shutting_down ≡ true)
    × (r.serve_attempt ≡ true → r₁.serve_attempt ≡ true)

-- A shutdown has begun, and its hooks have run.
abbrev pub IsDown : {W : Type 0} → GrpcRuntime W → Type 0
IsDown r = (r.shutting_down ≡ true) × (r.hooks_done ≡ true)

module _ {W : Type 0} (f : W → ℕ) (effects : GrpcEffects W)
    (startup_hooks shutdown_hooks : List (Hook W)) where
  -- `f` counts the runs of the shutdown hooks: they raise it by one together, and neither a startup
  -- hook nor the server, its health service or the listener changes it.
  pub record GrpcCounts : Type 0 where
    pub keeps : (ctx : Context) (w : W) → f (run_startup_hooks startup_hooks ctx w).0 ≡ f w
    pub counts :
        (ctx : Context) (w : W) (first : Option Err)
        → f (run_shutdown_hooks shutdown_hooks ctx w first).0 ≡ f w + 1
    pub status_keeps :
        (service : String) (serving : Bool) (w : W)
        → f (effects.set_serving_status service serving w) ≡ f w
    pub health_keeps : (w : W) → f (effects.health_shutdown w) ≡ f w
    pub stop_keeps : (w : W) → f (effects.server_stop w) ≡ f w
    pub graceful_keeps : (w : W) → f (effects.server_graceful_stop w) ≡ f w
    pub close_keeps : (w : W) → f (effects.close_listener w) ≡ f w

  set_serving-keeps :
      GrpcCounts
      → (serving : Bool) (r : GrpcRuntime W) (w : W) → f (set_serving effects serving r w) ≡ f w
  unfolding set_serving
  set_serving-keeps c serving r w = ground (
    arith,
    c.status_keeps "" serving w,
    c.status_keeps r.service_name serving (effects.set_serving_status "" serving w),
  )

  run_hooks_once-Proceeds :
      GrpcCounts
      → (ctx : Context) (r : GrpcRuntime W) (w : W) → r.shutdown_hooks ≡ shutdown_hooks
      → let (r₁, w₁, e) = run_hooks_once effects ctx (r, w) in
        Proceeds f r w r₁ w₁ × (r₁.hooks_done ≡ true) × (r₁.shutting_down ≡ r.shutting_down)
  unfolding run_hooks_once
  run_hooks_once-Proceeds c ctx r w h = ground (arith, c.counts ctx w r.shutdown_error)

  mark_shutting_down_locked-Proceeds :
      GrpcCounts
      → (r : GrpcRuntime W) (w : W)
      → let (r₁, w₁) = mark_shutting_down_locked effects (r, w) in
        Proceeds f r w r₁ w₁ × (r₁.shutting_down ≡ true)
  unfolding mark_shutting_down_locked
  mark_shutting_down_locked-Proceeds c r w = ground (arith, c.health_keeps w)

  -- Mark, an effect that the count does not see, and the hooks.
  down :
      GrpcCounts
      → (ctx : Context) (r : GrpcRuntime W) (w v : W) → r.shutdown_hooks ≡ shutdown_hooks
      → f v ≡ f (mark_shutting_down_locked effects (r, w)).1
      → let (r₁, w₁, e) =
          run_hooks_once effects ctx ((mark_shutting_down_locked effects (r, w)).0, v) in
        Proceeds f r w r₁ w₁ × IsDown r₁
  down c ctx r w v h q =
      let (p, marked) = mark_shutting_down_locked-Proceeds c r w in
      let r₁ = (mark_shutting_down_locked effects (r, w)).0 in
      let (p', done, same) = run_hooks_once-Proceeds c ctx r₁ v (p.1 ∙ h) in
      (
        (
          p'.0 ∙ p.0,
          p'.1 ∙ p.1,
          omega (arith, p.2, p'.2, q),
          (λ t. p'.3 (p.3 t)),
          (λ t. p'.4 (p.4 t)),
        ),
        (same ∙ marked, done),
      )

  grpc_startup-Proceeds :
      GrpcCounts
      → (ctx : Context) (r : GrpcRuntime W) (w : W) → r.startup_hooks ≡ startup_hooks
      → r.shutdown_hooks ≡ shutdown_hooks
      → let (r₁, w₁, e) = grpc_startup effects ctx (r, w) in Proceeds f r w r₁ w₁
  unfolding grpc_startup roll_back
  grpc_startup-Proceeds c ctx r w g h =
      let w₁ = (run_startup_hooks r.startup_hooks ctx w).0 in
      elim (Option-cases (run_startup_hooks r.startup_hooks ctx w).1) [
        | inl fine ↦ ground (arith, c.keeps ctx w, set_serving-keeps c true r w₁)
        | inr (error, failed) ↦
            let d = down c ctx r w₁ (mark_shutting_down_locked effects (r, w₁)).1 h refl in
            ground (arith, c.keeps ctx w, d)
      ]

  pub prepare_listener-fields :
      (listened : Result String) (r : GrpcRuntime W)
      → let (r₁, e) = prepare_listener effects listened r in
        (r₁.startup_hooks ≡ r.startup_hooks)
        × (r₁.shutdown_hooks ≡ r.shutdown_hooks)
        × (r₁.hooks_done ≡ r.hooks_done)
        × (r₁.shutting_down ≡ r.shutting_down)
        × (r₁.serve_attempt ≡ true)
  unfolding prepare_listener bind
  prepare_listener-fields (err e) r = elim (Option-cases r.listener) [
    | inl q ↦ ground (arith, q)
    | inr (address, q) ↦ ground (arith, q)
  ]
  prepare_listener-fields (ok bound) r = elim (Option-cases r.listener) [
    | inl q ↦ ground (arith, q)
    | inr (address, q) ↦ ground (arith, q)
  ]

  -- What begin_serving does behind the listener.
  close_on_error-Proceeds :
      GrpcCounts
      → (r r₁ : GrpcRuntime W) (w w₁ : W) (e : Option Err) → Proceeds f r w r₁ w₁
      → let (r₂, w₂, e₂) = close_on_error effects (r₁, w₁, e) in Proceeds f r w r₂ w₂ × (r₂ ≡ r₁)
  close_on_error-Proceeds c r r₁ w w₁ none p = (p, refl)
  close_on_error-Proceeds c r r₁ w w₁ (some e) p =
      ((p.0, p.1, omega (arith, p.2, c.close_keeps w₁), p.3, p.4), refl)

  pub begin_serving-Proceeds :
      GrpcCounts
      → (listened : Result String) (r : GrpcRuntime W) (w : W) → r.startup_hooks ≡ startup_hooks
      → r.shutdown_hooks ≡ shutdown_hooks
      → let (r₁, w₁, e) = begin_serving effects listened (r, w) in
        Proceeds f r w r₁ w₁ × (r₁.serve_attempt ≡ true)
  unfolding begin_serving
  begin_serving-Proceeds c listened r w g h =
      let k = prepare_listener-fields listened r in
      elim (Option-cases (prepare_listener effects listened r).1) [
        | inl fine ↦
            let r₀ = (prepare_listener effects listened r).0 in
            let s = grpc_startup effects background (r₀, w) in
            let p = grpc_startup-Proceeds c background r₀ w (k.0 ∙ g) (k.1 ∙ h) in
            let q = close_on_error-Proceeds c r s.0 w s.1 s.2 (
              p.0 ∙ k.0,
              p.1 ∙ k.1,
              omega (arith, p.2, ap as_number k.2),
              (λ t. p.3 (k.3 ∙ t)),
              (λ t. p.4 k.4),
            ) in
            rw (begin_serving, fine)
              (q.0, ap (λ (x : GrpcRuntime W). x.serve_attempt) q.1 ∙ p.4 k.4)
        | inr (error, failed) ↦
            rw (begin_serving, failed)
              ((k.0, k.1, omega (arith, ap as_number k.2), (λ t. k.3 ∙ t), (λ t. k.4)), k.4)
      ]

  pub end_serving-Proceeds :
      GrpcCounts
      → (served : Option Err) (r : GrpcRuntime W) (w : W) → r.shutdown_hooks ≡ shutdown_hooks
      → let (r₁, w₁, e) = end_serving effects served (r, w) in
        Proceeds f r w r₁ w₁ × (is_stopped served ≡ false → IsDown r₁)
  unfolding end_serving
  end_serving-Proceeds c served r w h =
      let v = effects.close_listener w in
      let d = down c background r v (mark_shutting_down_locked effects (r, v)).1 h refl in
      let p = c.close_keeps w in
      elim (Bool-cases (is_stopped served)) [
        | inl q ↦ ground (arith, q)
        | inr q ↦ ground (arith, q, d, p)
      ]

  pub grpc_stop-Proceeds :
      GrpcCounts
      → (r : GrpcRuntime W) (w : W) → r.shutdown_hooks ≡ shutdown_hooks
      → let (r₁, w₁) = grpc_stop effects (r, w) in Proceeds f r w r₁ w₁ × IsDown r₁
  unfolding grpc_stop
  grpc_stop-Proceeds c r w h =
      let m = mark_shutting_down_locked effects (r, w) in
      down c background r w (effects.server_stop m.1) h (c.stop_keeps m.1)

  pub grpc_graceful_stop-Proceeds :
      GrpcCounts
      → (ctx : Context) (waited : Option Err) (r : GrpcRuntime W) (w : W)
      → r.shutdown_hooks ≡ shutdown_hooks
      → let (r₁, w₁, e) = grpc_graceful_stop effects ctx waited (r, w) in
        Proceeds f r w r₁ w₁ × IsDown r₁
  unfolding grpc_graceful_stop
  grpc_graceful_stop-Proceeds c ctx none r w h =
      let m = mark_shutting_down_locked effects (r, w) in
      down c ctx r w (effects.server_graceful_stop m.1) h (c.graceful_keeps m.1)
  grpc_graceful_stop-Proceeds c ctx (some error) r w h =
      let m = mark_shutting_down_locked effects (r, w) in
      let v = effects.server_graceful_stop m.1 in
      down c ctx r w (effects.server_stop v) h (c.stop_keeps v ∙ c.graceful_keeps m.1)
