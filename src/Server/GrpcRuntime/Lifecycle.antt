-- ===== src/Server/GrpcRuntime/Lifecycle.antt =====
-- What the lifecycle of go/server/grpc_runtime.go guarantees over a sequence of calls.
use dense_cloud.Prelude.{
  Option-cases, is_some, ℕ, ◌+◌, String, ◌≡◌, refl, ap, ◌∙◌, ◌⊎◌, inl, inr, true, false, Option,
  none, some, List, [], ◌∷◌, arith,
}
use dense_cloud.Golang.Errors.{Err, Result}
use dense_cloud.Golang.Contexts.{Context, background}
use dense_cloud.Server.Hooks.{Hook, run_startup_hooks}
use dense_cloud.Server.GrpcRuntime.{
  GrpcEffects, GrpcRuntime, is_stopped, mark_shutting_down_locked, run_hooks_once, roll_back,
  grpc_startup, prepare_listener, close_on_error, begin_serving, end_serving, grpc_stop,
  grpc_graceful_stop,
}
use dense_cloud.Server.GrpcRuntime.Steps.{
  as_number, Proceeds, IsDown, GrpcCounts, prepare_listener-fields, begin_serving-Proceeds,
  end_serving-Proceeds, grpc_stop-Proceeds, grpc_graceful_stop-Proceeds,
}

-- What happens to a runtime: the two parts of Start, Stop and GracefulStop.
pub data Event : Type 0 where
  begins : Result String → Event
  ends : Option Err → Event
  stops : Event
  stops_gracefully : Context → Option Err → Event

-- The events that end the service.
abbrev pub Closes : Event → Type 0
Closes (begins listened) = ⊥
Closes (ends served) = is_stopped served ≡ false
Closes stops = Unit
Closes (stops_gracefully ctx waited) = Unit

module _ {W : Type 0} (effects : GrpcEffects W) where
  unfoldable pub grpc_step : Event → GrpcRuntime W × W → GrpcRuntime W × W
  grpc_step (begins listened) s = let (r, w, e) = begin_serving effects listened s in (r, w)
  grpc_step (ends served) s = let (r, w, e) = end_serving effects served s in (r, w)
  grpc_step stops s = grpc_stop effects s
  grpc_step (stops_gracefully ctx waited) s =
      let (r, w, e) = grpc_graceful_stop effects ctx waited s in (r, w)

  unfoldable pub grpc_run : List Event → GrpcRuntime W × W → GrpcRuntime W × W
  grpc_run [] s = s
  grpc_run (event ∷ events) s = grpc_run events (grpc_step event s)

module _ {W : Type 0} (f : W → ℕ) (effects : GrpcEffects W)
    (startup_hooks shutdown_hooks : List (Hook W)) where
  grpc_step-Proceeds :
      GrpcCounts f effects startup_hooks shutdown_hooks
      → (event : Event) (r : GrpcRuntime W) (w : W) → r.startup_hooks ≡ startup_hooks
      → r.shutdown_hooks ≡ shutdown_hooks
      → Proceeds f r w (grpc_step effects event (r, w)).0 (grpc_step effects event (r, w)).1
  unfolding grpc_step
  grpc_step-Proceeds c (begins listened) r w g h =
      (begin_serving-Proceeds f effects startup_hooks shutdown_hooks c listened r w g h).0
  grpc_step-Proceeds c (ends served) r w g h =
      (end_serving-Proceeds f effects startup_hooks shutdown_hooks c served r w h).0
  grpc_step-Proceeds c stops r w g h =
      (grpc_stop-Proceeds f effects startup_hooks shutdown_hooks c r w h).0
  grpc_step-Proceeds c (stops_gracefully ctx waited) r w g h =
      (grpc_graceful_stop-Proceeds f effects startup_hooks shutdown_hooks c ctx waited r w h).0

  grpc_run-Proceeds :
      GrpcCounts f effects startup_hooks shutdown_hooks
      → (events : List Event) (r : GrpcRuntime W) (w : W) → r.startup_hooks ≡ startup_hooks
      → r.shutdown_hooks ≡ shutdown_hooks
      → Proceeds f r w (grpc_run effects events (r, w)).0 (grpc_run effects events (r, w)).1
  unfolding grpc_run
  grpc_run-Proceeds c [] r w g h = (refl, refl, refl, (λ t. t), (λ t. t))
  grpc_run-Proceeds c (event ∷ events) r w g h =
      let p = grpc_step-Proceeds c event r w g h in
      let (r₁, w₁) = grpc_step effects event (r, w) in
      let q = grpc_run-Proceeds c events r₁ w₁ (p.0 ∙ g) (p.1 ∙ h) in
      (q.0 ∙ p.0, q.1 ∙ p.1, omega (arith, p.2, q.2), (λ t. q.3 (p.3 t)), (λ t. q.4 (p.4 t)))

  -- Over any sequence of Start, Stop and GracefulStop on a fresh runtime, with other calls between
  -- the beginning of a Start and its end, the shutdown hooks run once if shutdownHooksOnce is spent
  -- in the end, and not at all otherwise.
  pub grpc_run-shutdown_count :
      GrpcCounts f effects startup_hooks shutdown_hooks
      → (events : List Event) (r : GrpcRuntime W) (w : W) → r.startup_hooks ≡ startup_hooks
      → r.shutdown_hooks ≡ shutdown_hooks
      → r.hooks_done ≡ false
      → f (grpc_run effects events (r, w)).1
        ≡ f w + as_number (grpc_run effects events (r, w)).0.hooks_done
  grpc_run-shutdown_count c events r w g h fresh =
      ground (arith, (grpc_run-Proceeds c events r w g h).2)

  grpc_step-IsDown :
      GrpcCounts f effects startup_hooks shutdown_hooks
      → (event : Event) (r : GrpcRuntime W) (w : W) → r.shutdown_hooks ≡ shutdown_hooks
      → Closes event
      → IsDown (grpc_step effects event (r, w)).0
  unfolding grpc_step
  grpc_step-IsDown c (begins listened) r w h closes = absurd closes
  grpc_step-IsDown c (ends served) r w h closes =
      (end_serving-Proceeds f effects startup_hooks shutdown_hooks c served r w h).1 closes
  grpc_step-IsDown c stops r w h closes =
      (grpc_stop-Proceeds f effects startup_hooks shutdown_hooks c r w h).1
  grpc_step-IsDown c (stops_gracefully ctx waited) r w h closes =
      (grpc_graceful_stop-Proceeds f effects startup_hooks shutdown_hooks c ctx waited r w h).1

  grpc_startup-hooks_done :
      (ctx : Context) (r : GrpcRuntime W) (w : W)
      → r.hooks_done ≡ true
      → (grpc_startup effects ctx (r, w)).0.hooks_done ≡ true
  unfolding grpc_startup roll_back run_hooks_once mark_shutting_down_locked
  grpc_startup-hooks_done ctx r w done =
      elim (Option-cases (run_startup_hooks r.startup_hooks ctx w).1) [
        | inl started ↦ ground arith
        | inr (error, failed) ↦ ground arith
      ]

  close_on_error-runtime :
      (r : GrpcRuntime W) (w : W) (error : Option Err)
      → (close_on_error effects (r, w, error)).0 ≡ r
  close_on_error-runtime r w none = refl
  close_on_error-runtime r w (some e) = refl

  begin_serving-hooks_done :
      (listened : Result String) (r : GrpcRuntime W) (w : W)
      → r.hooks_done ≡ true
      → (begin_serving effects listened (r, w)).0.hooks_done ≡ true
  unfolding begin_serving
  begin_serving-hooks_done listened r w done =
      let k = prepare_listener-fields f effects startup_hooks shutdown_hooks listened r in
      let r₀ = (prepare_listener effects listened r).0 in
      let still : r₀.hooks_done ≡ true = k.2 ∙ done in
      elim (Option-cases (prepare_listener effects listened r).1) [
        | inl fine ↦
            let (r₁, w₁, error) = grpc_startup effects background (r₀, w) in
            rw (begin_serving, fine)
              (ap (λ (x : GrpcRuntime W). x.hooks_done) (close_on_error-runtime r₁ w₁ error)
                ∙ grpc_startup-hooks_done background r₀ w still)
        | inr (error, failed) ↦ rw (begin_serving, failed) still
      ]

  -- The hooks are not forgotten.
  grpc_step-hooks_done :
      (event : Event) (r : GrpcRuntime W) (w : W)
      → r.hooks_done ≡ true
      → (grpc_step effects event (r, w)).0.hooks_done ≡ true
  unfolding grpc_step end_serving grpc_stop grpc_graceful_stop run_hooks_once
      mark_shutting_down_locked
  grpc_step-hooks_done (begins listened) r w done = begin_serving-hooks_done listened r w done
  grpc_step-hooks_done (ends served) r w done = ground arith
  grpc_step-hooks_done stops r w done = ground arith
  grpc_step-hooks_done (stops_gracefully ctx none) r w done = ground arith
  grpc_step-hooks_done (stops_gracefully ctx (some error)) r w done = ground arith

  grpc_run-hooks_done :
      (events : List Event) (r : GrpcRuntime W) (w : W)
      → r.hooks_done ≡ true
      → (grpc_run effects events (r, w)).0.hooks_done ≡ true
  unfolding grpc_run
  grpc_run-hooks_done [] r w done = done
  grpc_run-hooks_done (event ∷ events) r w done =
      let (r₁, w₁) = grpc_step effects event (r, w) in
      grpc_run-hooks_done events r₁ w₁ (grpc_step-hooks_done event r w done)

  -- Start of a runtime that is down: an error before Serve, and in the world nothing but the close of
  -- its listener.
  begin_serving-down :
      (listened : Result String) (r : GrpcRuntime W) (w : W)
      → r.shutting_down ≡ true
      → let (r₁, w₁, error) = begin_serving effects listened (r, w) in
        (is_some error ≡ true)
        × ((w₁ ≡ w) ⊎ (w₁ ≡ effects.close_listener w))
        × (r₁.hooks_done ≡ r.hooks_done)
        × (r₁.shutting_down ≡ true)
        × (r₁.serve_attempt ≡ true)
  unfolding begin_serving grpc_startup
  begin_serving-down listened r w closed =
      let k = prepare_listener-fields f effects startup_hooks shutdown_hooks listened r in
      elim (Option-cases (prepare_listener effects listened r).1) [
        | inl fine ↦
            let still : (prepare_listener effects listened r).0.shutting_down ≡ true =
              k.3 ∙ closed in
            rw (begin_serving, fine, grpc_startup, still) (refl, inr refl, k.2, still, k.4)
        | inr (error, failed) ↦ rw (begin_serving, failed) (refl, inl refl, k.2, k.3 ∙ closed, k.4)
      ]

  -- Behind a Stop, a GracefulStop, however its context ends, or a Serve that returned anything but
  -- ErrServerStopped, the shutdown hooks have run, once in all; and whatever is called then, a later
  -- Start returns an error without coming to Serve, runs no hook and leaves the runtime down: in the
  -- process nothing happens but that its listener may be closed.
  pub grpc_run-IsDown :
      GrpcCounts f effects startup_hooks shutdown_hooks
      → (event : Event) (events : List Event) (listened : Result String) (r : GrpcRuntime W) (w : W)
      → r.startup_hooks ≡ startup_hooks
      → r.shutdown_hooks ≡ shutdown_hooks
      → r.hooks_done ≡ false
      → Closes event
      → let (r₁, w₁) = grpc_step effects event (r, w) in
        let (r₂, w₂) = grpc_run effects events (r₁, w₁) in
        let (r₃, w₃, error) = begin_serving effects listened (r₂, w₂) in
        IsDown r₁
        × (f w₁ ≡ f w + 1)
        × (f w₂ ≡ f w + 1)
        × (is_some error ≡ true)
        × ((w₃ ≡ w₂) ⊎ (w₃ ≡ effects.close_listener w₂))
        × IsDown r₃
  grpc_run-IsDown c event events listened r w g h fresh closes =
      let d = grpc_step-IsDown c event r w h closes in
      let p = grpc_step-Proceeds c event r w g h in
      let (r₁, w₁) = grpc_step effects event (r, w) in
      let (r₂, w₂) = grpc_run effects events (r₁, w₁) in
      let q = grpc_run-Proceeds c events r₁ w₁ (p.0 ∙ g) (p.1 ∙ h) in
      let done = grpc_run-hooks_done events r₁ w₁ d.1 in
      let last = begin_serving-down listened r₂ w₂ (q.3 d.0) in
      (
        d,
        ground (arith, p.2, d.1, fresh),
        ground (arith, p.2, q.2, d.1, fresh, done),
        last.0,
        last.1,
        (last.3, last.2 ∙ done),
      )
