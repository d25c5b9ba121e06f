-- ===== src/Telemetry/Otel/Restored.antt =====
-- The global provider of OpenTelemetry behind the set-ups and shutdowns of go/telemetry/otel.go.
use dense_cloud.Prelude.{
  ◌==◌, ==_iff, Bool-cases, ℕ, ◌≡◌, refl, ◌⊎◌, inl, inr, true, false, not, ◌&&◌, Option, none, some,
  List, [], ◌∷◌, arith,
}
use dense_cloud.Golang.Errors.{Err, text, Result, ok, err, Result-cases}
use dense_cloud.Golang.Contexts.{Context, second}
use dense_cloud.Telemetry.Otel.{
  OTelConfig, Globals, OTelProvider, Sdk, is_loopback_otlp_endpoint, install, make_provider,
  init_otel_tracer, otel_shutdown_once, otel_shutdown,
}

module _ (sdk : Sdk) where
  -- InitOTelTracer leaves the global provider and propagator as they are, with no provider or an error,
  -- or it makes a provider the global one and notes the ones before; the latter only for a config that
  -- is enabled, and that is not insecure unless its endpoint is on the loopback.
  pub init_otel_tracer-cases :
      (cfg : OTelConfig) (globals : Globals)
      → (init_otel_tracer sdk cfg globals ≡ (globals, ok none))
        ⊎ ((e : Err) × (init_otel_tracer sdk cfg globals ≡ (globals, err e)))
        ⊎ ((provider : ℕ) × (cfg.enabled ≡ true)
            × ((cfg.insecure && not (is_loopback_otlp_endpoint sdk cfg.endpoint)) ≡ false)
            × (init_otel_tracer sdk cfg globals ≡ (
              (install sdk cfg provider globals).0,
              ok (some (install sdk cfg provider globals).1),
            )))
  unfolding init_otel_tracer
  init_otel_tracer-cases cfg globals = elim (Bool-cases cfg.enabled) [
    | inr q ↦ inl (rw q refl)
    | inl q ↦ elim (Bool-cases (cfg.insecure && not (is_loopback_otlp_endpoint sdk cfg.endpoint))) [
      | inl u ↦ inr (
          inl
            (text "insecure OTLP transport is only allowed for loopback endpoints", rw (q, u) refl))
      | inr u ↦ elim (Result-cases (make_provider sdk cfg)) [
        | inl (provider, m) ↦ inr (inr (provider, q, u, simp (q, u, m)))
        | inr (e, m) ↦ inr (inl (e, rw (q, u, m) refl))
      ]
    ]
  ]

  abbrev pub shut_down_if_made : Context → Globals → Result (Option OTelProvider) → Globals
  unfolding otel_shutdown
  shut_down_if_made ctx globals (err e) = globals
  shut_down_if_made ctx globals (ok p) = (otel_shutdown sdk ctx globals p).0

  -- Tracers that are set up one within the other: the last one is shut down first.
  unfoldable pub nest : Context → List OTelConfig → Globals → Globals
  unfolding init_otel_tracer
  nest ctx [] globals = globals
  nest ctx (cfg ∷ cfgs) globals =
      let (globals₁, made) = init_otel_tracer sdk cfg globals in
      shut_down_if_made ctx (nest ctx cfgs globals₁) made

  -- Tracers of any configs that are set up one after the other, and then shut down in reverse order,
  -- leave the global provider and the global propagator of before, whichever of the set-ups were
  -- disabled or failed.
  pub nest-restores :
      (ctx : Context) (cfgs : List OTelConfig) (globals : Globals)
      → ((nest ctx cfgs globals).tracer_provider ≡ globals.tracer_provider)
        × ((nest ctx cfgs globals).propagator ≡ globals.propagator)
  unfolding nest otel_shutdown otel_shutdown_once install
  nest-restores ctx [] globals = (refl, refl)
  nest-restores ctx (cfg ∷ cfgs) globals = elim (init_otel_tracer-cases cfg globals) [
    | inl q ↦ rw q (nest-restores ctx cfgs globals)
    | inr (inl (e, q)) ↦ rw q (nest-restores ctx cfgs globals)
    | inr (inr (provider, enabled, allowed, q)) ↦
        let inner = nest-restores ctx cfgs (install sdk cfg provider globals).0 in
        rw
          (
            q,
            (==_iff (nest ctx cfgs (install sdk cfg provider globals).0).tracer_provider provider).1
                inner.0,
          )
          (refl, refl)
  ]

  -- A provider that has been shut down is not shut down again: another Shutdown, under any context and
  -- whatever the globals are by then, changes nothing, and has the error of the first.
  pub otel_shutdown-once :
      (ctx again : Context) (globals later : Globals) (p : OTelProvider)
      → let (after, p₁, error) = otel_shutdown sdk ctx globals (some p) in
        otel_shutdown sdk again later p₁ ≡ (later, p₁, error)
  unfolding otel_shutdown otel_shutdown_once
  otel_shutdown-once ctx again globals later p = elim (Bool-cases p.shutdown_done) [
    | inl q ↦ simp (q)
    | inr q ↦ simp (q)
  ]

  -- Two tracers that are shut down in the order in which they were set up leave the first one's
  -- provider as the global one, though it has been shut down.
  pub otel_shutdown-out_of_order :
      (ctx : Context) (cfg cfg' : OTelConfig) (first second : ℕ) (globals : Globals)
      → (second == first) ≡ false
      → let (globals₁, p) = install sdk cfg first globals in
        let (globals₂, p') = install sdk cfg' second globals₁ in
        let (globals₃, p₃, error) = otel_shutdown sdk ctx globals₂ (some p) in
        let (globals₄, p₄, error') = otel_shutdown sdk ctx globals₃ (some p') in
        (globals₄.tracer_provider ≡ first)
        × (globals₄.shut_down ≡ second ∷ first ∷ globals.shut_down)
  unfolding otel_shutdown otel_shutdown_once install
  otel_shutdown-out_of_order ctx cfg cfg' first second globals h =
      (ground (arith, h), ground (arith, h))
