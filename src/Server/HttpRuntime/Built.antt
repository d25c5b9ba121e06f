-- ===== src/Server/HttpRuntime/Built.antt =====
-- What NewHTTPRuntime of go/server/runtime.go has built when it returns a runtime.
use dense_cloud.Prelude.{
  if◌then◌else◌, Option-cases, if_both, String, ◌≡◌, refl, sym, ap, ◌∙◌, subst, inl, inr, Bool,
  true, false, Option, some, List, [], ◌∷◌, ◌++◌, append-nil, arith,
}
use dense_cloud.Golang.Errors.{Err, Attempt, gives, failed_with, crashed, ◌>>=◌, if_valid}
use dense_cloud.Golang.NetHttp.{HttpMiddleware}
use dense_cloud.Telemetry.HttpMetrics.{HttpMetrics, HttpRecorded}
use dense_cloud.Server.HttpRuntime.Assembly.{
  HttpExtension, HttpRuntimeConfig, AssembledHttpRuntime, health_paths, mount_api_subrouter,
  register_health, register_extensions, extension_middleware, extensions_of, api_base_path_of,
  metrics_path_of, health_of, made_metrics, metrics_of,
}
use dense_cloud.Server.HttpRuntime.Construct.{
  Surroundings, register_metrics, mux_or_new, prefix_error, health_routes, metrics_routes,
  system_routes, assembled_handler, new_http_runtime,
}
use dense_cloud.Server.HttpRuntime.Prefix.{is_valid_route_prefix}
use dense_cloud.Telemetry.HttpMetrics.Render.{metrics_handler}
use dense_cloud.Middleware.Http.Guards.{chain}

-- What a step needs, and the value that it goes on with.
pub bind-inversion :
    {A B : Type 0} (o : Attempt A) (f : A → Attempt B) (b : B)
    → (o >>= f) ≡ gives b
    → (a : A) × (o ≡ gives a) × (f a ≡ gives b)
bind-inversion (gives a) f b e = (a, refl, e)
bind-inversion (failed_with error) f b e = absurd (ground (arith, e))
bind-inversion crashed f b e = absurd (ground (arith, e))

or_value : {A : Type 0} → A → Attempt A → A
or_value a (gives b) = b
or_value a (failed_with error) = a
or_value a crashed = a

pub gives-injective : {A : Type 0} (a b : A) → gives a ≡ gives b → a ≡ b
unfolding or_value
gives-injective a b e = ap (or_value a) e

pub if_valid-inversion :
    {A : Type 0} (valid : Bool) (error : Err) (o : Attempt A) (a : A)
    → if_valid valid error o ≡ gives a
    → (valid ≡ true) × (o ≡ gives a)
if_valid-inversion true error o a e = (refl, e)
if_valid-inversion false error o a e = absurd (ground (arith, e))

module _ {M S W : Type 0} where
  -- The paths that are DenseCloud's own.
  abbrev pub system_paths : HttpRuntimeConfig M (HttpRecorded × S) W → List String
  system_paths cfg =
      (if cfg.disable_health_routes then [] else health_paths)
      ++ (if cfg.disable_metrics_route then [] else metrics_path_of cfg ∷ [])

  -- Other middleware and muxes around the API, with the rest of the configuration as it is.
  abbrev pub with_consumer :
      List (HttpMiddleware (HttpRecorded × S))
      → List (HttpMiddleware (HttpRecorded × S))
      → Option M
      → Option M
      → HttpRuntimeConfig M (HttpRecorded × S) W
      → HttpRuntimeConfig M (HttpRecorded × S) W
  with_consumer root_middleware api_middleware root_mux api_mux cfg = record cfg {
    root_middleware = root_middleware;
    api_middleware = api_middleware;
    root_mux = root_mux;
    api_mux = api_mux;
  }

module _ {M S W : Type 0} (env : Surroundings M S) where
  pub new_http_runtime-inversion :
      (cfg : HttpRuntimeConfig M (HttpRecorded × S) W)
      (registered : List (HttpExtension M (HttpRecorded × S) W))
      (runtime : AssembledHttpRuntime M (HttpRecorded × S) W)
      → new_http_runtime env cfg registered ≡ gives runtime
      → (system : M × List String) × (root : M) × (system_routes env cfg ≡ gives system)
        × (runtime.handler ≡ assembled_handler env cfg system root)
  unfolding new_http_runtime
  new_http_runtime-inversion cfg registered runtime e =
      let extensions = extensions_of cfg registered in
      let (valid, e₁) = if_valid-inversion _ _ _ runtime e in
      let (system, built, e₂) = bind-inversion _ _ runtime e₁ in
      let (muxes, registered, e₃) =
        bind-inversion
          (register_extensions env.lib extensions
            (mux_or_new env cfg.root_mux, mux_or_new env cfg.api_mux))
          _ runtime e₂ in
      let (root, mounted, e₄) =
        bind-inversion
          (mount_api_subrouter env.lib (api_base_path_of cfg)
            (chain (cfg.api_middleware ++ extension_middleware extensions)
              (env.lib.serve_mux muxes.1))
            muxes.0)
          _ runtime e₃ in
      (
        system,
        root,
        built,
        ap (λ (a : AssembledHttpRuntime M (HttpRecorded × S) W). a.handler)
            (sym (gives-injective _ runtime e₄)),
      )

  health_routes-paths :
      (cfg : HttpRuntimeConfig M (HttpRecorded × S) W) (health : M × List String)
      → health_routes env cfg ≡ gives health
      → health.1 ≡ (if cfg.disable_health_routes then [] else health_paths)
  unfolding health_routes
  health_routes-paths cfg health e =
      if_both
        (λ (o : Attempt (M × List String)).
          o ≡ gives health → health.1 ≡ (if cfg.disable_health_routes then [] else health_paths))
        cfg.disable_health_routes (gives (env.lib.new_mux, []))
        (do
          mux ← register_health env.lib (env.health (health_of cfg)) env.lib.new_mux
          gives (mux, health_paths))
        (λ q e. rw q (ap (λ (t : M × List String). t.1) (sym (gives-injective _ health e))))
        (λ q e.
          let (mux, registered, made) =
            bind-inversion (register_health env.lib (env.health (health_of cfg)) env.lib.new_mux) _
              health e in
          rw q (ap (λ (t : M × List String). t.1) (sym (gives-injective _ health made))))
        e

  metrics_of-some :
      (cfg : HttpRuntimeConfig M (HttpRecorded × S) W)
      → cfg.disable_metrics_route ≡ false
      → (m : HttpMetrics) × (metrics_of cfg ≡ some m)
  unfolding metrics_of
  metrics_of-some cfg q = elim (Option-cases cfg.metrics) [
    | inl e ↦ (made_metrics cfg, rw (e, q) refl)
    | inr (m, e) ↦ (m, rw e refl)
  ]

  metrics_routes-paths :
      (cfg : HttpRuntimeConfig M (HttpRecorded × S) W) (health system : M × List String)
      → metrics_routes env cfg health ≡ gives system
      → system.1 ≡ health.1 ++ (if cfg.disable_metrics_route then [] else metrics_path_of cfg ∷ [])
  unfolding metrics_routes register_metrics
  metrics_routes-paths cfg health system e =
      let path = metrics_path_of cfg in
      if_both
        (λ (o : Attempt (M × List String)).
          o ≡ gives system
          → system.1 ≡ health.1 ++ (if cfg.disable_metrics_route then [] else path ∷ []))
        cfg.disable_metrics_route (gives health) (register_metrics env path (metrics_of cfg) health)
        (λ q e.
          rw (q, append-nil health.1)
            (ap (λ (t : M × List String). t.1) (sym (gives-injective health system e))))
        (λ q e.
          let (m, found) = metrics_of-some cfg q in
          let made : register_metrics env path (some m) health ≡ gives system =
            subst (λ o. register_metrics env path o health ≡ gives system) found e in
          let (mux, handled, e₁) =
            bind-inversion (env.lib.handle path (metrics_handler env.formats (some m)) health.0) _
              system made in
          rw q (ap (λ (t : M × List String). t.1) (sym (gives-injective _ system e₁))))
        e

  pub system_routes-paths :
      (cfg : HttpRuntimeConfig M (HttpRecorded × S) W) (system : M × List String)
      → system_routes env cfg ≡ gives system
      → system.1 ≡ system_paths cfg
  unfolding system_routes
  system_routes-paths cfg system e =
      let (health, made, rest) = bind-inversion (health_routes env cfg) _ system e in
      let (valid, with_metrics) =
        if_valid-inversion (is_valid_route_prefix (metrics_path_of cfg))
          (prefix_error env "MetricsPath" (metrics_path_of cfg)) (metrics_routes env cfg health)
          system rest in
      metrics_routes-paths cfg health system with_metrics
      ∙ ap
          (λ (paths : List String).
            paths ++ (if cfg.disable_metrics_route then [] else metrics_path_of cfg ∷ []))
          (health_routes-paths cfg health made)
