-- ===== src/Server/HttpRuntime/Routed.antt =====
-- Where the ServeMux of the system routes of go/server/runtime.go sends /health/ready.
use Prim.Native.Char.{code}
use text.Mathlib.TextLemmas.{cons-append}
use dense_cloud.Prelude.{
  str_eq, if◌then◌else◌, if_both, String, ◌<>◌, ◌≡◌, refl, subst, Bool, true, false, ◌&&◌, ◌||◌,
  Option, none, some, List, arith,
}
use dense_cloud.Server.HttpRuntime.Prefix.{normalize_route_prefix, is_valid_route_prefix}
use dense_cloud.Golang.Strings.{
  is_slash, has_prefix, is_empty, starts_with_slash, trim_suffix_slash,
}
use dense_cloud.Server.HttpRuntime.Built.{bind-inversion, gives-injective, if_valid-inversion}
use dense_cloud.Server.HttpRuntime.Assembly.{
  MuxLibrary, HttpRuntimeConfig, is_path_in, health_paths, text_or_default, register_health,
  metrics_path_of, health_of, metrics_of,
}
use dense_cloud.Server.Health.Registry.{phase_live, phase_ready, HealthRegistry}
use dense_cloud.Server.Health.Endpoints.{HealthEndpoints, phase_endpoint, summary_endpoint}
use dense_cloud.Golang.NetHttp.{Headers, Request, HttpHandler}
use dense_cloud.Golang.Errors.{Attempt, gives, ◌>>=◌}
use dense_cloud.Telemetry.HttpMetrics.Render.{metrics_handler}
use dense_cloud.Telemetry.HttpMetrics.{HttpMetrics, HttpRecorded}
use dense_cloud.Server.HttpRuntime.Construct.{
  Surroundings, register_metrics, prefix_error, health_routes, metrics_routes, system_routes,
}

-- A pattern of a path, without a method and a host; ServeMux refuses the empty pattern.
abbrev pub is_path_pattern : String → Bool
is_path_pattern pattern = starts_with_slash pattern || is_empty pattern

trim_suffix_slash-is_path_pattern :
    (s : String) → starts_with_slash s ≡ true → is_path_pattern (trim_suffix_slash s) ≡ true
unfolding trim_suffix_slash
trim_suffix_slash-is_path_pattern String.[] h = refl
trim_suffix_slash-is_path_pattern (String.◌∷◌ c s) h =
    if_both (λ (t : String). is_path_pattern t ≡ true) (is_slash (code c) && is_empty s) ""
      (String.◌∷◌ c (trim_suffix_slash s)) (λ q. refl) (λ q. ground (arith, h))

has_prefix-starts_with_slash : (s : String) → has_prefix s "/" ≡ true → starts_with_slash s ≡ true
unfolding has_prefix
has_prefix-starts_with_slash String.[] h = cc
has_prefix-starts_with_slash (String.◌∷◌ c s) h = ground (arith, h)

normalize_route_prefix-is_path_pattern :
    (prefix : String) → is_path_pattern (normalize_route_prefix prefix) ≡ true
unfolding normalize_route_prefix
normalize_route_prefix-is_path_pattern prefix =
    if_both (λ (t : String). is_path_pattern t ≡ true) (str_eq prefix "") "/"
      (trim_suffix_slash (if has_prefix prefix "/" then prefix else "/" <> prefix)) (λ q. refl)
      (λ q.
        trim_suffix_slash-is_path_pattern (if has_prefix prefix "/" then prefix else "/" <> prefix)
          (if_both (λ (t : String). starts_with_slash t ≡ true) (has_prefix prefix "/") prefix
            ("/" <> prefix) (λ h. has_prefix-starts_with_slash prefix h)
            (λ h. rw (cons-append "/" "" prefix) refl)))

module _ {M S : Type 0} where
  -- What a ServeMux promises of the health paths, on requests whose path is as the client wrote it:
  -- where `Routed mux path handler`, the path has been registered with that handler. No pattern of a
  -- path takes such a path over, since none is more specific.
  pub record ServesHealthPaths (lib : MuxLibrary M S) (Routed : M → String → HttpHandler S → Type 0)
      : Type 0 where
    pub routed_handle :
        (path : String) (handler : HttpHandler S) (mux later : M)
        → is_path_in health_paths path ≡ true
        → lib.handle path handler mux ≡ gives later
        → Routed later path handler
    pub routed_keep :
        (path pattern : String) (handler other : HttpHandler S) (mux later : M)
        → is_path_in health_paths path ≡ true
        → is_path_pattern pattern ≡ true
        → Routed mux path handler
        → lib.handle pattern other mux ≡ gives later
        → Routed later path handler
    pub routed_serve :
        (path : String) (handler : HttpHandler S) (mux : M) (r : Request) (headers : Headers)
        (s : S)
        → Routed mux path handler
        → r.path ≡ path
        → lib.serve_mux mux r headers s ≡ handler r headers s

  register_health-Routed :
      (lib : MuxLibrary M S) (Routed : M → String → HttpHandler S → Type 0)
      (health : HealthEndpoints S) (mux later : M)
      → ServesHealthPaths lib Routed
      → register_health lib health mux ≡ gives later
      → Routed later "/health/ready" (phase_endpoint health phase_ready)
  unfolding register_health
  register_health-Routed lib Routed health mux later serves e =
      let (mux₁, _, e₁) =
        bind-inversion (lib.handle "/health" (summary_endpoint health) mux) _ later e in
      let (mux₂, _, e₂) =
        bind-inversion (lib.handle "/health/live" (phase_endpoint health phase_live) mux₁) _ later
          e₁ in
      let (mux₃, made, e₃) =
        bind-inversion (lib.handle "/health/ready" (phase_endpoint health phase_ready) mux₂) _ later
          e₂ in
      serves.routed_keep "/health/ready" "/health/startup" _ _ mux₃ later refl refl
        (serves.routed_handle "/health/ready" _ mux₂ mux₃ refl made) e₃

module _ {M S : Type 0} (env : Surroundings M S) (kept : HealthRegistry)
    (Routed : M → String → HttpHandler (HttpRecorded × S) → Type 0) where
  -- The path goes to the readiness endpoint.
  abbrev pub IsRouted : M → Type 0
  IsRouted mux = Routed mux "/health/ready" (phase_endpoint (env.health kept) phase_ready)

  register_metrics-Routed :
      (metrics : Option HttpMetrics) (path : String) (health system : M × List String)
      → ServesHealthPaths env.lib Routed
      → is_path_pattern path ≡ true
      → IsRouted health.0
      → register_metrics env path metrics health ≡ gives system
      → IsRouted system.0
  unfolding register_metrics
  register_metrics-Routed none path health system serves pattern routed e =
      subst (λ (h : M × List String). IsRouted h.0) (gives-injective health system e) routed
  register_metrics-Routed (some m) path health system serves pattern routed e =
      let (mux, handled, made) =
        bind-inversion (env.lib.handle path (metrics_handler env.formats (some m)) health.0) _
          system e in
      subst (λ (h : M × List String). IsRouted h.0) (gives-injective _ system made)
        (serves.routed_keep "/health/ready" path _ _ health.0 mux refl pattern routed handled)

module _ {M S W : Type 0} (env : Surroundings M S)
    (Routed : M → String → HttpHandler (HttpRecorded × S) → Type 0) where
  health_routes-Routed :
      (cfg : HttpRuntimeConfig M (HttpRecorded × S) W) (health : M × List String)
      → ServesHealthPaths env.lib Routed
      → cfg.disable_health_routes ≡ false
      → health_routes env cfg ≡ gives health
      → IsRouted env (health_of cfg) Routed health.0
  unfolding health_routes health_of
  health_routes-Routed cfg health serves on e =
      let e₁ : (do
        mux ← register_health env.lib (env.health (health_of cfg)) env.lib.new_mux
        gives (mux, health_paths))
          ≡ gives health =
        rw on at e in
      let (mux, registered, made) =
        bind-inversion (register_health env.lib (env.health (health_of cfg)) env.lib.new_mux) _
          health e₁ in
      subst (λ (h : M × List String). IsRouted env (health_of cfg) Routed h.0)
        (gives-injective _ health made)
        (register_health-Routed env.lib Routed (env.health (health_of cfg)) env.lib.new_mux mux
          serves registered)

  metrics_routes-Routed :
      (cfg : HttpRuntimeConfig M (HttpRecorded × S) W) (health system : M × List String)
      → ServesHealthPaths env.lib Routed
      → IsRouted env (health_of cfg) Routed health.0
      → metrics_routes env cfg health ≡ gives system
      → IsRouted env (health_of cfg) Routed system.0
  unfolding metrics_routes
  metrics_routes-Routed cfg health system serves routed e =
      if_both
        (λ (o : Attempt (M × List String)).
          o ≡ gives system → IsRouted env (health_of cfg) Routed system.0)
        cfg.disable_metrics_route (gives health)
        (register_metrics env (metrics_path_of cfg) (metrics_of cfg) health)
        (λ q e.
          subst (λ (h : M × List String). IsRouted env (health_of cfg) Routed h.0)
            (gives-injective health system e) routed)
        (λ q e.
          register_metrics-Routed env (health_of cfg) Routed (metrics_of cfg) (metrics_path_of cfg)
            health system serves
            (normalize_route_prefix-is_path_pattern (text_or_default cfg.metrics_path "/metrics"))
            routed e)
        e

  pub system_routes-Routed :
      (cfg : HttpRuntimeConfig M (HttpRecorded × S) W) (system : M × List String)
      → ServesHealthPaths env.lib Routed
      → cfg.disable_health_routes ≡ false
      → system_routes env cfg ≡ gives system
      → IsRouted env (health_of cfg) Routed system.0
  unfolding system_routes
  system_routes-Routed cfg system serves on e =
      let (health, made, rest) = bind-inversion (health_routes env cfg) _ system e in
      let (valid, with_metrics) =
        if_valid-inversion (is_valid_route_prefix (metrics_path_of cfg))
          (prefix_error env "MetricsPath" (metrics_path_of cfg)) (metrics_routes env cfg health)
          system rest in
      metrics_routes-Routed cfg health system serves
        (health_routes-Routed cfg health serves on made) with_metrics
