-- ===== src/Server/HttpRuntime/Assembly.antt =====
-- NewHTTPRuntime of go/server/runtime.go. Outside is net/http's ServeMux with StripPrefix and
-- Redirect. `S` is the state that the handlers act on, and `W` the one of the hooks.
use dense_cloud.Prelude.{
  str_eq, if◌then◌else◌, any, ℕ, String, ◌<>◌, Bool, Option, none, some, List, [], ◌∷◌, ◌++◌, map,
}
use dense_cloud.Golang.Strings.{trim_suffix_slash}
use dense_cloud.Golang.NetHttp.{Request, HttpHandler, HttpMiddleware}
use dense_cloud.Telemetry.HttpMetrics.{HttpMetrics, new_http_metrics}
use dense_cloud.Server.Hooks.{Hook}
use dense_cloud.Server.HttpPreset.{HttpMiddlewarePresetConfig}
use dense_cloud.Server.HttpRuntime.Prefix.{normalize_route_prefix, metrics_path_labeler_or_default}
use dense_cloud.Golang.Errors.{Attempt, gives, ◌>>=◌}
use dense_cloud.Server.Health.Registry.{
  phase_live, phase_ready, phase_startup, HealthRegistry, with_health_check_timeout,
  new_health_registry, set_health_check_timeout,
}
use dense_cloud.Server.Health.Endpoints.{HealthEndpoints, phase_endpoint, summary_endpoint}
use dense_cloud.Golang.Contexts.{Duration}
use dense_cloud.Server.Extensions.{runtime_extensions}

-- A ServeMux `M`: Handle panics on a pattern that is invalid or there already. `quoted` is %q of fmt.
pub record MuxLibrary (M S : Type 0) : Type 0 where
  pub new_mux : M
  pub handle : String → HttpHandler S → M → Attempt M
  pub serve_mux : M → HttpHandler S
  pub strip_prefix : String → HttpMiddleware S
  pub redirect : String → ℕ → HttpHandler S
  pub quoted : String → String

-- RuntimeExtension
pub record HttpExtension (M S W : Type 0) : Type 0 where
  pub register_routes : M × M → Attempt (M × M)
  pub api_middleware : List (HttpMiddleware S)
  pub startup : Hook W
  pub shutdown : Hook W

pub record HttpRuntimeConfig (M S W : Type 0) : Type 0 where
  pub service_name : String
  pub root_mux : Option M
  pub api_mux : Option M
  pub api_base_path : String
  pub middleware_preset : Option HttpMiddlewarePresetConfig
  pub root_middleware : List (HttpMiddleware S)
  pub system_middleware : List (HttpMiddleware S)
  pub api_middleware : List (HttpMiddleware S)
  pub health : Option HealthRegistry
  pub health_check_timeout : Duration
  pub metrics : Option HttpMetrics
  pub metrics_collectors : List (Option (String → String))
  pub metrics_path : String
  pub metrics_path_labeler : Option (Request → String)
  pub disable_health_routes : Bool
  pub disable_metrics_route : Bool
  pub disable_registered_extensions : Bool
  pub startup_hooks : List (Hook W)
  pub shutdown_hooks : List (Hook W)

-- The runtime; `health` is the registry that it starts with.
pub record AssembledHttpRuntime (M S W : Type 0) : Type 0 where
  pub handler : HttpHandler S
  pub root_mux : M
  pub api_mux : M
  pub health : HealthRegistry
  pub metrics : Option HttpMetrics
  pub startup_hooks : List (Hook W)
  pub shutdown_hooks : List (Hook W)

abbrev pub is_path_in : List String → String → Bool
is_path_in paths path = any (λ p. str_eq p path) paths

abbrev pub health_paths : List String
health_paths = "/health" ∷ "/health/live" ∷ "/health/ready" ∷ "/health/startup" ∷ []

abbrev pub text_or_default : String → String → String
text_or_default given default = if str_eq given "" then default else given

module _ {S : Type 0} where
  -- systemRouteHandler
  unfoldable pub system_route_handler : HttpHandler S → List String → HttpMiddleware S
  system_route_handler system [] next r headers s = next r headers s
  system_route_handler system (path ∷ paths) next r headers s =
      if is_path_in (path ∷ paths) r.path then system r headers s else next r headers s

module _ {M S : Type 0} (lib : MuxLibrary M S) where
  unfoldable pub mount_api_subrouter : String → HttpHandler S → M → Attempt M
  mount_api_subrouter prefix api_handler root =
      let trimmed = trim_suffix_slash prefix in
      if str_eq trimmed "" then lib.handle "/" api_handler root else (do
        root₁ ← lib.handle (trimmed <> "/") (lib.strip_prefix trimmed api_handler) root
        lib.handle trimmed (lib.redirect (trimmed <> "/") 307) root₁)

  -- RegisterHandlers of the health registry.
  unfoldable pub register_health : HealthEndpoints S → M → Attempt M
  unfolding summary_endpoint phase_endpoint
  register_health health mux = do
    mux₁ ← lib.handle "/health" (summary_endpoint health) mux
    mux₂ ← lib.handle "/health/live" (phase_endpoint health phase_live) mux₁
    mux₃ ← lib.handle "/health/ready" (phase_endpoint health phase_ready) mux₂
    lib.handle "/health/startup" (phase_endpoint health phase_startup) mux₃

  unfoldable pub register_extensions :
      {W : Type 0} → List (HttpExtension M S W) → M × M → Attempt (M × M)
  register_extensions [] muxes = gives muxes
  register_extensions (ext ∷ extensions) muxes = do
    muxes₁ ← ext.register_routes muxes
    register_extensions extensions muxes₁

module _ {M S W : Type 0} where
  -- The middleware and the hooks of extensions, in their order.
  abbrev pub extension_middleware : List (HttpExtension M S W) → List (HttpMiddleware S)
  extension_middleware [] = []
  extension_middleware (ext ∷ extensions) = ext.api_middleware ++ extension_middleware extensions

  abbrev pub extension_startups : List (HttpExtension M S W) → List (Hook W)
  extension_startups extensions = map (λ (ext : HttpExtension M S W). ext.startup) extensions

  abbrev pub extension_shutdowns : List (HttpExtension M S W) → List (Hook W)
  extension_shutdowns extensions = map (λ (ext : HttpExtension M S W). ext.shutdown) extensions

-- The extensions of a runtime, of the registered ones.
unfoldable pub extensions_of :
    {M S W : Type 0}
    → HttpRuntimeConfig M S W
    → List (HttpExtension M S W)
    → List (HttpExtension M S W)
extensions_of cfg registered =
    if cfg.disable_registered_extensions then [] else runtime_extensions registered

-- The prefixes of a configuration.
abbrev pub api_base_path_of : {M S W : Type 0} → HttpRuntimeConfig M S W → String
api_base_path_of cfg = normalize_route_prefix (text_or_default cfg.api_base_path "/v1")

abbrev pub metrics_path_of : {M S W : Type 0} → HttpRuntimeConfig M S W → String
metrics_path_of cfg = normalize_route_prefix (text_or_default cfg.metrics_path "/metrics")

-- The registry of a configuration, or a new one, with the timeout of its checks.
unfoldable pub health_of : {M S W : Type 0} → HttpRuntimeConfig M S W → HealthRegistry
unfolding new_health_registry with_health_check_timeout set_health_check_timeout
health_of cfg = elim cfg.health [
  | none ↦ new_health_registry (some (with_health_check_timeout cfg.health_check_timeout) ∷ [])
  | some registry ↦ set_health_check_timeout cfg.health_check_timeout registry
]

-- The metrics that are made where the configuration has none.
unfoldable pub made_metrics : {M S W : Type 0} → HttpRuntimeConfig M S W → HttpMetrics
unfolding normalize_route_prefix new_http_metrics metrics_path_labeler_or_default
made_metrics cfg =
    (new_http_metrics (record {
      service_name = text_or_default cfg.service_name "dense-service";
      buckets = [];
      ignore_paths = health_paths ++ metrics_path_of cfg ∷ [];
      path_labeler = some (
          metrics_path_labeler_or_default cfg.metrics_path_labeler (api_base_path_of cfg)
            (metrics_path_of cfg));
      collectors = cfg.metrics_collectors;
    })).0

unfoldable pub metrics_of : {M S W : Type 0} → HttpRuntimeConfig M S W → Option HttpMetrics
unfolding made_metrics
metrics_of cfg = elim cfg.metrics [
  | some m ↦ some m
  | none ↦ if cfg.disable_metrics_route then none else some (made_metrics cfg)
]
