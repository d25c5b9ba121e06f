-- ===== src/Server/HttpRuntime/Construct.antt =====
-- NewHTTPRuntime and MustNewHTTPRuntime of go/server/runtime.go. A handler acts on the metrics that are
-- recorded and on the state `S`; `elapsed` and `decimal` are those of the metrics' middleware.
use dense_cloud.Prelude.{if◌then◌else◌, ℕ, String, ◌<>◌, Option, none, some, List, [], ◌∷◌, ◌++◌}
use dense_cloud.Golang.Errors.{Err, text, Attempt, gives, failed_with, crashed, ◌>>=◌, if_valid}
use dense_cloud.Golang.NetHttp.{HttpHandler, HttpMiddleware}
use dense_cloud.Telemetry.HttpMetrics.{HttpMetrics, HttpRecorded, metrics_middleware}
use dense_cloud.Telemetry.HttpMetrics.Render.{metrics_handler}
use dense_cloud.Telemetry.Text.{Formats}
use dense_cloud.Middleware.Http.Guards.{chain}
use dense_cloud.Middleware.Http.ContentType.{content_type_for_prefix}
use dense_cloud.Server.HttpPreset.{HttpMiddlewarePresetConfig, HttpOutside, default_http_middleware}
use dense_cloud.Server.HttpRuntime.Prefix.{is_valid_route_prefix}
use dense_cloud.Server.HttpRuntime.Assembly.{
  MuxLibrary, HttpExtension, HttpRuntimeConfig, AssembledHttpRuntime, health_paths,
  system_route_handler, mount_api_subrouter, register_health, register_extensions,
  extension_middleware, extension_startups, extension_shutdowns, extensions_of, api_base_path_of,
  metrics_path_of, health_of, metrics_of,
}
use dense_cloud.Server.Health.Endpoints.{HealthEndpoints}
use dense_cloud.Server.Health.Registry.{HealthRegistry}

-- `health` are the endpoints of the registry object that a runtime keeps, by what it starts with.
pub record Surroundings (M S : Type 0) : Type 0 where
  pub lib : MuxLibrary M (HttpRecorded × S)
  pub outside : HttpOutside (HttpRecorded × S)
  pub health : HealthRegistry → HealthEndpoints (HttpRecorded × S)
  pub formats : Formats
  pub elapsed : S → ℕ
  pub decimal : ℕ → String

module _ {M S : Type 0} (env : Surroundings M S) where
  unfoldable pub preset_middleware :
      Option HttpMiddlewarePresetConfig → HttpMiddleware (HttpRecorded × S)
  unfolding default_http_middleware chain
  preset_middleware none next = next
  preset_middleware (some preset) next = chain (default_http_middleware env.outside preset) next

  unfoldable pub metrics_around : Option HttpMetrics → HttpMiddleware (HttpRecorded × S)
  unfolding metrics_middleware
  metrics_around none next = next
  metrics_around (some m) next = metrics_middleware env.outside.size env.decimal env.elapsed m next

  -- `metrics != nil`
  unfoldable pub register_metrics :
      String → Option HttpMetrics → M × List String → Attempt (M × List String)
  register_metrics path none routes = gives routes
  register_metrics path (some m) (system, paths) = do
    mux ← env.lib.handle path (metrics_handler env.formats (some m)) system
    gives (mux, paths ++ path ∷ [])

  abbrev pub mux_or_new : Option M → M
  mux_or_new none = env.lib.new_mux
  mux_or_new (some mux) = mux

  abbrev pub prefix_error : String → String → Err
  prefix_error name prefix =
      text (name <> (" must not contain empty path segments: " <> env.lib.quoted prefix))

module _ {M S W : Type 0} (env : Surroundings M S) where
  -- The system mux, with the paths that it has: the health routes, and then the one of the metrics.
  unfoldable pub health_routes :
      HttpRuntimeConfig M (HttpRecorded × S) W → Attempt (M × List String)
  unfolding register_health
  health_routes cfg = if cfg.disable_health_routes then gives (env.lib.new_mux, []) else (do
    mux ← register_health env.lib (env.health (health_of cfg)) env.lib.new_mux
    gives (mux, health_paths))

  unfoldable pub metrics_routes :
      HttpRuntimeConfig M (HttpRecorded × S) W → M × List String → Attempt (M × List String)
  unfolding metrics_of register_metrics
  metrics_routes cfg routes =
      if cfg.disable_metrics_route
      then gives routes
      else register_metrics env (metrics_path_of cfg) (metrics_of cfg) routes

  unfoldable pub system_routes :
      HttpRuntimeConfig M (HttpRecorded × S) W → Attempt (M × List String)
  unfolding health_routes metrics_routes
  system_routes cfg = do
    health ← health_routes cfg
    if_valid (is_valid_route_prefix (metrics_path_of cfg))
        (prefix_error env "MetricsPath" (metrics_path_of cfg)) (metrics_routes cfg health)

  -- What surrounds the root mux of a request that no system route takes.
  unfoldable pub root_handler :
      HttpRuntimeConfig M (HttpRecorded × S) W → M → HttpHandler (HttpRecorded × S)
  unfolding chain content_type_for_prefix
  root_handler cfg root =
      chain cfg.root_middleware
        (content_type_for_prefix (api_base_path_of cfg) "application/json" (env.lib.serve_mux root))

  -- The handler of the runtime, for its system routes and its root mux.
  unfoldable pub assembled_handler :
      HttpRuntimeConfig M (HttpRecorded × S) W
      → M × List String
      → M
      → HttpHandler (HttpRecorded × S)
  unfolding system_route_handler root_handler
  assembled_handler cfg (system, paths) root = metrics_around env (metrics_of cfg) (
      preset_middleware env cfg.middleware_preset (
        system_route_handler (chain cfg.system_middleware (env.lib.serve_mux system)) paths
          (root_handler cfg root)))

  -- NewHTTPRuntime, with the extensions that are registered.
  unfoldable pub new_http_runtime :
      HttpRuntimeConfig M (HttpRecorded × S) W
      → List (HttpExtension M (HttpRecorded × S) W)
      → Attempt (AssembledHttpRuntime M (HttpRecorded × S) W)
  new_http_runtime cfg registered =
      let extensions = extensions_of cfg registered in
      if_valid (is_valid_route_prefix (api_base_path_of cfg))
        (prefix_error env "APIBasePath" (api_base_path_of cfg))
        (do
          system ← system_routes cfg
          muxes ←
              register_extensions env.lib extensions
                (mux_or_new env cfg.root_mux, mux_or_new env cfg.api_mux)
          root ←
              mount_api_subrouter env.lib (api_base_path_of cfg)
                (chain (cfg.api_middleware ++ extension_middleware extensions)
                  (env.lib.serve_mux muxes.1))
                muxes.0
          gives (record {
            handler = assembled_handler cfg system root;
            root_mux = root;
            api_mux = muxes.1;
            health = health_of cfg;
            metrics = metrics_of cfg;
            startup_hooks = cfg.startup_hooks ++ extension_startups extensions;
            shutdown_hooks = cfg.shutdown_hooks ++ extension_shutdowns extensions;
          }))

  -- MustNewHTTPRuntime panics on an error.
  unfoldable pub must_new_http_runtime :
      HttpRuntimeConfig M (HttpRecorded × S) W
      → List (HttpExtension M (HttpRecorded × S) W)
      → Attempt (AssembledHttpRuntime M (HttpRecorded × S) W)
  unfolding new_http_runtime
  must_new_http_runtime cfg extensions = elim (new_http_runtime cfg extensions) [
    | gives runtime ↦ gives runtime
    | failed_with error ↦ crashed
    | crashed ↦ crashed
  ]
