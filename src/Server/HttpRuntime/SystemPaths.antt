-- ===== src/Server/HttpRuntime/SystemPaths.antt =====
-- The system routes of the handler that NewHTTPRuntime of go/server/runtime.go builds.
use dense_cloud.Prelude.{
  String, ◌≡◌, refl, sym, ap, ◌∙◌, subst, true, Option, none, some, List, [], ◌∷◌, arith,
}
use dense_cloud.Golang.Errors.{gives}
use dense_cloud.Golang.NetHttp.{Headers, Request, HttpHandler, HttpMiddleware}
use dense_cloud.Telemetry.HttpMetrics.{HttpMetrics, HttpRecorded}
use dense_cloud.Server.HttpRuntime.Assembly.{
  HttpExtension, HttpRuntimeConfig, AssembledHttpRuntime, is_path_in, system_route_handler,
  health_of, made_metrics, metrics_of,
}
use dense_cloud.Server.HttpRuntime.Construct.{
  Surroundings, preset_middleware, metrics_around, health_routes, metrics_routes, system_routes,
  root_handler, assembled_handler, new_http_runtime,
}
use dense_cloud.Server.HttpRuntime.Pathwise.{
  Agree, IsPathwise, chain-IsPathwise, default_http_middleware-ArePathwise,
  metrics_middleware-IsPathwise,
}
use dense_cloud.Server.HttpPreset.{HttpMiddlewarePresetConfig, default_http_middleware}
use dense_cloud.Middleware.Http.Guards.{chain}
use dense_cloud.Server.HttpRuntime.Built.{
  gives-injective, system_paths, with_consumer, new_http_runtime-inversion, system_routes-paths,
}

module _ {S : Type 0} where
  system_route_handler-Agree :
      (system f g : HttpHandler S) (paths : List String) (path : String)
      → is_path_in paths path ≡ true
      → Agree path (system_route_handler system paths f) (system_route_handler system paths g)
  unfolding system_route_handler
  system_route_handler-Agree system f g [] path h r headers s e = absurd (ground (arith, h))
  system_route_handler-Agree system f g (p ∷ paths) path h r headers s e =
      let taken : is_path_in (p ∷ paths) r.path ≡ true =
        subst (λ x. is_path_in (p ∷ paths) x ≡ true) (sym e) h in
      rw taken refl

module _ {M S : Type 0} (env : Surroundings M S) where
  metrics_around-IsPathwise :
      (metrics : Option HttpMetrics) → IsPathwise (metrics_around env metrics)
  unfolding metrics_around
  metrics_around-IsPathwise none path f g a = a
  metrics_around-IsPathwise (some m) path f g a =
      metrics_middleware-IsPathwise env.outside.size env.decimal env.elapsed m path f g a

  preset_middleware-IsPathwise :
      (preset : Option HttpMiddlewarePresetConfig) → IsPathwise (preset_middleware env preset)
  unfolding preset_middleware
  preset_middleware-IsPathwise none path f g a = a
  preset_middleware-IsPathwise (some preset) path f g a =
      chain-IsPathwise (default_http_middleware env.outside preset)
        (default_http_middleware-ArePathwise env.outside preset) path f g a

module _ {M S W : Type 0} (env : Surroundings M S) where
  with_consumer-system_routes :
      (root_middleware api_middleware : List (HttpMiddleware (HttpRecorded × S)))
      (root_mux api_mux : Option M) (cfg : HttpRuntimeConfig M (HttpRecorded × S) W)
      → system_routes env (with_consumer root_middleware api_middleware root_mux api_mux cfg)
        ≡ system_routes env cfg
  unfolding system_routes health_routes health_of metrics_routes metrics_of made_metrics
  with_consumer-system_routes root_middleware api_middleware root_mux api_mux cfg = refl

  assembled_handler-Agree :
      (cfg : HttpRuntimeConfig M (HttpRecorded × S) W)
      (root_middleware api_middleware : List (HttpMiddleware (HttpRecorded × S)))
      (root_mux api_mux : Option M) (system : M × List String) (root other : M) (path : String)
      → is_path_in system.1 path ≡ true
      → Agree path (assembled_handler env cfg system root) (
          assembled_handler env
            (with_consumer root_middleware api_middleware root_mux api_mux cfg)
            system
            other)
  unfolding assembled_handler metrics_of made_metrics
  assembled_handler-Agree cfg root_middleware api_middleware root_mux api_mux system root other path
        h =
      let cfg' = with_consumer root_middleware api_middleware root_mux api_mux cfg in
      let own = chain cfg.system_middleware (env.lib.serve_mux system.0) in
      let f = system_route_handler own system.1 (root_handler env cfg root) in
      let g = system_route_handler own system.1 (root_handler env cfg' other) in
      metrics_around-IsPathwise env (metrics_of cfg) path
        (preset_middleware env cfg.middleware_preset f)
        (preset_middleware env cfg.middleware_preset g)
        (preset_middleware-IsPathwise env cfg.middleware_preset path f g (
          system_route_handler-Agree own (root_handler env cfg root) (root_handler env cfg' other)
            system.1 path h))

  -- Two runtimes that are built from one configuration but for the consumer's side (other root and API
  -- middleware, other root and API muxes, other extensions) answer a request to a system path, which
  -- is a health path or the metrics path if they are not disabled, alike, whatever the state: with the
  -- same calls, the same new state and the same panic.
  pub new_http_runtime-system_paths :
      (cfg : HttpRuntimeConfig M (HttpRecorded × S) W)
      (root_middleware api_middleware : List (HttpMiddleware (HttpRecorded × S)))
      (root_mux api_mux : Option M)
      (extensions other_extensions : List (HttpExtension M (HttpRecorded × S) W))
      (a b : AssembledHttpRuntime M (HttpRecorded × S) W) (r : Request) (headers : Headers)
      (s : HttpRecorded × S)
      → new_http_runtime env cfg extensions ≡ gives a
      → new_http_runtime env
          (with_consumer root_middleware api_middleware root_mux api_mux cfg)
          other_extensions
        ≡ gives b
      → is_path_in (system_paths cfg) r.path ≡ true
      → a.handler r headers s ≡ b.handler r headers s
  new_http_runtime-system_paths cfg root_middleware api_middleware root_mux api_mux extensions
        other_extensions a b r headers s built other taken =
      let cfg' = with_consumer root_middleware api_middleware root_mux api_mux cfg in
      let (system, root, routes, handled) = new_http_runtime-inversion env cfg extensions a built in
      let (system', root', routes', handled') =
        new_http_runtime-inversion env cfg' other_extensions b other in
      let same : system' ≡ system = gives-injective system' system (
        sym routes'
        ∙ (with_consumer-system_routes root_middleware api_middleware root_mux api_mux cfg
            ∙ routes)) in
      let in_system : is_path_in system.1 r.path ≡ true =
        subst (λ paths. is_path_in paths r.path ≡ true)
          (sym (system_routes-paths env cfg system routes)) taken in
      ap (λ (f : HttpHandler (HttpRecorded × S)). f r headers s) handled
      ∙ (assembled_handler-Agree cfg root_middleware api_middleware root_mux api_mux system root
            root' r.path in_system r headers s refl
          ∙ (ap (λ (t : M × List String). assembled_handler env cfg' t root' r headers s) (sym same)
              ∙ ap (λ (f : HttpHandler (HttpRecorded × S)). f r headers s) (sym handled')))
