-- ===== src/Server/HttpRuntime/Readiness.antt =====
-- What a client of the runtime that NewHTTPRuntime of go/server/runtime.go builds gets from
-- /health/ready while readiness is refused.
use dense_cloud.Prelude.{
  pos, String, ◌≡◌, refl, sym, ◌∙◌, subst, true, false, Option, none, some, List, [], ◌∷◌, arith,
}
use dense_cloud.Server.HttpRuntime.Routed.{ServesHealthPaths, IsRouted, system_routes-Routed}
use dense_cloud.Telemetry.HttpMetrics.{HttpMetrics, HttpRecorded, add_in_flight}
use dense_cloud.Server.HttpRuntime.Refusal.{
  Answers, AnswersPlainly, Keeps, default_http_middleware-Answers, metrics_middleware-Answers,
}
use dense_cloud.Server.HttpRuntime.Construct.{
  Surroundings, preset_middleware, metrics_around, root_handler, assembled_handler,
  new_http_runtime,
}
use dense_cloud.Server.HttpRuntime.Assembly.{
  HttpExtension, HttpRuntimeConfig, AssembledHttpRuntime, is_path_in, system_route_handler,
  health_of, metrics_of,
}
use dense_cloud.Server.Health.Registry.{phase_ready, HealthRegistry}
use dense_cloud.Server.Health.Endpoints.{
  write_health_json, phase_endpoint, IsClosed, phase_endpoint-closed,
}
use dense_cloud.Golang.NetHttp.{
  Headers, is_informational, serve, unsent, sent_status, Request, HttpHandler,
}
use dense_cloud.Server.HttpRuntime.SentStatus.{serve-status}
use dense_cloud.Server.HttpRuntime.Built.{new_http_runtime-inversion, system_routes-paths}
use dense_cloud.Server.HttpPreset.{HttpMiddlewarePresetConfig}
use dense_cloud.Middleware.Http.Guards.{chain}
use dense_cloud.Golang.Errors.{gives}
use dense_cloud.Middleware.Http.Responses.{IsPlain-LacksInformational}

-- What surrounds the handlers leaves readiness refused: what is recorded of requests does not touch
-- the registry, and neither request ids nor spans open it.
pub record LeavesClosed {M S : Type 0} (env : Surroundings M S) (kept : HealthRegistry)
    : Type 0 where
  pub by_recording :
      (recorded other : HttpRecorded) (s : S)
      → (env.health kept).registry (recorded, s) ≡ (env.health kept).registry (other, s)
  pub by_preset : Keeps (IsClosed (env.health kept)) env.outside

module _ {M S : Type 0} (env : Surroundings M S) (kept : HealthRegistry)
    (Routed : M → String → HttpHandler (HttpRecorded × S) → Type 0) where
  -- The system routes refuse.
  system_route_handler-Answers :
      (mux : M) (paths : List String) (next : HttpHandler (HttpRecorded × S))
      → ServesHealthPaths env.lib Routed
      → IsRouted env kept Routed mux
      → is_path_in paths "/health/ready" ≡ true
      → AnswersPlainly 503 "/health/ready"
          (IsClosed (env.health kept))
          (system_route_handler (env.lib.serve_mux mux) paths next)
  unfolding system_route_handler write_health_json is_informational
  system_route_handler-Answers mux [] next serves routed h r headers s e p =
      absurd (ground (arith, h))
  system_route_handler-Answers mux (path ∷ paths) next serves routed h r headers s e p =
      let taken : is_path_in (path ∷ paths) r.path ≡ true =
        subst (λ (x : String). is_path_in (path ∷ paths) x ≡ true) (sym e) h in
      let served =
        serves.routed_serve "/health/ready" (phase_endpoint (env.health kept) phase_ready) mux r
          headers s routed e in
      let (payload, s₁, refused) = phase_endpoint-closed (env.health kept) r headers s p in
      rw taken (rw served (rw refused (refl, refl, (refl, tt))))

module _ {M S : Type 0} (env : Surroundings M S) (kept : HealthRegistry) where
  preset_middleware-Answers :
      (preset : Option HttpMiddlewarePresetConfig) (next : HttpHandler (HttpRecorded × S))
      → LeavesClosed env kept
      → AnswersPlainly 503 "/health/ready" (IsClosed (env.health kept)) next
      → Answers 503 "/health/ready" (IsClosed (env.health kept)) (preset_middleware env preset next)
  unfolding preset_middleware
  preset_middleware-Answers none next leaves answers r headers s e p =
      let (status, safe, plain) = answers r headers s e p in
      (status, safe, IsPlain-LacksInformational (next r headers s).1 plain)
  preset_middleware-Answers (some preset) next leaves answers r headers s e p =
      default_http_middleware-Answers 503 "/health/ready" (IsClosed (env.health kept)) env.outside
        preset next leaves.by_preset answers r headers s e p

  metrics_around-Answers :
      (metrics : Option HttpMetrics) (next : HttpHandler (HttpRecorded × S))
      → LeavesClosed env kept
      → Answers 503 "/health/ready" (IsClosed (env.health kept)) next
      → Answers 503 "/health/ready" (IsClosed (env.health kept)) (metrics_around env metrics next)
  unfolding metrics_around
  metrics_around-Answers none next leaves answers = answers
  metrics_around-Answers (some m) next leaves answers =
      metrics_middleware-Answers 503 "/health/ready" (IsClosed (env.health kept)) env.outside.size
        env.decimal env.elapsed m next
        (λ recorded s p. rw (leaves.by_recording (add_in_flight (pos 1) recorded) recorded s) p)
        answers

module _ {M S W : Type 0} (env : Surroundings M S)
    (Routed : M → String → HttpHandler (HttpRecorded × S) → Type 0) where
  assembled_handler-Answers :
      (cfg : HttpRuntimeConfig M (HttpRecorded × S) W) (system : M × List String) (root : M)
      → ServesHealthPaths env.lib Routed
      → LeavesClosed env (health_of cfg)
      → IsRouted env (health_of cfg) Routed system.0
      → cfg.system_middleware ≡ []
      → is_path_in system.1 "/health/ready" ≡ true
      → Answers 503 "/health/ready"
          (IsClosed (env.health (health_of cfg)))
          (assembled_handler env cfg system root)
  unfolding assembled_handler chain health_of
  assembled_handler-Answers cfg system root serves leaves routed bare taken =
      let inside =
        system_route_handler-Answers env (health_of cfg) Routed system.0 system.1
          (root_handler env cfg root) serves routed taken in
      let plain : AnswersPlainly 503 "/health/ready" (IsClosed (env.health (health_of cfg))) (
          system_route_handler (chain cfg.system_middleware (env.lib.serve_mux system.0)) system.1
            (root_handler env cfg root)) =
        rw bare inside in
      metrics_around-Answers env (health_of cfg) (metrics_of cfg) _ leaves
        (preset_middleware-Answers env (health_of cfg) cfg.middleware_preset _ leaves plain)

  -- If the health routes are not disabled and no system middleware stands before them, then of every
  -- runtime that NewHTTPRuntime builds, whatever the consumer's middleware, muxes and extensions,
  -- a request to /health/ready gets the status 503 and ends without a panic, while its registry is
  -- not started or is shutting down; where the mux sends a health path to the handler that is
  -- registered for it, and what surrounds the handlers leaves readiness refused.
  pub new_http_runtime-closed_readiness :
      (cfg : HttpRuntimeConfig M (HttpRecorded × S) W)
      (extensions : List (HttpExtension M (HttpRecorded × S) W))
      (runtime : AssembledHttpRuntime M (HttpRecorded × S) W) (r : Request) (headers : Headers)
      (s : HttpRecorded × S)
      → ServesHealthPaths env.lib Routed
      → LeavesClosed env (health_of cfg)
      → new_http_runtime env cfg extensions ≡ gives runtime
      → cfg.disable_health_routes ≡ false
      → cfg.system_middleware ≡ []
      → r.path ≡ "/health/ready"
      → IsClosed (env.health (health_of cfg)) s
      → (sent_status (serve unsent (runtime.handler r headers s).1) ≡ 503)
        × ((runtime.handler r headers s).2 ≡ false)
  new_http_runtime-closed_readiness cfg extensions runtime r headers s serves leaves built on bare e
        closed =
      let (system, root, routes, handled) =
        new_http_runtime-inversion env cfg extensions runtime built in
      let routed = system_routes-Routed env Routed cfg system serves on routes in
      let taken : is_path_in system.1 "/health/ready" ≡ true =
        rw (system_routes-paths env cfg system routes) (rw on refl) in
      let (status, safe, final) =
        assembled_handler-Answers cfg system root serves leaves routed bare taken r headers s e
          closed in
      rw handled (
        (let sent =
              serve-status (assembled_handler env cfg system root r headers s).1 unsent ∙ status in
            rw sent refl),
        safe,
      )
