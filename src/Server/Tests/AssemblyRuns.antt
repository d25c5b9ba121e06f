-- ===== src/Server/Tests/AssemblyRuns.antt =====
-- A runtime that NewHTTPRuntime of go/server/runtime.go builds, and the theorems at it.
use dense_cloud.Prelude.{
  str_eq, if◌then◌else◌, if_both, any, pos, ℕ, suc, String, ◌≡◌, refl, subst, inl, Bool, false,
  Option, none, some, List, [], ◌∷◌, ◌++◌, arith, eq_iff,
}
use dense_cloud.Golang.Contexts.{background, seconds}
use dense_cloud.Golang.Errors.{Attempt, gives, failed_with, crashed}
use dense_cloud.Golang.NetHttp.{
  write_header, serve, unsent, sent_status, Request, HttpHandler, HttpMiddleware,
}
use dense_cloud.Telemetry.HttpMetrics.{HttpRecorded}
use dense_cloud.Telemetry.Tables.{no_requests}
use dense_cloud.Middleware.Http.Tracing.{Tracer}
use dense_cloud.Server.HttpPreset.{HttpOutside}
use dense_cloud.Server.HttpRuntime.Prefix.{normalize_route_prefix, is_valid_route_prefix}
use dense_cloud.Server.HttpRuntime.Assembly.{
  MuxLibrary, HttpRuntimeConfig, AssembledHttpRuntime, mount_api_subrouter, register_extensions,
  extensions_of, health_of,
}
use dense_cloud.Server.HttpRuntime.Construct.{Surroundings, system_routes, new_http_runtime}
use dense_cloud.Server.HttpRuntime.SystemPaths.{new_http_runtime-system_paths}
use dense_cloud.Server.HttpRuntime.Built.{gives-injective, with_consumer}
use dense_cloud.Golang.Strings.{has_prefix, trim_suffix_slash, contains_slashes}
use dense_cloud.Server.Health.Registry.{new_health_registry}
use dense_cloud.Server.Health.Execution.{new_execution, call_done}
use dense_cloud.Server.Health.Endpoints.{HealthEndpoints}
use dense_cloud.Server.HttpRuntime.Routed.{ServesHealthPaths}
use dense_cloud.Server.HttpRuntime.Readiness.{LeavesClosed, new_http_runtime-closed_readiness}

-- The state of a test: what is recorded, and the number of requests that reached a handler.
abbrev Handler : Type 0
Handler = HttpHandler (HttpRecorded × ℕ)

abbrev answer : ℕ → Handler
answer status r headers (recorded, n) = ((recorded, suc n), write_header status ∷ [], false)

-- A mux with exact patterns, and 404 for the other paths.
abbrev handler_at : String → List (String × Handler) → Option Handler
handler_at path [] = none
handler_at path (entry ∷ entries) =
    let rest = handler_at path entries in if str_eq entry.0 path then some entry.1 else rest

abbrev or_not_found : Option Handler → Handler
or_not_found none = answer 404
or_not_found (some handler) = handler

abbrev find : List (String × Handler) → Handler
find mux r headers s = or_not_found (handler_at r.path mux) r headers s

abbrev exact_library : MuxLibrary (List (String × Handler)) (HttpRecorded × ℕ)
exact_library = record {
  new_mux = [];
  handle = λ pattern handler mux.
      if any (λ (entry : String × Handler). str_eq entry.0 pattern) mux
      then crashed
      else gives (mux ++ (pattern, handler) ∷ []);
  serve_mux = find;
  strip_prefix = λ prefix next. next;
  redirect = λ url status. answer status;
  quoted = λ s. s;
}

abbrev untraced : Tracer (HttpRecorded × ℕ)
untraced = record {
  extract = λ ctx headers. ctx;
  start = λ ctx name s. (s, ctx, record { trace_id = none; span_id = none });
  inject = λ ctx. [];
  end_span = λ s. s;
}

abbrev plain_outside : HttpOutside (HttpRecorded × ℕ)
plain_outside = record {
  new_request_id = λ s. (s, "c4");
  json = λ code message. message;
  tracer = λ name. untraced;
  size = λ bytes. 1;
  split = λ addr. none;
  log = λ entry s. s;
}

-- A registry without checks that has never been started.
abbrev endpoints : HealthEndpoints (HttpRecorded × ℕ)
endpoints = record {
  registry = λ s. new_health_registry [];
  executions = λ s k. new_execution;
  set_executions = λ executions s. s;
  scheduler =
      λ ctx executions k call. record { executions = executions; ctx_err = none; wake = call_done };
  report_json = λ report. report.status;
  summary_json = λ summary. summary.status;
}

abbrev surroundings : Surroundings (List (String × Handler)) ℕ
surroundings = record {
  lib = exact_library;
  outside = plain_outside;
  health = λ kept. endpoints;
  formats = record { unsigned = λ n. "n"; signed = λ n. "n"; seconds = λ n. "s" };
  elapsed = λ n. 3;
  decimal = λ n. "2";
}

abbrev Config : Type 0
Config = HttpRuntimeConfig (List (String × Handler)) (HttpRecorded × ℕ) ℕ

abbrev plain : Config
plain = record {
  service_name = "";
  root_mux = none;
  api_mux = none;
  api_base_path = "";
  middleware_preset = some (record { tracer_name = ""; request_timeout = pos 0 });
  root_middleware = [];
  system_middleware = [];
  api_middleware = [];
  health = none;
  health_check_timeout = seconds 1;
  metrics = none;
  metrics_collectors = [];
  metrics_path = "";
  metrics_path_labeler = none;
  disable_health_routes = false;
  disable_metrics_route = false;
  disable_registered_extensions = false;
  startup_hooks = [];
  shutdown_hooks = [];
}

-- Root middleware that lets nothing through.
abbrev forbidding : HttpMiddleware (HttpRecorded × ℕ)
forbidding next r headers s = answer 403 r headers s

abbrev Runtime : Type 0
Runtime = AssembledHttpRuntime (List (String × Handler)) (HttpRecorded × ℕ) ℕ

abbrev nothing : Runtime
nothing = record {
  handler = answer 404;
  root_mux = [];
  api_mux = [];
  health = new_health_registry [];
  metrics = none;
  startup_hooks = [];
  shutdown_hooks = [];
}

abbrev built_or_nothing : Attempt Runtime → Runtime
built_or_nothing (gives runtime) = runtime
built_or_nothing (failed_with error) = nothing
built_or_nothing crashed = nothing

abbrev open_runtime : Runtime
open_runtime = built_or_nothing (new_http_runtime surroundings plain [])

abbrev closed_config : Config
closed_config = with_consumer (forbidding ∷ []) [] none none plain

abbrev closed_runtime : Runtime
closed_runtime = built_or_nothing (new_http_runtime surroundings closed_config [])

open_runtime_built : new_http_runtime surroundings plain [] ≡ gives open_runtime
unfolding new_http_runtime is_valid_route_prefix contains_slashes normalize_route_prefix
    trim_suffix_slash has_prefix system_routes register_extensions mount_api_subrouter extensions_of
open_runtime_built = refl

closed_runtime_built : new_http_runtime surroundings closed_config [] ≡ gives closed_runtime
unfolding new_http_runtime is_valid_route_prefix contains_slashes normalize_route_prefix
    trim_suffix_slash has_prefix system_routes register_extensions mount_api_subrouter extensions_of
closed_runtime_built = refl

abbrev get_health : Request
get_health = record {
  method = "GET";
  path = "/health/ready";
  headers = [];
  remote_addr = "10.0.0.1:4711";
  content_length = pos 0;
  body_limit = none;
  ctx = background;
  request_id = none;
}

abbrev fresh : HttpRecorded × ℕ
fresh = (record { in_flight = pos 0; tables = no_requests }, 0)

new_http_runtime-system_paths_example :
    open_runtime.handler get_health [] fresh ≡ closed_runtime.handler get_health [] fresh
new_http_runtime-system_paths_example =
    new_http_runtime-system_paths surroundings plain (forbidding ∷ []) [] none none [] []
      open_runtime closed_runtime get_health [] fresh open_runtime_built closed_runtime_built refl

abbrev get_item : Request
get_item = record get_health { path = "/v1/items/7" }

-- The mux of these tests does what a ServeMux promises.
abbrev is_taken : List (String × Handler) → String → Bool
is_taken mux pattern = any (λ (entry : String × Handler). str_eq entry.0 pattern) mux

handler_at-append :
    (path : String) (mux later : List (String × Handler)) (handler : Handler)
    → handler_at path mux ≡ some handler
    → handler_at path (mux ++ later) ≡ some handler
handler_at-append path [] later handler h = cc
handler_at-append path (entry ∷ mux) later handler h =
    ground (arith, handler_at-append path mux later handler)

handler_at-new :
    (path : String) (mux : List (String × Handler)) (handler : Handler)
    → is_taken mux path ≡ false
    → handler_at path (mux ++ (path, handler) ∷ []) ≡ some handler
handler_at-new path [] handler h = ground (arith, eq_iff path path)
handler_at-new path (entry ∷ mux) handler h = ground (arith, handler_at-new path mux handler)

handle-inversion :
    (pattern : String) (handler : Handler) (mux later : List (String × Handler))
    → exact_library.handle pattern handler mux ≡ gives later
    → (is_taken mux pattern ≡ false) × (mux ++ (pattern, handler) ∷ [] ≡ later)
handle-inversion pattern handler mux later e =
    if_both
      (λ (o : Attempt (List (String × Handler))).
        o ≡ gives later → (is_taken mux pattern ≡ false) × (mux ++ (pattern, handler) ∷ [] ≡ later))
      (is_taken mux pattern) crashed (gives (mux ++ (pattern, handler) ∷ []))
      (λ q e. absurd (ground (arith, e)))
      (λ q e. (q, gives-injective (mux ++ (pattern, handler) ∷ []) later e)) e

exact_library-ServesHealthPaths :
    ServesHealthPaths exact_library (λ mux path handler. handler_at path mux ≡ some handler)
exact_library-ServesHealthPaths = record {
  routed_handle = λ path handler mux later literal h.
      (let (free, made) = handle-inversion path handler mux later h in
        subst (λ (m : List (String × Handler)). handler_at path m ≡ some handler) made
          (handler_at-new path mux handler free));
  routed_keep = λ path pattern handler other mux later literal pattern_of_path routed h.
      (let (free, made) = handle-inversion pattern other mux later h in
        subst (λ (m : List (String × Handler)). handler_at path m ≡ some handler) made
          (handler_at-append path mux ((pattern, other) ∷ []) handler routed));
  routed_serve = λ path handler mux r headers s routed e. rw e (rw routed refl);
}

surroundings-LeavesClosed : LeavesClosed surroundings (health_of closed_config)
surroundings-LeavesClosed = record {
  by_recording = λ recorded other s. refl;
  by_preset = record {
    by_new_id = λ s closed. closed;
    by_start = λ tracer name ctx s closed. closed;
    by_inject = λ tracer ctx. tt;
  };
}

new_http_runtime-closed_readiness_example :
    (sent_status (serve unsent (closed_runtime.handler get_health [] fresh).1) ≡ 503)
    × ((closed_runtime.handler get_health [] fresh).2 ≡ false)
unfolding new_health_registry
new_http_runtime-closed_readiness_example =
    new_http_runtime-closed_readiness surroundings
      (λ mux path handler. handler_at path mux ≡ some handler) closed_config [] closed_runtime
      get_health [] fresh exact_library-ServesHealthPaths surroundings-LeavesClosed
      closed_runtime_built refl refl refl (inl refl)
