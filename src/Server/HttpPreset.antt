-- ===== src/Server/HttpPreset.antt =====
-- go/server/http_preset.go. What the middleware takes from outside is a parameter: `json`, `size`,
-- `split`, `log` and `new_request_id` are those of Middleware.Http, and `tracer` is otel.Tracer.
use dense_cloud.Prelude.{str_eq, if◌then◌else◌, pos, ltb_ℤ, ℕ, String, Option, List, [], ◌∷◌, ◌++◌}
use dense_cloud.Golang.Contexts.{Duration}
use dense_cloud.Golang.NetHttp.{HttpMiddleware}
use dense_cloud.Middleware.Http.Guards.{request_timeout as limit_time, recovery}
use dense_cloud.Middleware.Http.Identity.{request_id}
use dense_cloud.Middleware.Http.Tracing.{Tracer, tracing}
use dense_cloud.Middleware.Http.Logging.{LogEntry, logging}

pub record HttpMiddlewarePresetConfig : Type 0 where
  pub tracer_name : String
  pub request_timeout : Duration

-- What the middleware takes from outside.
pub record HttpOutside (S : Type 0) : Type 0 where
  pub new_request_id : S → S × String
  pub json : String → String → String
  pub tracer : String → Tracer S
  pub size : String → ℕ
  pub split : String → Option String
  pub log : LogEntry → S → S

module _ {S : Type 0} where
  unfoldable pub default_http_middleware :
      HttpOutside S → HttpMiddlewarePresetConfig → List (HttpMiddleware S)
  default_http_middleware out cfg =
      let tracer_name = if str_eq cfg.tracer_name "" then "dense-service" else cfg.tracer_name in
      (request_id out.new_request_id ∷ recovery out.json ∷ [])
      ++ (if ltb_ℤ (pos 0) cfg.request_timeout then limit_time cfg.request_timeout ∷ [] else [])
      ++ tracing (out.tracer tracer_name) ∷ logging out.size out.split out.log ∷ []
