-- ===== src/Middleware/Http.antt =====
-- The HTTP middleware of go/middleware: http.go, tracing.go, and the middleware of ratelimit.go and
-- circuitbreaker.go. A handler that reads back its own calls of the writer is left out, and so are
-- Flush, Hijack and Push.
pub mod Writer
pub mod Guards
pub mod Identity
pub mod NewId
pub mod Cors
pub mod AllowedOrigins
pub mod ContentType
pub mod Tracing
pub mod Logging
pub mod Responses
pub mod RateLimited
pub mod Informational
