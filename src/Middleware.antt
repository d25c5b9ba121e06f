-- ===== src/Middleware.antt =====
-- The package go/middleware.
pub mod RateLimiter
pub mod Partitioned
pub mod Redis
pub mod CircuitBreaker
pub mod Grpc
pub mod Http
mod Tests
