-- ===== src/Server.antt =====
-- The package go/server.
pub mod Health
pub mod Hooks
pub mod Runner
pub mod HttpPreset
pub mod HttpRuntime
pub mod GrpcRuntime
pub mod Extensions
mod Tests
