-- ===== src/Server/Health.antt =====
-- The health registry of go/server/health.go.
pub mod Execution
pub mod SingleFlight
pub mod Release
pub mod Registry
pub mod Registration
pub mod Invariant
pub mod Evaluate
pub mod Readiness
pub mod Shutdown
pub mod Stores
pub mod Soundness
pub mod Summary
pub mod Endpoints
