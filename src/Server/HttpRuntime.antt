-- ===== src/Server/HttpRuntime.antt =====
-- HTTPRuntime of go/server/runtime.go: route prefixes, assembly and lifecycle.
pub mod Prefix
pub mod Assembly
pub mod Construct
pub mod Pathwise
pub mod SystemPaths
pub mod SentStatus
pub mod Routed
pub mod Refusal
pub mod Readiness
pub mod Built
pub mod Lifecycle
pub mod Once
pub mod Application
