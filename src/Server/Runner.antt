-- ===== src/Server/Runner.antt =====
-- Runner of go/server/runner.go: startup, the wait for an end, and the ordered shutdown.
pub mod Defs
pub mod Order
pub mod Blocking
