-- ===== src/Middleware/Tests.antt =====
-- Runs of the middleware's models, and its theorems at them.
mod LimiterRuns
mod GrpcRuns
mod HttpRuns
mod HeaderRuns
