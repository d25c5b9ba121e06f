-- ===== src/Server/Tests.antt =====
-- The theorems about go/server at concrete inputs, and runs of its operations.
mod HealthRuns
mod ReleaseRuns
mod RunnerRuns
mod GrpcRuntimeRuns
mod AssemblyRuns
