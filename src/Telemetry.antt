-- ===== src/Telemetry.antt =====
-- The package go/telemetry.
pub mod Histogram
pub mod GrpcMetrics
pub mod HttpMetrics
pub mod Keys
pub mod Labels
pub mod Logger
pub mod Lines
pub mod Order
pub mod Otel
pub mod Tables
pub mod Text
mod MetricsRuns
mod OtelRuns
