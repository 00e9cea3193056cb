-- ===== src/Telemetry.antt =====
-- The bridge from the agents' traces to OpenTelemetry, and the set-up of its providers.
pub mod Runtime
pub mod Bridge
pub mod Structure
pub mod Counts
pub mod Spans
