-- ===== src/Observability.antt =====
-- The package observability: log redaction and metric series.
pub mod Redaction
pub mod Metrics
pub mod Tracing
pub mod Tests
