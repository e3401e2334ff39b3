-- ===== src/Observability.antt =====
-- The package mac-central/src/observability.
pub mod CircuitBreaker
pub mod Retry
pub mod Alerting
