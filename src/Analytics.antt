-- ===== src/Analytics.antt =====
-- mac-central/src/analytics.
pub mod ReIdEngine
