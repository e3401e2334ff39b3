-- ===== src/Core.antt =====
-- The package mac-central/src/core.
pub mod Plugin
pub mod Events
pub mod EventBus
pub mod HotReload
pub mod Container
