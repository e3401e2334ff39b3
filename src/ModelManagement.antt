-- ===== src/ModelManagement.antt =====
-- The package mac-central/src/model_management.
pub mod ModelRegistry
pub mod AbTest
pub mod VlmValidator
