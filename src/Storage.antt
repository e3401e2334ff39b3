-- ===== src/Storage.antt =====
-- mac-central/src/storage: the detection store.
pub mod DetectionStore
pub mod Timeseries
