-- ===== src/Pipeline.antt =====
-- mac-central/src/pipeline: from a detection to the analysis of its image.
pub mod Detection
pub mod VlmData
pub mod DetectionProcessor
pub mod VlmPipeline
pub mod BehaviorAnalyzer
pub mod CentralOrchestrator
pub mod AnomalyBaseline
