-- ===== src/Pipeline/CentralOrchestrator/Engines.antt =====
-- The engine of central_orchestrator.py, of which its parts hold a reference each.
use neuro_pipeline.Prelude.{◌≡◌}
use neuro_pipeline.Pipeline.DetectionProcessor.{DetectionProcessor}
use neuro_pipeline.Pipeline.CentralOrchestrator.{CentralOrchestrator, is_there}
use neuro_pipeline.Pipeline.DetectionProcessor
use neuro_pipeline.Pipeline.VlmPipeline

-- The three references are to one engine, and the processor asks for analyses if there is one.
pub record IsShared (o : CentralOrchestrator) : Type 0 where
  pub processor : o.processor_engine ≡ o.inference_engine
  pub pipeline : o.pipeline_engine ≡ o.inference_engine
  pub part : o.detection_processor.parts.inference_engine ≡ is_there o.inference_engine
