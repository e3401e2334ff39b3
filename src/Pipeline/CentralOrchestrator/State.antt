-- ===== src/Pipeline/CentralOrchestrator/State.antt =====
-- mac-central/src/pipeline/central_orchestrator.py: the state of the orchestrator, its constructor and
-- the changes of its engine and rules.
use neuro_pipeline.Prelude.{ℕ, String, Bool, true, false, List, [], ◌∷◌, Option, none, some}
use neuro_pipeline.Core.EventBus
use neuro_pipeline.Core.EventBus.{EventBus, StoreCall}
use neuro_pipeline.Observability.CircuitBreaker.{CircuitBreaker}
use neuro_pipeline.Pipeline.VlmPipeline
use neuro_pipeline.Pipeline.VlmPipeline.{
  Item, Vlm, VlmAnalysis, Services, ControlCommand, process_batch,
}
use neuro_pipeline.Pipeline.DetectionProcessor
use neuro_pipeline.Pipeline.DetectionProcessor.{
  DetectionProcessor, DetectionResult, VlmTriggerRule, ServerEvent, Parts, behavior_alert,
  anomaly_alert, detection, process, set_vlm_rules,
}

-- The engine, by its number and whether its model is loaded.
pub record Engine : Type 0 where
  pub ident : ℕ
  pub loaded : Bool

-- The worker of the pipeline: not there, waiting for more items of a batch, or in the middle of the first
-- of the items that are left, with the results of the engine's batch call.
pub data Worker : Type 0 where
  stopped : Worker
  collecting : List Item → Worker
  processing : List Item → Option (List String) → Worker

pub record CentralOrchestrator : Type 0 where
  pub event_bus : EventBus
  pub detection_processor : DetectionProcessor
  pub vlm_pipeline : Vlm
  pub command_queue : List ControlCommand
  pub alert_manager : Bool
  pub inference_engine : Option Engine
  pub processor_engine : Option Engine
  pub pipeline_engine : Option Engine
  pub batch_max_size : ℕ
  pub worker : Worker
  pub discarded : List Item

-- The defaults of `VLMTriggerRule`; 0.8 is 8 tenths of the scale of confidences.
unfoldable pub default_rule : ℕ → VlmTriggerRule
default_rule tenth = record {
  class_name = "person";
  min_confidence = tenth;
  prompt_template = "person_behavior";
}

-- `vlm_rules or [VLMTriggerRule()]`
unfoldable pub rules_or_default : ℕ → List VlmTriggerRule → List VlmTriggerRule
rules_or_default confidence [] = default_rule confidence ∷ []
rules_or_default confidence (r ∷ rules) = r ∷ rules

-- The optional parts that are given to the constructor.
pub record Given : Type 0 where
  pub vlm_rules : List VlmTriggerRule
  pub detection_store : Bool
  pub circuit_breaker : CircuitBreaker
  pub alert_manager : Bool
  pub cloud_storage : Bool
  pub behavior_analyzer : Bool
  pub rag_retriever : Bool
  pub anomaly_baseline : Bool
  pub vlm_config_guide : Bool
  pub batch_max : Option ℕ

unfoldable pub batch_size : Option ℕ → ℕ
batch_size none = 8
batch_size (some n) = n

unfoldable pub init : ℕ → Given → CentralOrchestrator
unfolding rules_or_default default_rule batch_size
init default_confidence g = record {
  event_bus = EventBus.init g.detection_store 100;
  detection_processor =
      DetectionProcessor.init
        (record {
          behavior_analyzer = g.behavior_analyzer;
          anomaly_baseline = g.anomaly_baseline;
          alert_manager = g.alert_manager;
          inference_engine = false;
        })
        (rules_or_default default_confidence g.vlm_rules) 32;
  vlm_pipeline =
      VlmPipeline.init
        (record {
          alert_manager = g.alert_manager;
          cloud_storage = g.cloud_storage;
          rag_retriever = g.rag_retriever;
          vlm_config_guide = g.vlm_config_guide;
          command_queue = true;
        })
        g.circuit_breaker;
  command_queue = [];
  alert_manager = g.alert_manager;
  inference_engine = none;
  processor_engine = none;
  pipeline_engine = none;
  batch_max_size = batch_size g.batch_max;
  worker = stopped;
  discarded = [];
}

unfoldable pub is_there : Option Engine → Bool
is_there none = false
is_there (some e) = true

-- The setter of `inference_engine`, which passes the engine on to both parts.
unfoldable pub set_inference_engine : Option Engine → CentralOrchestrator → CentralOrchestrator
unfolding is_there
set_inference_engine engine o = record o {
  inference_engine = engine;
  processor_engine = engine;
  pipeline_engine = engine;
  detection_processor = record o.detection_processor {
    parts = record o.detection_processor.parts { inference_engine = is_there engine };
  };
}

unfoldable pub set_rules : List VlmTriggerRule → CentralOrchestrator → CentralOrchestrator
set_rules rules o = record o { detection_processor = set_vlm_rules rules o.detection_processor }

-- A new engine is made and loaded, and the worker is started.
unfoldable pub initialize : ℕ → CentralOrchestrator → CentralOrchestrator
unfolding set_inference_engine
initialize ident o =
    record (set_inference_engine (some (record { ident = ident; loaded = true })) o) {
      worker = collecting [];
    }
