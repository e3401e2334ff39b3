-- ===== src/Pipeline/CentralOrchestrator.antt =====
-- mac-central/src/pipeline/central_orchestrator.py: `CentralOrchestrator` over the models of its parts.
-- The two queues are objects that the parts share: the queue to the VLM pipeline is the detection
-- processor's, and the commands that the pipeline sends go into the orchestrator's queue. What the
-- parts publish goes to the event bus in the same order. Loading a model is code of the engine, which
-- succeeds here.
mod State
pub mod Batching
pub mod Steps
pub mod Accounts
pub mod Flow
pub mod Engines
mod Tests
use neuro_pipeline.Prelude.{
  ℕ, suc, ◌+◌, String, Bool, true, false, List, [], ◌∷◌, ◌++◌, map, Option, none, some, str_eq,
  ◌==◌, ◌||◌, length, take, drop, if◌then◌else◌,
}
use neuro_pipeline.Prelude.Int.{ℤ}
use neuro_pipeline.Core.EventBus
use neuro_pipeline.Core.EventBus.{EventBus, StoreCall}
use neuro_pipeline.Observability.CircuitBreaker.{CircuitBreaker}
use neuro_pipeline.Inference.Engine.{BatchItem}
use neuro_pipeline.Pipeline.VlmPipeline
use neuro_pipeline.Pipeline.VlmPipeline.{
  Item, Vlm, VlmAnalysis, Services, ControlCommand, process_batch,
}
use neuro_pipeline.Pipeline.DetectionProcessor
use neuro_pipeline.Pipeline.DetectionProcessor.{
  DetectionProcessor, DetectionResult, VlmTriggerRule, ServerEvent, Parts, behavior_alert,
  anomaly_alert, detection, process, set_vlm_rules,
}
pub use neuro_pipeline.Pipeline.CentralOrchestrator.State.{
  Engine, Worker, stopped, collecting, processing, CentralOrchestrator, Given,
}
unfoldable pub use neuro_pipeline.Pipeline.CentralOrchestrator.State.{
  default_rule, rules_or_default, batch_size, init, is_there, set_inference_engine, set_rules,
  initialize,
}

event_of : ℕ → ServerEvent → EventBus.Event
event_of id (behavior_alert device e) = record {
  id = id;
  type = some "behavior_alert";
  device_id = some device;
  timestamp = some e.timestamp;
  detections = none;
}
event_of id (anomaly_alert device score now) = record {
  id = id;
  type = some "anomaly_alert";
  device_id = some device;
  timestamp = some now;
  detections = none;
}
event_of id (detection frame_id trace_id device boxes now) = record {
  id = id;
  type = some "detection";
  device_id = some device;
  timestamp = some now;
  detections = some (length boxes);
}

pub analysis_event : ℕ → VlmAnalysis → EventBus.Event
analysis_event id a = record {
  id = id;
  type = some "vlm_analysis";
  device_id = some a.device_id;
  timestamp = some a.timestamp;
  detections = some (length a.detections);
}

pub publish_each {ℓ} :
    {A : Type ℓ}
    → (ℕ → A → EventBus.Event)
    → (StoreCall → Bool)
    → ℕ
    → ℕ
    → List A
    → EventBus
    → EventBus
publish_each event fails now id [] b = b
publish_each event fails now id (e ∷ es) b =
    publish_each event fails now (suc id) es (EventBus.publish fails now (event id e) b).0

-- What was added to a list since it had this length.
abbrev pub since {ℓ} : {A : Type ℓ} → List A → List A → List A
since before after = drop (length before) after

module _ (decimal : ℕ → String) (fails : StoreCall → Bool) where
  pub process_detection :
      ℕ → DetectionProcessor.World → DetectionResult → CentralOrchestrator → CentralOrchestrator
  unfolding publish_each event_of
  process_detection id w result o =
      let p = process decimal w result o.detection_processor in
      record o {
        detection_processor = p;
        event_bus =
            publish_each event_of fails w.now id (since o.detection_processor.published p.published)
              o.event_bus;
      }

unfoldable pub send_command : ControlCommand → CentralOrchestrator → CentralOrchestrator
send_command c o = record o { command_queue = o.command_queue ++ (c ∷ []) }

unfoldable pub next_command :
    List ControlCommand → CentralOrchestrator → CentralOrchestrator × Option ControlCommand
next_command [] o = (o, none)
next_command (c ∷ cs) o = (record o { command_queue = cs }, some c)

-- The next command, or `none` where the call waits.
unfoldable pub get_pending_command :
    CentralOrchestrator → CentralOrchestrator × Option ControlCommand
unfolding next_command
get_pending_command o = next_command o.command_queue o

-- The type of an edge event: a number, or a name.
pub data EventType : Type 0 where
  number : ℕ → EventType
  name : String → EventType

pub data EdgeEffect : Type 0 where
  updates_metrics : String → EdgeEffect
  fires_edge_system_error : String → EdgeEffect

is_type : ℕ → String → String → EventType → Bool
is_type n upper lower (number m) = m == n
is_type n upper lower (name s) = str_eq s upper || str_eq s lower

-- What follows an event of a device; `check_and_fire` runs as a task of its own.
pub handle_edge_event : EventType → String → CentralOrchestrator → List EdgeEffect
unfolding is_type
handle_edge_event type device_id o =
    if is_type 1 "HEALTH_UPDATE" "health_update" type
    then updates_metrics device_id ∷ []
    else if is_type 2 "SYSTEM_ERROR" "system_error" type
    then if o.alert_manager then fires_edge_system_error device_id ∷ [] else []
    else []

engine_loaded : Option Engine → Bool
engine_loaded none = false
engine_loaded (some e) = e.loaded

pub is_ready : CentralOrchestrator → Bool
unfolding engine_loaded
is_ready o = engine_loaded o.inference_engine

pub get_recent_events : ℤ → String → CentralOrchestrator → List EventBus.Event
get_recent_events limit device_id o = EventBus.get_recent limit device_id o.event_bus

pub subscribe : CentralOrchestrator → CentralOrchestrator × ℕ
subscribe o = let (b, q) = EventBus.subscribe o.event_bus in (record o { event_bus = b }, q)

pub unsubscribe : ℕ → CentralOrchestrator → CentralOrchestrator
unsubscribe q o = record o { event_bus = EventBus.unsubscribe q o.event_bus }
