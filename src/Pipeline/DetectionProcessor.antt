-- ===== src/Pipeline/DetectionProcessor.antt =====
-- mac-central/src/pipeline/detection_processor.py: `DetectionProcessor`. The behavior analyzer, the
-- anomaly baseline and the prompt generator answer through a `World`. The queue to the VLM pipeline
-- is an `asyncio.Queue`, which is never full if its `maxsize` is 0.
pub mod Rules
pub mod Enqueue
pub mod Queue
pub mod Published
pub mod Flow
mod Tests
use neuro_pipeline.Prelude.{
  ℕ, suc, String, Bool, true, false, not, ◌&&◌, List, [], ◌∷◌, ◌++◌, map, Option, none, some,
  str_eq, ltb, leb, any, length, if◌then◌else◌, ◌==◌,
}
use neuro_pipeline.Prelude.Text.{◌⊕◌}
use neuro_pipeline.Pipeline.Detection.{Detection}
use neuro_pipeline.Pipeline.VlmPipeline.{Item, has_bytes}

pub record VlmTriggerRule : Type 0 where
  pub class_name : String
  pub min_confidence : ℕ
  pub prompt_template : String

-- What an edge device sends; `trace_id` can be missing, and a `device_id` that is missing is empty.
pub record DetectionResult : Type 0 where
  pub frame_id : ℕ
  pub trace_id : Option String
  pub device_id : String
  pub boxes : List Detection
  pub frame_data : List ℕ

pub record BehaviorEvent : Type 0 where
  pub behavior_type : String
  pub confidence : ℕ
  pub description : String
  pub timestamp : ℕ

pub record AnomalyScore : Type 0 where
  pub is_anomaly : Bool
  pub value : ℕ
  pub z_score : ℕ
  pub baseline_mean : ℕ

-- What the other parts answer for a result: `none` where they raise.
pub record World : Type 0 where
  pub now : ℕ
  pub generate : List Detection → String → String
  pub analyze : Option (List BehaviorEvent)
  pub score : Option AnomalyScore

-- The events that are published.
pub data ServerEvent : Type 0 where
  behavior_alert : String → BehaviorEvent → ServerEvent
  anomaly_alert : String → AnomalyScore → ℕ → ServerEvent
  detection : ℕ → String → String → List Detection → ℕ → ServerEvent

-- Which of the optional parts are there.
pub record Parts : Type 0 where
  pub behavior_analyzer : Bool
  pub anomaly_baseline : Bool
  pub alert_manager : Bool
  pub inference_engine : Bool

-- The processor with its queue, and what it did: the events in their order, the requests that were
-- dropped, and the number of the calls of `check_and_fire` that it started. Whether such a call fires
-- an alert is up to Observability/Alerting.
pub record DetectionProcessor : Type 0 where
  pub parts : Parts
  pub vlm_rules : List VlmTriggerRule
  pub event_count : ℕ
  pub shutting_down : Bool
  pub vlm_queue : List Item
  pub maxsize : ℕ
  pub published : List ServerEvent
  pub dropped : ℕ
  pub alert_checks : ℕ

unfoldable pub init : Parts → List VlmTriggerRule → ℕ → DetectionProcessor
init parts vlm_rules maxsize = record {
  parts = parts;
  vlm_rules = vlm_rules;
  event_count = 0;
  shutting_down = false;
  vlm_queue = [];
  maxsize = maxsize;
  published = [];
  dropped = 0;
  alert_checks = 0;
}

unfoldable pub set_vlm_rules : List VlmTriggerRule → DetectionProcessor → DetectionProcessor
set_vlm_rules rules p = record p { vlm_rules = rules }

pub triggers : VlmTriggerRule → Detection → Bool
triggers rule d = str_eq d.class_name rule.class_name && ltb rule.min_confidence d.confidence

unfoldable pub match_vlm_rule : List VlmTriggerRule → List Detection → Option VlmTriggerRule
unfolding triggers
match_vlm_rule [] detections = none
match_vlm_rule (rule ∷ rules) detections =
    if any (triggers rule) detections then some rule else match_vlm_rule rules detections

-- `getattr(result, "trace_id", f"unknown-{self._event_count}")`, with the decimal notation given.
unfoldable pub trace_of : (ℕ → String) → ℕ → DetectionResult → String
trace_of decimal count result = elim result.trace_id [
  | none ↦ "unknown-" ⊕ decimal count
  | some t ↦ t
]

pub request_of : World → String → DetectionResult → VlmTriggerRule → Item
request_of w trace_id result rule = record {
  frame_data = result.frame_data;
  prompt = w.generate result.boxes rule.prompt_template;
  frame_id = result.frame_id;
  trace_id = trace_id;
  device_id = result.device_id;
  detections = result.boxes;
  rule = rule.class_name;
}

pub is_full : DetectionProcessor → Bool
is_full p = ltb 0 p.maxsize && leb p.maxsize (length p.vlm_queue)

-- `put_nowait`, and what follows `QueueFull`.
pub enqueue : Item → DetectionProcessor → DetectionProcessor
unfolding is_full
enqueue item p =
    if p.shutting_down
    then p
    else if is_full p
    then record p {
      dropped = suc p.dropped;
      alert_checks = if p.parts.alert_manager then suc p.alert_checks else p.alert_checks;
    }
    else record p { vlm_queue = p.vlm_queue ++ (item ∷ []) }

pub request_for :
    World
    → String
    → DetectionResult
    → Option VlmTriggerRule
    → DetectionProcessor
    → DetectionProcessor
unfolding enqueue request_of
request_for w trace_id result none p = p
request_for w trace_id result (some rule) p =
    if p.parts.inference_engine && has_bytes result.frame_data
    then enqueue (request_of w trace_id result rule) p
    else p

pub publish_all : List ServerEvent → DetectionProcessor → DetectionProcessor
publish_all events p = record p { published = p.published ++ events }

pub has_detections : DetectionResult → Bool
has_detections result = ltb 0 (length result.boxes)

pub behavior_events : World → DetectionResult → Bool → List ServerEvent
unfolding has_detections
behavior_events w result analyzer =
    if analyzer && has_detections result
    then elim w.analyze [ none ↦ [] | some es ↦ map (behavior_alert result.device_id) es ]
    else []

pub alert_for : World → DetectionResult → Option AnomalyScore → List ServerEvent
alert_for w result none = []
alert_for w result (some s) =
    if s.is_anomaly then anomaly_alert result.device_id s w.now ∷ [] else []

pub anomaly_events : World → DetectionResult → Bool → List ServerEvent
unfolding has_detections alert_for
anomaly_events w result baseline =
    if baseline && has_detections result then alert_for w result w.score else []

unfoldable pub process :
    (ℕ → String) → World → DetectionResult → DetectionProcessor → DetectionProcessor
unfolding request_for publish_all behavior_events anomaly_events
process decimal w result p =
    let counted = record p { event_count = suc p.event_count } in
    let trace_id = trace_of decimal (suc p.event_count) result in
    let asked = request_for w trace_id result (match_vlm_rule p.vlm_rules result.boxes) counted in
    let watched = publish_all (behavior_events w result p.parts.behavior_analyzer) asked in
    let scored = publish_all (anomaly_events w result p.parts.anomaly_baseline) watched in
    publish_all (detection result.frame_id trace_id result.device_id result.boxes w.now ∷ []) scored
