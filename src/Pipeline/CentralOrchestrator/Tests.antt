-- ===== src/Pipeline/CentralOrchestrator/Tests.antt =====
-- Runs of central_orchestrator.py.
use neuro_pipeline.Prelude.{ℕ, ◌≡◌, refl, length, String, Bool, true, false, [], ◌∷◌, none, some}
use neuro_pipeline.Core.EventBus.{StoreCall}
use neuro_pipeline.Observability.CircuitBreaker.{CircuitBreaker, closed}
use neuro_pipeline.Pipeline.VlmPipeline
use neuro_pipeline.Pipeline.VlmPipeline.{Item}
use neuro_pipeline.Pipeline.VlmPipeline.Interrupted.{while_asking}
use neuro_pipeline.Pipeline.DetectionProcessor
use neuro_pipeline.Pipeline.DetectionProcessor.{DetectionResult}
use neuro_pipeline.Pipeline.DetectionProcessor.Queue.{asked_by}
use neuro_pipeline.Pipeline.CentralOrchestrator.{
  CentralOrchestrator, Given, init, initialize, process_detection,
}
use neuro_pipeline.Pipeline.CentralOrchestrator.Batching.{
  has_room, take_item, start_batch, with_pipeline, work_item, can_stop, abandoned, begin_shutdown,
  end_shutdown,
}
use neuro_pipeline.Pipeline.CentralOrchestrator.Steps.{
  Reach, initializes, detects, takes, starts, finishes, begins_shutdown, ends_shutdown, here, next,
}
use neuro_pipeline.Pipeline.CentralOrchestrator.Accounts.{IsAccounted}
use neuro_pipeline.Pipeline.CentralOrchestrator.Flow.{Reach-IsAccounted}

abbrev breaker : CircuitBreaker
breaker = record {
  failure_threshold = 2;
  recovery_timeout = 60;
  half_open_max = 1;
  state = closed;
  failure_count = 0;
  last_failure_time = 0;
  half_open_calls = 0;
}

abbrev given : Given
given = record {
  vlm_rules = [];
  detection_store = false;
  circuit_breaker = breaker;
  alert_manager = true;
  cloud_storage = false;
  behavior_analyzer = false;
  rag_retriever = false;
  anomaly_baseline = false;
  vlm_config_guide = false;
  batch_max = none;
}

abbrev result : DetectionResult
result = record {
  frame_id = 1;
  trace_id = some "t";
  device_id = "edge";
  boxes =
      record { class_name = "person"; confidence = 90; x_min = 0; y_min = 0; x_max = 1; y_max = 1 }
      ∷ [];
  frame_data = 7 ∷ [];
}

abbrev world : DetectionProcessor.World
world = record { now = 3; generate = λ ds template. template; analyze = none; score = none }

abbrev answering : VlmPipeline.World
answering = record {
  asked_at = 4;
  failed_at = 4;
  published_at = 4;
  rag_text = none;
  analyze_image = λ prompt. some "a person";
  adjustments = λ r. none;
}

abbrev item : Item
item = record {
  frame_data = 7 ∷ [];
  prompt = "person_behavior";
  frame_id = 1;
  trace_id = "t";
  device_id = "edge";
  detections = result.boxes;
  rule = "person";
}

abbrev decimal : ℕ → String
decimal n = "1"

abbrev fails : StoreCall → Bool
fails c = false

-- The server starts, a person is seen, and the worker takes the request.
abbrev started : CentralOrchestrator
started = initialize 1 (init 80 given)

abbrev seen : CentralOrchestrator
seen = process_detection decimal fails 1 world result started

abbrev taken : CentralOrchestrator
taken = take_item [] item [] seen

abbrev batched : CentralOrchestrator
batched = start_batch false (λ items. none) (item ∷ []) taken

abbrev finished : CentralOrchestrator
finished = work_item fails 2 4 answering item [] none batched

taking : Reach decimal fails (init 80 given) 1 taken
unfolding init initialize process_detection DetectionProcessor.init DetectionProcessor.process
    DetectionProcessor.trace_of DetectionProcessor.match_vlm_rule asked_by VlmPipeline.init
    VlmPipeline.has_bytes has_room
taking =
    next (next (next here (initializes 1 refl) refl) (detects 1 world result) refl)
      (takes [] item [] refl refl refl) refl

trail : Reach decimal fails (init 80 given) 1 finished
unfolding take_item start_batch
trail =
    next (next taking (starts false (λ items. none) item [] refl) refl)
      (finishes 2 4 answering item [] none refl) refl

Reach-IsAccounted_example : IsAccounted 1 finished
Reach-IsAccounted_example = Reach-IsAccounted decimal fails 80 given trail

-- The worker collects a batch and the queue is empty, so a shutdown waits for nothing.
abbrev closed_down : CentralOrchestrator
closed_down = end_shutdown fails 2 4 answering while_asking (begin_shutdown taken)

lost_trail : Reach decimal fails (init 80 given) 1 closed_down
unfolding begin_shutdown take_item can_stop
lost_trail =
    next (next taking begins_shutdown refl) (ends_shutdown 2 4 answering while_asking refl refl)
      refl

lost_test : length closed_down.discarded ≡ 1
unfolding begin_shutdown end_shutdown take_item abandoned with_pipeline init initialize
    process_detection
lost_test = refl
