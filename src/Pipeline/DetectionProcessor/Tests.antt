-- ===== src/Pipeline/DetectionProcessor/Tests.antt =====
-- Runs of detection_processor.py.
use neuro_pipeline.Prelude.{
  ℕ, ◌≡◌, refl, String, true, List, [], ◌∷◌, ◌++◌, Option, none, some, filter, arith, length,
}
use neuro_pipeline.Pipeline.VlmPipeline.{has_bytes}
use neuro_pipeline.Pipeline.Detection.{Detection}
use neuro_pipeline.Pipeline.DetectionProcessor.{
  World, DetectionResult, VlmTriggerRule, Parts, init, match_vlm_rule, triggers, trace_of,
}
use neuro_pipeline.Pipeline.DetectionProcessor.Rules.{IsFirst, match_vlm_rule-IsFirst}
use neuro_pipeline.Pipeline.DetectionProcessor.Published.{
  run, is_detection, detections_of, run-detections,
}
use neuro_pipeline.Pipeline.DetectionProcessor.Queue.{requests, asked_by, run-queue_full}
use neuro_pipeline.Pipeline.DetectionProcessor.Enqueue.{Queued}

abbrev parts : Parts
parts = record {
  behavior_analyzer = true;
  anomaly_baseline = true;
  alert_manager = true;
  inference_engine = true;
}

abbrev rule : String → ℕ → VlmTriggerRule
rule name least = record { class_name = name; min_confidence = least; prompt_template = "{}" }

abbrev rules : List VlmTriggerRule
rules = rule "fire" 50 ∷ rule "person" 60 ∷ rule "person" 10 ∷ []

abbrev box : String → ℕ → Detection
box name confidence = record {
  class_name = name;
  confidence = confidence;
  x_min = 0;
  y_min = 0;
  x_max = 9;
  y_max = 9;
}

abbrev result : ℕ → Option String → DetectionResult
result n trace_id = record {
  frame_id = n;
  trace_id = trace_id;
  device_id = "edge";
  boxes = box "fire" 50 ∷ box "person" 61 ∷ [];
  frame_data = 7 ∷ [];
}

-- The behavior analyzer raises, and the score is an anomaly.
abbrev world : World
world = record {
  now = 3;
  generate = λ ds template. template;
  analyze = none;
  score = some (record { is_anomaly = true; value = 2; z_score = 9; baseline_mean = 1 });
}

abbrev results : List (World × DetectionResult)
results = (world, result 1 (some "a")) ∷ (world, result 2 none) ∷ []

abbrev decimal : ℕ → String
decimal n = "2"

match_vlm_rule_test : match_vlm_rule rules (result 1 none).boxes ≡ some (rule "person" 60)
unfolding match_vlm_rule triggers
match_vlm_rule_test = refl

match_vlm_rule-IsFirst_example :
    IsFirst (match_vlm_rule rules (result 1 none).boxes) rules (result 1 none).boxes
match_vlm_rule-IsFirst_example = match_vlm_rule-IsFirst rules (result 1 none).boxes

run-detections_example :
    filter is_detection (run decimal results (init parts rules 1)).published
    ≡ filter is_detection (init parts rules 1).published
      ++ detections_of decimal (init parts rules 1).event_count results
run-detections_example = run-detections decimal results (init parts rules 1)

trace_test : trace_of decimal 2 (result 2 none) ≡ "unknown-2"
unfolding trace_of
trace_test = refl

requests_test : length (requests decimal parts rules 0 results) ≡ 2
unfolding requests asked_by match_vlm_rule triggers has_bytes
requests_test = refl

run-queue_full_example :
    Queued (requests decimal parts rules 0 results) (run decimal results (init parts rules 1))
run-queue_full_example = run-queue_full decimal results parts rules 1 (omega arith)
