-- ===== src/Pipeline/VlmPipeline/Tests.antt =====
-- Runs of vlm_pipeline.py.
use neuro_pipeline.Prelude.{
  ℕ, String, ◌+◌, ◌≤◌, ◌≡◌, refl, Bool, true, false, List, [], ◌∷◌, ◌++◌, none, some, arith, length,
}
use neuro_pipeline.Observability.CircuitBreaker.{CircuitBreaker, closed}
use neuro_pipeline.Inference.Engine.{BatchItem, Outcome, raised, batch_analyze}
use neuro_pipeline.Pipeline.VlmPipeline.{
  Item, World, Services, Vlm, ConfigAdjustment, sensitivity, init, process_items, process_batch,
  collect, apply_vlm_guidance,
}
use neuro_pipeline.Pipeline.VlmPipeline.Batches.{
  Batched, items, collect_lem, engine-Batched, without_context, process_items-without_context,
}
use neuro_pipeline.Inference.ConfigGuide.Regions.{Regex}
use neuro_pipeline.Inference.ConfigGuide.{ConfigGuide, Param, parse_vlm_result}
use neuro_pipeline.Pipeline.VlmPipeline.Guided.{Sends, to_apply, apply_vlm_guidance-Sends}
use neuro_pipeline.Pipeline.VlmPipeline.Outage.{Outage, IsFailing, process_items-Outage}
use neuro_pipeline.Pipeline.VlmPipeline.Commands.{
  Rising, IsNumbered, process_items-IsNumbered, process_items-tasks_done,
}

abbrev services : Services
services = record {
  alert_manager = true;
  cloud_storage = true;
  rag_retriever = true;
  vlm_config_guide = true;
  command_queue = true;
}

abbrev breaker : CircuitBreaker
breaker = record {
  failure_threshold = 2;
  recovery_timeout = 60;
  half_open_max = 1;
  state = closed;
  failure_count = 0;
  last_failure_time = 0;
  half_open_calls = 0;
}

abbrev start : Vlm
start = init services breaker

abbrev item : ℕ → Item
item n = record {
  frame_data = 1 ∷ [];
  prompt = "look";
  frame_id = n;
  trace_id = "t";
  device_id = "edge";
  detections = [];
  rule = "person";
}

abbrev adjustment : Bool → ConfigAdjustment
adjustment builds = record { adjustment_type = sensitivity; parameters = []; builds = builds }

abbrev working : ℕ → World
working now = record {
  asked_at = now;
  failed_at = now;
  published_at = now;
  rag_text = some "seen before";
  analyze_image = λ prompt. some "a person";
  adjustments = λ result. some (adjustment true ∷ adjustment false ∷ []);
}

abbrev failing : ℕ → World
failing now = record {
  asked_at = now;
  failed_at = now + 1;
  published_at = now;
  rag_text = none;
  analyze_image = λ prompt. none;
  adjustments = λ result. none;
}

abbrev outage : List (World × Item)
outage = (failing 1, item 1) ∷ (failing 2, item 2) ∷ (failing 3, item 3) ∷ []

abbrev batch : List (World × Item)
batch = (working 1, item 1) ∷ (working 2, item 2) ∷ []

fails_from : (now : ℕ) → 1 ≤ now → now ≤ 50 → IsFailing 1 60 (failing now)
fails_from now low high = record { fails = λ prompt. refl; late = omega arith; early = omega arith }

process_items-Outage_example : Outage 2 1 3 start (process_items outage none start)
unfolding init
process_items-Outage_example =
    process_items-Outage 1 outage start
      (
        fails_from 1 (omega arith) (omega arith),
        (fails_from 2 (omega arith) (omega arith), (fails_from 3 (omega arith) (omega arith), tt)),
      )
      refl refl (omega arith)

abbrev broken : BatchItem → Outcome
broken b = raised "out of memory"

engine-Batched_example :
    Batched 2 start (process_batch true (batch_analyze (λ n. "0") true false broken) batch start)
unfolding init
engine-Batched_example = engine-Batched (λ n. "0") false broken batch start (omega arith) refl

process_items-without_context_example :
    process_items batch (some ("a" ∷ "b" ∷ [])) start
    ≡ process_items (without_context batch) (some ("a" ∷ "b" ∷ [])) start
process_items-without_context_example =
    process_items-without_context batch ("a" ∷ "b" ∷ []) start (omega arith)

process_items-IsNumbered_example : IsNumbered (process_items batch none start)
unfolding init IsNumbered Rising
process_items-IsNumbered_example = process_items-IsNumbered batch none start (omega arith)

process_items-tasks_done_example : (process_items outage none start).tasks_done ≡ 3
unfolding init
process_items-tasks_done_example = process_items-tasks_done outage none start

collect_lem_example :
    let (got, left) = collect 2 10 (5, item 1) ((6, item 2) ∷ (7, item 3) ∷ (30, item 4) ∷ []) in
    (got ++ items left ≡ item 1 ∷ item 2 ∷ item 3 ∷ item 4 ∷ [])
    × (1 ≤ length got)
    × (length got ≤ 2)
unfolding items
collect_lem_example = collect_lem 2 10 (5, item 1) ((6, item 2) ∷ (7, item 3) ∷ (30, item 4) ∷ [])

-- An engine that captures the whole text.
abbrev whole : Regex
whole = record { findall = λ p s. s ∷ []; numbers = λ s. []; lower = λ s. s }

abbrev guide : ConfigGuide
guide = record {
  min_confidence = 60;
  max_adjustments_per_result = 3;
  enable_region_adjustment = true;
  enable_sensitivity_adjustment = true;
  enable_fps_adjustment = false;
}

abbrev show : Param → String
show p = "0.05"

abbrev guided : World
guided = record (working 1) {
  adjustments = λ result. to_apply show (parse_vlm_result whole result guide);
}

apply_vlm_guidance-Sends_example :
    Sends guide 3 start (apply_vlm_guidance guided "please increase sensitivity" "edge" start)
apply_vlm_guidance-Sends_example =
    apply_vlm_guidance-Sends guide show whole guided "please increase sensitivity" "edge" start refl
