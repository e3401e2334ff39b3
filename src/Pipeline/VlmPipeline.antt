-- ===== src/Pipeline/VlmPipeline.antt =====
-- mac-central/src/pipeline/vlm_pipeline.py: `VLMProcessingPipeline`, on the circuit breaker of
-- Observability/CircuitBreaker and the conversations of Inference/Conversation. What lies outside of
-- it answers for each item through a `World`: clocks, retrieval, the model, the guide for the edge
-- configuration. Metrics, spans and logs are left out. The engine is there, and an item has its keys.
pub mod Steps
pub mod Outage
pub mod Batches
pub mod Commands
pub mod Guided
pub mod Interrupted
mod Tests
pub use neuro_pipeline.Pipeline.VlmData.{
  Item, ConfigAdjustmentType, detection_region, sensitivity, fps, focus_area, ConfigAdjustment,
  World, VlmAnalysis, ControlCommand, Upload, Services,
}
use neuro_pipeline.Prelude.{
  ℕ, zero, suc, ◌+◌, ◌-◌, String, Bool, true, false, not, ◌&&◌, List, [], ◌∷◌, ◌++◌, Option, none,
  some, str_eq, ltb, length, if◌then◌else◌,
}
use neuro_pipeline.Prelude.Text.{prefix, ◌⊕◌}
use neuro_pipeline.Prelude.Dict.{Dict, get, put}
use neuro_pipeline.Pipeline.Detection.{Detection}
use neuro_pipeline.Observability.CircuitBreaker.{
  CircuitBreaker, State, closed, opened, half_open, allow_request, record_success, record_failure,
}
use neuro_pipeline.Inference.Engine.{BatchItem}
use neuro_pipeline.Inference.Conversation.{
  ConversationContext, add_turn, build_prompt, get_conversation,
}

-- The pipeline, with what it did so far: the prompts of its calls of `analyze_image`, the events, the
-- uploads, the commands, and the numbers of the calls of `check_and_fire` that it started and of
-- `task_done`. Whether such a call fires an alert is up to Observability/Alerting.
pub record Vlm : Type 0 where
  pub services : Services
  pub circuit_breaker : CircuitBreaker
  pub conversations : Dict ConversationContext
  pub command_id_counter : ℕ
  pub analyzed : List String
  pub published : List VlmAnalysis
  pub uploads : List Upload
  pub commands : List ControlCommand
  pub alert_checks : ℕ
  pub tasks_done : ℕ

unfoldable pub init : Services → CircuitBreaker → Vlm
init services circuit_breaker = record {
  services = services;
  circuit_breaker = circuit_breaker;
  conversations = [];
  command_id_counter = 0;
  analyzed = [];
  published = [];
  uploads = [];
  commands = [];
  alert_checks = 0;
  tasks_done = 0;
}

pub is_text : String → Bool
is_text s = not (str_eq s "")

unfoldable pub has_bytes : List ℕ → Bool
has_bytes [] = false
has_bytes (b ∷ bs) = true

-- The prompt with the retrieved context.
pub with_context : Services → World → Item → String
unfolding is_text
with_context services w item =
    if services.rag_retriever && is_text item.device_id
    then elim w.rag_text [
      | none ↦ item.prompt
      | some t ↦ item.prompt ⊕ ("\n\nHistorical context:\n" ⊕ t)
    ]
    else item.prompt

-- The contexts and the prompt after the conversation of the device was looked up.
pub with_history : String → String → Dict ConversationContext → Dict ConversationContext × String
unfolding is_text
with_history device_id prompt cs =
    let found = get_conversation device_id cs in
    if is_text device_id then (found.0, build_prompt prompt found.1) else (cs, prompt)

-- The two turns that are added after a result.
pub remember : String → String → String → Dict ConversationContext → Dict ConversationContext
unfolding is_text
remember device_id prompt result cs =
    let found = get_conversation device_id cs in
    if is_text device_id
    then put device_id (add_turn "assistant" (prefix 200 result) (add_turn "user" prompt found.1))
        found.0
    else cs

-- `VLMConfigGuide.create_control_command`
pub command_type : ConfigAdjustmentType → ℕ
command_type detection_region = 7
command_type sensitivity = 8
command_type fps = 0
command_type focus_area = 7

-- The next command is numbered and put into the queue.
pub send_one : ConfigAdjustment → Vlm → Vlm
unfolding command_type
send_one a s = record s {
  command_id_counter = suc s.command_id_counter;
  commands =
      s.commands
      ++ (record {
        type = command_type a.adjustment_type;
        command_id = suc s.command_id_counter;
        parameters = a.parameters;
      }
          ∷ []);
}

-- The loop of `_apply_vlm_guidance`: the counter moves before the message is built, and a message
-- that cannot be built ends the loop.
pub send_all : List ConfigAdjustment → Vlm → Vlm
unfolding send_one
send_all [] s = s
send_all (a ∷ rest) s =
    let sent = send_all rest (send_one a s) in
    if a.builds then sent else record s { command_id_counter = suc s.command_id_counter }

pub apply_to : Option (List ConfigAdjustment) → Vlm → Vlm
unfolding send_all
apply_to none s = s
apply_to (some adjustments) s = if s.services.command_queue then send_all adjustments s else s

pub apply_vlm_guidance : World → String → String → Vlm → Vlm
unfolding apply_to is_text
apply_vlm_guidance w result device_id s =
    if s.services.vlm_config_guide && is_text device_id
    then apply_to (w.adjustments result) s
    else s

pub analysis_of : World → Item → String → VlmAnalysis
analysis_of w item result = record {
  frame_id = item.frame_id;
  trace_id = item.trace_id;
  device_id = item.device_id;
  detections = item.detections;
  vlm_result = prefix 200 result;
  rule = item.rule;
  timestamp = w.published_at;
}

pub upload_of : Item → String → Upload
unfolding is_text
upload_of item result = record {
  device_id = if is_text item.device_id then item.device_id else "unknown";
  frame_id = item.frame_id;
  vlm_result = prefix 100 result;
  rule = item.rule;
}

-- What follows a result up to the guidance: the conversation, the breaker, the event, the upload.
pub publish_result : World → Item → String → Vlm → Vlm
unfolding remember has_bytes analysis_of upload_of
publish_result w item result s = record s {
  conversations = remember item.device_id item.prompt result s.conversations;
  circuit_breaker = record_success s.circuit_breaker;
  published = s.published ++ (analysis_of w item result ∷ []);
  uploads =
      if s.services.cloud_storage && has_bytes item.frame_data
      then s.uploads ++ (upload_of item result ∷ [])
      else s.uploads;
}

pub succeed : World → Item → String → Vlm → Vlm
unfolding publish_result
succeed w item result s =
    apply_vlm_guidance w result item.device_id (publish_result w item result s)

pub is_opened : State → Bool
is_opened opened = true
is_opened closed = false
is_opened half_open = false

-- What follows an exception: the breaker counts it, and `check_and_fire` is called if it is now open.
pub fail : World → Vlm → Vlm
unfolding is_opened
fail w s =
    let b = record_failure w.failed_at s.circuit_breaker in
    record s {
      circuit_breaker = b;
      alert_checks =
          if is_opened b.state && s.services.alert_manager
          then suc s.alert_checks
          else s.alert_checks;
    }

pub settle : World → Item → Option String → Vlm → Vlm
unfolding succeed fail
settle w item none s = fail w s
settle w item (some result) s = succeed w item result s

-- The `try` block of `_process_item`, given the item's part of the batch's results.
pub attempt : World → Item → Option String → Vlm → Vlm
unfolding settle with_context with_history
attempt w item batch_result s =
    let asked = with_history item.device_id (with_context s.services w item) s.conversations in
    let s' = record s { conversations = asked.0 } in
    elim batch_result [
      | some result ↦ settle w item (some result) s'
      | none ↦
          settle w item (w.analyze_image asked.1)
            (record s' { analyzed = s.analyzed ++ (asked.1 ∷ []) })
    ]

-- The `finally` block.
pub task_done : Vlm → Vlm
task_done s = record s { tasks_done = suc s.tasks_done }

pub process_item : World → Item → Option String → Vlm → Vlm
unfolding attempt task_done
process_item w item batch_result s =
    let (b, allowed) = allow_request w.asked_at s.circuit_breaker in
    let admitted = record s { circuit_breaker = b } in
    if allowed then task_done (attempt w item batch_result admitted) else task_done admitted

-- `batch_results[idx]`, or nothing where there are no results or too few.
pub result_at : Option (List String) → Option String
result_at none = none
result_at (some []) = none
result_at (some (r ∷ rs)) = some r

pub later_results : Option (List String) → Option (List String)
later_results none = none
later_results (some []) = some []
later_results (some (r ∷ rs)) = some rs

-- The loop over the batch, each item with its world.
pub process_items : List (World × Item) → Option (List String) → Vlm → Vlm
unfolding process_item result_at later_results
process_items [] results s = s
process_items ((w, item) ∷ rest) results s =
    process_items rest (later_results results) (process_item w item (result_at results) s)

-- `[{"frame_data": it["frame_data"], "prompt": it["prompt"]} for it in batch]`
pub batch_items : List (World × Item) → List BatchItem
batch_items [] = []
batch_items ((w, item) ∷ rest) =
    record { frame_data = item.frame_data; prompt = item.prompt } ∷ batch_items rest

-- One turn of the worker's loop after a batch was collected: the engine's `batch_analyze`, if it has
-- one, is called for more than one item, and it answers `none` where it raises or is too late.
pub process_batch : Bool → (List BatchItem → Option (List String)) → List (World × Item) → Vlm → Vlm
unfolding process_items batch_items
process_batch has_batch_analyze batch_analyze batch s =
    process_items batch
      (if has_batch_analyze && ltb 1 (length batch)
        then batch_analyze (batch_items batch)
        else none)
      s

-- The inner loop that fills a batch: the items that wait, with the times at which they can be got. It
-- gives the batch and what is left.
pub fill : ℕ → ℕ → List (ℕ × Item) → List Item × List (ℕ × Item)
fill zero deadline waiting = ([], waiting)
fill (suc n) deadline [] = ([], [])
fill (suc n) deadline ((t, item) ∷ waiting) =
    let more = fill n deadline waiting in
    if ltb t deadline then (item ∷ more.0, more.1) else ([], (t, item) ∷ waiting)

-- The batch that begins with the first item, which is waited for without a limit.
pub collect : ℕ → ℕ → (ℕ × Item) → List (ℕ × Item) → List Item × List (ℕ × Item)
unfolding fill
collect batch_max_size batch_timeout (t, item) waiting =
    let more = fill (batch_max_size - 1) (t + batch_timeout) waiting in (item ∷ more.0, more.1)
