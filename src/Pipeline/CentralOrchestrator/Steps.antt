-- ===== src/Pipeline/CentralOrchestrator/Steps.antt =====
-- The steps of central_orchestrator.py: its parts and its callers act in any order. A worker that runs
-- is not started again.
use neuro_pipeline.Prelude.{ℕ, ◌+◌, ◌≡◌, String, Bool, true, List, ◌∷◌, Option}
use neuro_pipeline.Core.EventBus.{StoreCall}
use neuro_pipeline.Inference.Engine.{BatchItem}
use neuro_pipeline.Pipeline.VlmPipeline
use neuro_pipeline.Pipeline.VlmPipeline.{Item, Vlm, ControlCommand, process_item, result_at}
use neuro_pipeline.Pipeline.VlmPipeline.Interrupted.{Point}
use neuro_pipeline.Pipeline.DetectionProcessor
use neuro_pipeline.Pipeline.DetectionProcessor.{DetectionResult, VlmTriggerRule, set_vlm_rules}
use neuro_pipeline.Pipeline.DetectionProcessor.Queue.{asked}
use neuro_pipeline.Pipeline.DetectionProcessor.Flow.{put_count}
use neuro_pipeline.Pipeline.CentralOrchestrator.{
  CentralOrchestrator, stopped, collecting, processing, set_rules, initialize, process_detection,
  send_command, get_pending_command, subscribe, unsubscribe,
}
use neuro_pipeline.Pipeline.CentralOrchestrator.Batching.{
  has_room, take_item, start_batch, work_item, begin_shutdown, can_stop, end_shutdown,
}

module _ (decimal : ℕ → String) (fails : StoreCall → Bool) where
  -- One step, with the number of requests that it puts into the queue or drops.
  pub data Step : CentralOrchestrator → ℕ → CentralOrchestrator → Type 0 where
    initializes :
        (ident : ℕ) {o : CentralOrchestrator} → o.worker ≡ stopped → Step o 0 (initialize ident o)
    changes_rules :
        (rules : List VlmTriggerRule) {o : CentralOrchestrator} → Step o 0 (set_rules rules o)
    detects :
        (id : ℕ) (w : DetectionProcessor.World) (result : DetectionResult) {o : CentralOrchestrator}
        → Step o
            (put_count o.detection_processor.shutting_down
              (asked decimal w result o.detection_processor))
            (process_detection decimal fails id w result o)
    takes :
        (batch : List Item) (item : Item) (rest : List Item) {o : CentralOrchestrator}
        → o.worker ≡ collecting batch
        → has_room batch o ≡ true
        → o.detection_processor.vlm_queue ≡ item ∷ rest
        → Step o 0 (take_item batch item rest o)
    starts :
        (has_batch_analyze : Bool) (batch_analyze : List BatchItem → Option (List String))
        (item : Item) (batch : List Item) {o : CentralOrchestrator}
        → o.worker ≡ collecting (item ∷ batch)
        → Step o 0 (start_batch has_batch_analyze batch_analyze (item ∷ batch) o)
    finishes :
        (id now : ℕ) (w : VlmPipeline.World) (item : Item) (rest : List Item)
        (results : Option (List String)) {o : CentralOrchestrator}
        → o.worker ≡ processing (item ∷ rest) results
        → Step o 0 (work_item fails id now w item rest results o)
    sends : (c : ControlCommand) {o : CentralOrchestrator} → Step o 0 (send_command c o)
    fetches : {o : CentralOrchestrator} → Step o 0 (get_pending_command o).0
    subscribes : {o : CentralOrchestrator} → Step o 0 (subscribe o).0
    unsubscribes : (q : ℕ) {o : CentralOrchestrator} → Step o 0 (unsubscribe q o)
    begins_shutdown : {o : CentralOrchestrator} → Step o 0 (begin_shutdown o)
    ends_shutdown :
        (id now : ℕ) (w : VlmPipeline.World) (at : Point) {o : CentralOrchestrator}
        → o.detection_processor.shutting_down ≡ true
        → can_stop w at o.worker o.vlm_pipeline ≡ true
        → Step o 0 (end_shutdown fails id now w at o)

  -- The states that come after a start, with the number of requests so far.
  pub data Reach (o : CentralOrchestrator) : ℕ → CentralOrchestrator → Type 0 where
    here : Reach o 0 o
    next :
        {n k m : ℕ} {o' o'' : CentralOrchestrator}
        → Reach o n o'
        → Step o' k o''
        → m ≡ n + k
        → Reach o m o''
