-- ===== src/Pipeline/CentralOrchestrator/Batching.antt =====
-- The worker of mac-central/src/pipeline/vlm_pipeline.py inside the orchestrator, with everything else
-- between its steps: it takes an item, it has a batch and the answer of the batch call, it has finished
-- an item. A cancellation comes where it waits: for an item, for the batch call, or within an item.
use neuro_pipeline.Prelude.{
  ℕ, String, Bool, true, false, ◌&&◌, ◌||◌, List, [], ◌∷◌, ◌++◌, Option, none, some, ltb, length,
  ◌==◌, if◌then◌else◌,
}
use neuro_pipeline.Core.EventBus.{StoreCall}
use neuro_pipeline.Inference.Engine.{BatchItem}
use neuro_pipeline.Pipeline.VlmPipeline
use neuro_pipeline.Pipeline.VlmPipeline.{
  Item, Vlm, has_bytes, process_item, result_at, later_results,
}
use neuro_pipeline.Pipeline.VlmPipeline.Interrupted.{
  Point, while_asking, while_uploading, interrupt_item,
}
use neuro_pipeline.Observability.CircuitBreaker.{allow_request}
use neuro_pipeline.Pipeline.CentralOrchestrator.{
  CentralOrchestrator, Engine, Worker, stopped, collecting, processing, publish_each,
  analysis_event, since,
}

-- The items that the worker took from the queue and has not finished.
unfoldable pub held : Worker → List Item
held stopped = []
held (collecting batch) = batch
held (processing batch results) = batch

-- The first item of a batch is always waited for; more are while the batch is not full.
unfoldable pub has_room : List Item → CentralOrchestrator → Bool
has_room batch o = length batch == 0 || ltb (length batch) o.batch_max_size

-- An item that the worker gets, with what is left in the queue.
unfoldable pub take_item : List Item → Item → List Item → CentralOrchestrator → CentralOrchestrator
take_item batch item rest o = record o {
  detection_processor = record o.detection_processor { vlm_queue = rest };
  worker = collecting (batch ++ (item ∷ []));
}

-- `[{"frame_data": it["frame_data"], "prompt": it["prompt"]} for it in batch]`
unfoldable pub requests_of : List Item → List BatchItem
requests_of [] = []
requests_of (item ∷ batch) =
    record { frame_data = item.frame_data; prompt = item.prompt } ∷ requests_of batch

-- The batch is complete, and `batch_analyze` returned or raised, if the engine has it and there is more
-- than one item.
unfoldable pub start_batch :
    Bool
    → (List BatchItem → Option (List String))
    → List Item
    → CentralOrchestrator
    → CentralOrchestrator
unfolding requests_of
start_batch has_batch_analyze batch_analyze batch o = record o {
  worker = processing batch (
      if has_batch_analyze && ltb 1 (length batch)
      then batch_analyze (requests_of batch)
      else none);
}

-- The pipeline after a part of its work, whose commands and events go to the other parts.
unfoldable pub with_pipeline :
    (StoreCall → Bool) → ℕ → ℕ → Vlm → CentralOrchestrator → CentralOrchestrator
with_pipeline fails id now v o = record o {
  vlm_pipeline = v;
  command_queue = o.command_queue ++ since o.vlm_pipeline.commands v.commands;
  event_bus =
      publish_each analysis_event fails now id (since o.vlm_pipeline.published v.published)
        o.event_bus;
}

-- The worker when its current item is finished.
unfoldable pub after_item : List Item → Option (List String) → Worker
after_item [] results = collecting []
after_item (item ∷ rest) results = processing (item ∷ rest) (later_results results)

unfoldable pub work_item :
    (StoreCall → Bool)
    → ℕ
    → ℕ
    → VlmPipeline.World
    → Item
    → List Item
    → Option (List String)
    → CentralOrchestrator
    → CentralOrchestrator
unfolding with_pipeline after_item
work_item fails id now w item rest results o =
    record (with_pipeline fails id now (process_item w item (result_at results) o.vlm_pipeline) o) {
      worker = after_item rest results;
    }

unfoldable pub unload : Option Engine → Option Engine
unload none = none
unload (some e) = some (record e { loaded = false })

-- `shutdown` up to the point where the queue is waited for: no request is put into it any more.
unfoldable pub begin_shutdown : CentralOrchestrator → CentralOrchestrator
begin_shutdown o = record o {
  detection_processor = record o.detection_processor { shutting_down = true };
}

-- The pipeline when its worker is cancelled: the item that it is processing is interrupted.
unfoldable pub cancelled : VlmPipeline.World → Point → Worker → Vlm → Vlm
cancelled w at stopped v = v
cancelled w at (collecting batch) v = v
cancelled w at (processing [] results) v = v
cancelled w at (processing (item ∷ rest) results) v = interrupt_item w item (result_at results) at v

-- The items that the cancelled worker had taken and that nobody processes or marks as done.
unfoldable pub abandoned : Worker → List Item
abandoned stopped = []
abandoned (collecting batch) = batch
abandoned (processing [] results) = []
abandoned (processing (item ∷ rest) results) = rest

-- Whether the item waits at this point: it asks the model only without a result of the batch, and
-- uploads a frame only to a storage that is there.
unfoldable pub waits_at : Item → Option String → Point → Vlm → Bool
waits_at item (some r) while_asking v = false
waits_at item none while_asking v = true
waits_at item result while_uploading v = v.services.cloud_storage && has_bytes item.frame_data

-- Whether the worker can be cancelled at this point.
unfoldable pub can_stop : VlmPipeline.World → Point → Worker → Vlm → Bool
unfolding waits_at
can_stop w at stopped v = true
can_stop w at (collecting batch) v = true
can_stop w at (processing [] results) v = true
can_stop w at (processing (item ∷ rest) results) v =
    (allow_request w.asked_at v.circuit_breaker).1 && waits_at item (result_at results) at v

-- What follows the wait: the worker is cancelled, at a point if it is processing an item, and the
-- engine, which all three share, is unloaded.
unfoldable pub end_shutdown :
    (StoreCall → Bool)
    → ℕ
    → ℕ
    → VlmPipeline.World
    → Point
    → CentralOrchestrator
    → CentralOrchestrator
unfolding with_pipeline unload cancelled abandoned
end_shutdown fails id now w at o =
    record (with_pipeline fails id now (cancelled w at o.worker o.vlm_pipeline) o) {
      worker = stopped;
      discarded = o.discarded ++ abandoned o.worker;
      inference_engine = unload o.inference_engine;
      processor_engine = unload o.processor_engine;
      pipeline_engine = unload o.pipeline_engine;
    }
