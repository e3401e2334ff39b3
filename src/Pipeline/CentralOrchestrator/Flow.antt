-- ===== src/Pipeline/CentralOrchestrator/Flow.antt =====
-- What becomes of the requests in central_orchestrator.py, while its parts and its callers act in any
-- order.
use neuro_pipeline.Prelude.{
  ℕ, sym, ◌∙◌, ◌+◌, ◌≤◌, ◌<◌, ◌≡◌, refl, ap, String, Bool, true, List, [], ◌∷◌, ◌++◌, Option,
  length, length-append, arith,
}
use neuro_pipeline.Core.EventBus.{StoreCall}
use neuro_pipeline.Pipeline.VlmPipeline
use neuro_pipeline.Pipeline.VlmPipeline.{Item, Vlm, ControlCommand, process_item, result_at}
use neuro_pipeline.Pipeline.VlmPipeline.Commands.{process_item-tasks_done}
use neuro_pipeline.Pipeline.VlmPipeline.Interrupted.{Point, interrupt_item-tasks_done}
use neuro_pipeline.Pipeline.DetectionProcessor
use neuro_pipeline.Pipeline.DetectionProcessor.{DetectionResult, VlmTriggerRule, set_vlm_rules}
use neuro_pipeline.Pipeline.DetectionProcessor.Queue.{asked, process-Same}
use neuro_pipeline.Pipeline.DetectionProcessor.Flow.{put_count, process-Flows}
use neuro_pipeline.Pipeline.CentralOrchestrator.{
  CentralOrchestrator, Worker, stopped, collecting, processing, Given, init, set_inference_engine,
  set_rules, initialize, process_detection, send_command, get_pending_command, subscribe,
  unsubscribe,
}
use neuro_pipeline.Pipeline.CentralOrchestrator.Batching.{
  held, start_batch, with_pipeline, work_item, begin_shutdown, cancelled, abandoned, end_shutdown,
}
use neuro_pipeline.Pipeline.CentralOrchestrator.Steps.{
  Step, Reach, initializes, changes_rules, detects, takes, starts, finishes, sends, fetches,
  subscribes, unsubscribes, begins_shutdown, ends_shutdown, here, next,
}
use neuro_pipeline.Pipeline.CentralOrchestrator.Accounts.{
  IsAccounted, kept, take_item-IsAccounted, next_command-IsAccounted, held-after_item, item_done,
  gives_up, given_up, true-not-false,
}

module _ (decimal : ℕ → String) (fails : StoreCall → Bool) where
  process_detection-IsAccounted :
      {n : ℕ} (id : ℕ) (w : DetectionProcessor.World) (result : DetectionResult)
      (o : CentralOrchestrator)
      → IsAccounted n o
      → IsAccounted
          (n
            + put_count o.detection_processor.shutting_down
                (asked decimal w result o.detection_processor))
          (process_detection decimal fails id w result o)
  unfolding process_detection
  process_detection-IsAccounted id w result o h =
      let p = o.detection_processor in
      let room : 0 < p.maxsize = omega (arith, h.size) in
      let flows = process-Flows decimal w result p room in
      let same = process-Same decimal w result p in
      let size = same.maxsize in
      let fits : length p.vlm_queue ≤ p.maxsize = omega (arith, h.size, h.waiting) in
      record {
        requests = omega (arith, h.requests, flows.0);
        size = omega (arith, h.size, size);
        waiting = omega (arith, h.size, flows.1 fits);
        batch = h.batch;
        lossless = λ e. h.lossless (sym same.shutting_down ∙ e);
      }

  work_item-IsAccounted :
      {n : ℕ} (id now : ℕ) (w : VlmPipeline.World) (item : Item) (rest : List Item)
      (results : Option (List String)) (o : CentralOrchestrator)
      → o.worker ≡ processing (item ∷ rest) results
      → IsAccounted n o
      → IsAccounted (n + 0) (work_item fails id now w item rest results o)
  unfolding work_item with_pipeline held
  work_item-IsAccounted id now w item rest results o at h =
      let before = ap (λ x. length (held x)) at in
      let left = ap length (held-after_item rest results) in
      item_done o (work_item fails id now w item rest results o) 0 refl refl
        (process_item-tasks_done w item (result_at results) o.vlm_pipeline) (omega arith)
        (omega arith) (λ e. refl) h

  -- A worker that holds no current item gives up what it holds.
  end_shutdown-IsAccounted :
      {n : ℕ} (id now : ℕ) (w : VlmPipeline.World) (at : Point) (o : CentralOrchestrator)
      (worker : Worker)
      → o.detection_processor.shutting_down ≡ true
      → o.worker ≡ worker
      → IsAccounted n o
      → IsAccounted (n + 0) (end_shutdown fails id now w at o)
  unfolding end_shutdown with_pipeline cancelled abandoned held
  end_shutdown-IsAccounted id now w at o stopped off e h =
      given_up o (end_shutdown fails id now w at o) refl off
        (ap (λ x. (cancelled w at x o.vlm_pipeline).tasks_done) e) refl
        (gives_up o stopped [] refl refl e) h
  end_shutdown-IsAccounted id now w at o (collecting batch) off e h =
      given_up o (end_shutdown fails id now w at o) refl off
        (ap (λ x. (cancelled w at x o.vlm_pipeline).tasks_done) e) refl
        (gives_up o (collecting batch) batch refl refl e) h
  end_shutdown-IsAccounted id now w at o (processing [] results) off e h =
      given_up o (end_shutdown fails id now w at o) refl off
        (ap (λ x. (cancelled w at x o.vlm_pipeline).tasks_done) e) refl
        (gives_up o (processing [] results) [] refl refl e) h
  end_shutdown-IsAccounted id now w at o (processing (item ∷ rest) results) off e h =
      let lost = ap (λ x. length (o.discarded ++ abandoned x)) e in
      let both = length-append o.discarded rest in
      let before = ap (λ x. length (held x)) e in
      item_done o (end_shutdown fails id now w at o) (length rest) refl refl
        (ap (λ x. (cancelled w at x o.vlm_pipeline).tasks_done) e
          ∙ interrupt_item-tasks_done w item (result_at results) at o.vlm_pipeline)
        (omega arith) (lost ∙ both) (λ on. absurd (true-not-false _ off on)) h

  Step-IsAccounted :
      {n k : ℕ} {o o' : CentralOrchestrator}
      → Step decimal fails o k o'
      → IsAccounted n o
      → IsAccounted (n + k) o'
  unfolding initialize set_inference_engine set_rules set_vlm_rules send_command get_pending_command
      begin_shutdown start_batch held subscribe unsubscribe
  Step-IsAccounted (initializes ident {o} at) h =
      kept o _ refl refl refl (λ e. e) (ap held (sym at)) refl refl refl h
  Step-IsAccounted (changes_rules rules {o}) h =
      kept o _ refl refl refl (λ e. e) refl refl refl refl h
  Step-IsAccounted (detects id w result {o}) h = process_detection-IsAccounted id w result o h
  Step-IsAccounted (takes batch item rest {o} at room front) h =
      take_item-IsAccounted batch item rest o at room front h
  Step-IsAccounted (starts has batch_analyze item batch {o} at) h =
      kept o _ refl refl refl (λ e. e) (ap held (sym at)) refl refl refl h
  Step-IsAccounted (finishes id now w item rest results {o} at) h =
      work_item-IsAccounted id now w item rest results o at h
  Step-IsAccounted (sends c {o}) h = kept o _ refl refl refl (λ e. e) refl refl refl refl h
  Step-IsAccounted (fetches {o}) h = next_command-IsAccounted o.command_queue o h
  Step-IsAccounted (subscribes {o}) h = kept o _ refl refl refl (λ e. e) refl refl refl refl h
  Step-IsAccounted (unsubscribes q {o}) h = kept o _ refl refl refl (λ e. e) refl refl refl refl h
  Step-IsAccounted (begins_shutdown {o}) h =
      kept o _ refl refl refl (λ e. absurd (true-not-false true refl e)) refl refl refl refl h
  Step-IsAccounted (ends_shutdown id now w at {o} off can) h =
      end_shutdown-IsAccounted id now w at o o.worker off refl h

  reached :
      {o : CentralOrchestrator} {n : ℕ} {o' : CentralOrchestrator}
      → IsAccounted 0 o
      → Reach decimal fails o n o'
      → IsAccounted n o'
  reached h here = h
  reached h (next reach step e) = rw e (Step-IsAccounted step (reached h reach))

  init-IsAccounted : (confidence : ℕ) (g : Given) → IsAccounted 0 (init confidence g)
  unfolding init DetectionProcessor.init VlmPipeline.init held
  init-IsAccounted confidence g = record {
    requests = omega arith;
    size = refl;
    waiting = omega arith;
    batch = omega arith;
    lossless = λ e. refl;
  }

  -- In whatever order detections arrive, the worker takes requests and works on them, commands are sent
  -- and fetched, listeners come and go, the rules change, and the server is initialized while no worker
  -- runs, and shut down, with the worker cancelled where it waits: of the requests that a new
  -- orchestrator ever put forward, each waits in the queue, is held by the worker, was dropped, was
  -- marked as done exactly once, or was given up with a cancelled worker. None is given up before a
  -- shutdown, at most 32 wait, and the worker holds one batch at most.
  pub Reach-IsAccounted :
      {n : ℕ} {o : CentralOrchestrator} (confidence : ℕ) (g : Given)
      → Reach decimal fails (init confidence g) n o
      → IsAccounted n o
  Reach-IsAccounted confidence g reach = reached (init-IsAccounted confidence g) reach
