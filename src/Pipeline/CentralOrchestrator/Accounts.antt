-- ===== src/Pipeline/CentralOrchestrator/Accounts.antt =====
-- Where the requests of central_orchestrator.py are, and how a step moves them.
use neuro_pipeline.Prelude.{
  ℕ, suc, max, sym, ◌∙◌, false, ◌+◌, ◌≤◌, ◌<◌, ◌≡◌, refl, ap, String, Bool, true, List, [], ◌∷◌,
  ◌++◌, Option, length, length-append, arith,
}
use neuro_pipeline.Pipeline.VlmPipeline.{Item, ControlCommand}
use neuro_pipeline.Pipeline.CentralOrchestrator.{
  CentralOrchestrator, Worker, collecting, next_command,
}
use neuro_pipeline.Pipeline.CentralOrchestrator.Batching.{
  held, has_room, take_item, after_item, abandoned,
}

-- Each of `n` requests waits, is held by the worker, was dropped, is done, or was given up with a
-- cancelled worker, which happens only in a shutdown. No more than 32 wait, and the worker holds one
-- batch at most.
pub record IsAccounted (n : ℕ) (o : CentralOrchestrator) : Type 0 where
  pub requests :
      length o.detection_processor.vlm_queue
        + length (held o.worker)
        + o.detection_processor.dropped
        + o.vlm_pipeline.tasks_done
        + length o.discarded
      ≡ n
  pub size : o.detection_processor.maxsize ≡ 32
  pub waiting : length o.detection_processor.vlm_queue ≤ 32
  pub batch : length (held o.worker) ≤ max 1 o.batch_max_size
  pub lossless : o.detection_processor.shutting_down ≡ false → length o.discarded ≡ 0

pub true-not-false : (b : Bool) → b ≡ true → b ≡ false → ⊥
true-not-false b h g = ground arith

-- A step that leaves the requests alone.
pub kept :
    {n : ℕ} (o o' : CentralOrchestrator)
    → o'.detection_processor.vlm_queue ≡ o.detection_processor.vlm_queue
    → o'.detection_processor.dropped ≡ o.detection_processor.dropped
    → o'.detection_processor.maxsize ≡ o.detection_processor.maxsize
    → (o'.detection_processor.shutting_down ≡ false → o.detection_processor.shutting_down ≡ false)
    → held o'.worker ≡ held o.worker
    → o'.vlm_pipeline ≡ o.vlm_pipeline
    → o'.discarded ≡ o.discarded
    → o'.batch_max_size ≡ o.batch_max_size
    → IsAccounted n o
    → IsAccounted (n + 0) o'
kept o o' queue dropped size on worker pipeline discarded max_size h =
    let q = ap length queue in
    let b = ap length worker in
    let done = ap (λ v. v.tasks_done) pipeline in
    let lost = ap length discarded in
    record {
      requests = omega (arith, h.requests);
      size = omega (arith, h.size);
      waiting = omega (arith, h.waiting);
      batch = omega (arith, h.batch);
      lossless = λ e. lost ∙ h.lossless (on e);
    }

pub next_command-IsAccounted :
    {n : ℕ} (cs : List ControlCommand) (o : CentralOrchestrator)
    → IsAccounted n o
    → IsAccounted (n + 0) (next_command cs o).0
unfolding next_command
next_command-IsAccounted [] o h = kept o o refl refl refl (λ e. e) refl refl refl refl h
next_command-IsAccounted (c ∷ cs) o h = kept o _ refl refl refl (λ e. e) refl refl refl refl h

pub take_item-IsAccounted :
    {n : ℕ} (batch : List Item) (item : Item) (rest : List Item) (o : CentralOrchestrator)
    → o.worker ≡ collecting batch
    → has_room batch o ≡ true
    → o.detection_processor.vlm_queue ≡ item ∷ rest
    → IsAccounted n o
    → IsAccounted (n + 0) (take_item batch item rest o)
unfolding take_item held has_room
take_item-IsAccounted batch item rest o at room front h =
    let queue = ap length front in
    let b = ap (λ x. length (held x)) at in
    let more = length-append batch (item ∷ []) in
    let fits : length batch < max 1 o.batch_max_size = ground (arith, room) in
    record {
      requests = omega (arith, h.requests);
      size = h.size;
      waiting = omega (arith, h.waiting);
      batch = omega (arith, fits);
      lossless = h.lossless;
    }

pub held-after_item :
    (rest : List Item) (results : Option (List String)) → held (after_item rest results) ≡ rest
unfolding held after_item
held-after_item [] results = refl
held-after_item (item ∷ rest) results = refl

-- The worker's current item is marked as done, and `lost` others are given up.
pub item_done :
    {n : ℕ} (o o' : CentralOrchestrator) (lost : ℕ)
    → o'.detection_processor ≡ o.detection_processor
    → o'.batch_max_size ≡ o.batch_max_size
    → o'.vlm_pipeline.tasks_done ≡ suc o.vlm_pipeline.tasks_done
    → suc (length (held o'.worker) + lost) ≡ length (held o.worker)
    → length o'.discarded ≡ length o.discarded + lost
    → (o.detection_processor.shutting_down ≡ false → lost ≡ 0)
    → IsAccounted n o
    → IsAccounted (n + 0) o'
item_done o o' lost same max_size done b discarded none_lost h =
    let q = ap (λ p. length p.vlm_queue) same in
    let d = ap (λ p. p.dropped) same in
    let m = ap (λ p. p.maxsize) same in
    let on = ap (λ p. p.shutting_down) same in
    record {
      requests = omega (arith, h.requests);
      size = omega (arith, h.size);
      waiting = omega (arith, h.waiting);
      batch = omega (arith, h.batch);
      lossless = λ e. omega (arith, h.lossless (sym on ∙ e), none_lost (sym on ∙ e));
    }

-- The items that the worker gives up when it stops are all that it holds.
pub gives_up :
    (o : CentralOrchestrator) (worker : Worker) (lost : List Item)
    → abandoned worker ≡ lost
    → held worker ≡ lost
    → o.worker ≡ worker
    → length (o.discarded ++ abandoned o.worker) ≡ length o.discarded + length (held o.worker)
gives_up o worker lost left all e =
    let same = ap abandoned e ∙ left ∙ sym (ap held e ∙ all) in
    ap (λ xs. length (o.discarded ++ xs)) same ∙ length-append o.discarded (held o.worker)

-- The worker stops while it processes no item, and gives up what it holds.
pub given_up :
    {n : ℕ} (o o' : CentralOrchestrator)
    → o'.detection_processor ≡ o.detection_processor
    → o.detection_processor.shutting_down ≡ true
    → o'.vlm_pipeline.tasks_done ≡ o.vlm_pipeline.tasks_done
    → length (held o'.worker) ≡ 0
    → length o'.discarded ≡ length o.discarded + length (held o.worker)
    → IsAccounted n o
    → IsAccounted (n + 0) o'
given_up o o' same off done b discarded h =
    let q = ap (λ p. length p.vlm_queue) same in
    let d = ap (λ p. p.dropped) same in
    let m = ap (λ p. p.maxsize) same in
    record {
      requests = omega (arith, h.requests);
      size = omega (arith, h.size);
      waiting = omega (arith, h.waiting);
      batch = omega arith;
      lossless = λ e. absurd (true-not-false _ (ap (λ p. p.shutting_down) same ∙ off) e);
    }
