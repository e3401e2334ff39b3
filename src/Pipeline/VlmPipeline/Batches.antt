-- ===== src/Pipeline/VlmPipeline/Batches.antt =====
-- How batches are collected in vlm_pipeline.py, and what happens to a batch with results.
use neuro_pipeline.Prelude.{
  ℕ, zero, suc, ◌+◌, ◌≤◌, max, ◌≡◌, refl, ap, ◌∙◌, ◌-◌, String, Bool, true, List, [], ◌∷◌, ◌++◌,
  none, some, arith, length, ltb, lt→ltb, Bool-cases, inl, inr,
}
use neuro_pipeline.Prelude.Dict.{Dict}
use neuro_pipeline.Inference.Conversation.{ConversationContext}
use neuro_pipeline.Observability.CircuitBreaker.{closed, allow_request}
use neuro_pipeline.Observability.CircuitBreaker.Client.{closed-admits, success-closed}
use neuro_pipeline.Inference.Engine.{BatchItem, Outcome, batch_analyze, batch_analyze-length}
use neuro_pipeline.Pipeline.VlmPipeline.{
  Item, World, Vlm, process_items, process_item, process_batch, batch_items, result_at,
  later_results, fill, collect, with_history, with_context, is_text, settle, succeed,
  publish_result, analysis_of, apply_vlm_guidance, attempt, task_done,
}
use neuro_pipeline.Pipeline.VlmPipeline.Steps.{attempt-batched, process_item-admitted}

-- The items of a queue.
unfoldable pub items : List (ℕ × Item) → List Item
items [] = []
items ((t, item) ∷ waiting) = item ∷ items waiting

fill_lem :
    (n deadline : ℕ) (waiting : List (ℕ × Item))
    → ((fill n deadline waiting).0 ++ items (fill n deadline waiting).1 ≡ items waiting)
      × (length (fill n deadline waiting).0 ≤ n)
unfolding fill items
fill_lem zero deadline waiting = (refl, omega arith)
fill_lem (suc n) deadline [] = (refl, omega arith)
fill_lem (suc n) deadline ((t, item) ∷ waiting) =
    let more = fill_lem n deadline waiting in
    elim (Bool-cases (ltb t deadline)) [
      | inl e ↦ rw e (ap (◌∷◌ item) more.0, omega (arith, more.1))
      | inr e ↦ rw e (refl, omega arith)
    ]

-- A collected batch and what is left in the queue are the queue in its order: no item is lost or
-- doubled. The batch has at least one item and at most `batch_max_size`, or one if that is 0.
pub collect_lem :
    (batch_max_size batch_timeout : ℕ) (first : ℕ × Item) (waiting : List (ℕ × Item))
    → let (batch, left) = collect batch_max_size batch_timeout first waiting in
      (batch ++ items left ≡ items (first ∷ waiting))
      × (1 ≤ length batch)
      × (length batch ≤ max 1 batch_max_size)
unfolding collect items
collect_lem batch_max_size batch_timeout (t, item) waiting =
    let more = fill_lem (batch_max_size - 1) (t + batch_timeout) waiting in
    (ap (◌∷◌ item) more.0, omega arith, omega (arith, more.1))

-- What holds after a batch whose items all had results.
pub record Batched (n : ℕ) (s s' : Vlm) : Type 0 where
  pub is_closed : s'.circuit_breaker.state ≡ closed
  pub analyzed : s'.analyzed ≡ s.analyzed
  pub events : length s'.published ≡ length s.published + n
  pub alert_checks : s'.alert_checks ≡ s.alert_checks
  pub done : s'.tasks_done ≡ s.tasks_done + n

item-Batched :
    (w : World) (item : Item) (result : String) (s : Vlm)
    → s.circuit_breaker.state ≡ closed
    → Batched 1 s (process_item w item (some result) s)
unfolding task_done
item-Batched w item result s h =
    let admitted = closed-admits w.asked_at s.circuit_breaker h in
    let b = (allow_request w.asked_at s.circuit_breaker).0 in
    let same : b ≡ s.circuit_breaker = ap (λ p. p.0) admitted in
    let step = attempt-batched w item result (record s { circuit_breaker = b }) in
    rw (process_item-admitted w item (some result) s (ap (λ p. p.1) admitted)) (record {
      is_closed = rw step.breaker (success-closed b (rw same h));
      analyzed = step.analyzed;
      events = step.events;
      alert_checks = omega (arith, step.alert_checks);
      done = omega (arith, step.done);
    })

process_items-Batched :
    (batch : List (World × Item)) (results : List String) (s : Vlm)
    → length batch ≤ length results
    → s.circuit_breaker.state ≡ closed
    → Batched (length batch) s (process_items batch (some results) s)
unfolding process_items result_at later_results
process_items-Batched [] results s enough h = record {
  is_closed = h;
  analyzed = refl;
  events = omega arith;
  alert_checks = refl;
  done = omega arith;
}
process_items-Batched ((w, item) ∷ rest) [] s enough h = absurd (omega arith)
process_items-Batched ((w, item) ∷ rest) (r ∷ rs) s enough h =
    let one = item-Batched w item r s h in
    let more =
      process_items-Batched rest rs (process_item w item (some r) s) (omega arith) one.is_closed in
    record {
      is_closed = more.is_closed;
      analyzed = more.analyzed ∙ one.analyzed;
      events = omega (arith, more.events, one.events);
      alert_checks = more.alert_checks ∙ one.alert_checks;
      done = omega (arith, more.done, one.done);
    }

length-batch_items : (batch : List (World × Item)) → length (batch_items batch) ≡ length batch
unfolding batch_items
length-batch_items [] = refl
length-batch_items ((w, item) ∷ rest) = ap suc (length-batch_items rest)

-- A batch of at least two items, given to the engine's own `batch_analyze` with a loaded model, never
-- counts as a failure, whatever the model does and even if it raises on every item: a closed breaker
-- stays closed, `check_and_fire` is not called, the pipeline makes no call of `analyze_image`, one event is
-- published for each item, and each item is marked as done.
pub engine-Batched :
    (decimal : ℕ → String) (use_stub : Bool) (model : BatchItem → Outcome)
    (batch : List (World × Item)) (s : Vlm)
    → 2 ≤ length batch
    → s.circuit_breaker.state ≡ closed
    → Batched
        (length batch)
        s
        (process_batch true (batch_analyze decimal true use_stub model) batch s)
unfolding process_batch
engine-Batched decimal use_stub model batch s two h =
    let several : ltb 1 (length batch) ≡ true = lt→ltb 1 (length batch) two in
    let (results, same, enough) = batch_analyze-length decimal use_stub model (batch_items batch) in
    rw (several, same)
      (process_items-Batched batch results s (omega (arith, enough, length-batch_items batch)) h)

-- The same world without a retrieved context.
pub without_context : List (World × Item) → List (World × Item)
without_context [] = []
without_context ((w, item) ∷ rest) = (record w { rag_text = none }, item) ∷ without_context rest

with_history-contexts :
    (device_id p q : String) (cs : Dict ConversationContext)
    → (with_history device_id p cs).0 ≡ (with_history device_id q cs).0
unfolding with_history
with_history-contexts device_id p q cs = elim (Bool-cases (is_text device_id)) [
  | inl e ↦ rw e refl
  | inr e ↦ rw e refl
]

attempt-without_context :
    (w : World) (item : Item) (result : String) (s : Vlm)
    → attempt w item (some result) s ≡ attempt (record w { rag_text = none }) item (some result) s
unfolding attempt settle succeed publish_result analysis_of apply_vlm_guidance
attempt-without_context w item result s =
    rw
      (with_history-contexts item.device_id (with_context s.services w item)
        (with_context s.services (record w { rag_text = none }) item) s.conversations)
      refl

process_item-without_context :
    (w : World) (item : Item) (result : String) (s : Vlm)
    → process_item w item (some result) s
      ≡ process_item (record w { rag_text = none }) item (some result) s
unfolding process_item
process_item-without_context w item result s =
    let b = (allow_request w.asked_at s.circuit_breaker).0 in
    rw (attempt-without_context w item result (record s { circuit_breaker = b })) refl

-- Where the engine gave a result for every item of a batch, the retrieved historical context has no
-- effect at all: without it, the pipeline does the same to the last detail.
pub process_items-without_context :
    (batch : List (World × Item)) (results : List String) (s : Vlm)
    → length batch ≤ length results
    → process_items batch (some results) s ≡ process_items (without_context batch) (some results) s
unfolding process_items without_context result_at later_results
process_items-without_context [] results s enough = refl
process_items-without_context ((w, item) ∷ rest) [] s enough = absurd (omega arith)
process_items-without_context ((w, item) ∷ rest) (r ∷ rs) s enough =
    process_items-without_context rest rs (process_item w item (some r) s) (omega arith)
    ∙ ap (λ v. process_items (without_context rest) (some rs) v)
        (process_item-without_context w item r s)
