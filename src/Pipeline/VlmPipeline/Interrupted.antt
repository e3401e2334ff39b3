-- ===== src/Pipeline/VlmPipeline/Interrupted.antt =====
-- mac-central/src/pipeline/vlm_pipeline.py: an item of `_process_item` that is cancelled. A cancellation
-- is no `Exception`, so of the handlers only `finally` runs. It comes while the task waits: for
-- `analyze_image`, or for an upload. Putting a command into a queue without a limit does not wait.
use neuro_pipeline.Prelude.{Option, none, some, suc, ◌≡◌, refl, ap, String, ◌++◌, [], ◌∷◌}
use neuro_pipeline.Observability.CircuitBreaker.{allow_request}
use neuro_pipeline.Pipeline.VlmPipeline.{
  Item, World, Vlm, with_context, with_history, publish_result, task_done,
}

-- Where the item is when it is cancelled; an upload comes after the result.
pub data Point : Type 0 where
  while_asking while_uploading : Point

-- The effects up to the upload; without a result the item is still at the call of the model.
answered : World → Item → Option String → Vlm → Vlm
answered w item none s = s
answered w item (some result) s = publish_result w item result s

-- The effects of the item up to there, given its part of the batch's results.
until : World → Item → Option String → Point → Vlm → Vlm
unfolding answered
until w item batch_result at s =
    let asked = with_history item.device_id (with_context s.services w item) s.conversations in
    let s' = record s { conversations = asked.0 } in
    let called = record s' { analyzed = s.analyzed ++ (asked.1 ∷ []) } in
    elim at [
      | while_asking ↦ called
      | while_uploading ↦ elim batch_result [
        | some result ↦ answered w item (some result) s'
        | none ↦ answered w item (w.analyze_image asked.1) called
      ]
    ]

-- The item with its `finally` block; the circuit breaker was asked first.
pub interrupt_item : World → Item → Option String → Point → Vlm → Vlm
unfolding until
interrupt_item w item batch_result at s = task_done (
    until w item batch_result at
      (record s { circuit_breaker = (allow_request w.asked_at s.circuit_breaker).0 }))

answered-tasks_done :
    (w : World) (item : Item) (result : Option String) (s : Vlm)
    → (answered w item result s).tasks_done ≡ s.tasks_done
unfolding answered publish_result
answered-tasks_done w item none s = refl
answered-tasks_done w item (some result) s = refl

until-tasks_done :
    (w : World) (item : Item) (batch_result : Option String) (at : Point) (s : Vlm)
    → (until w item batch_result at s).tasks_done ≡ s.tasks_done
unfolding until
until-tasks_done w item batch_result while_asking s = refl
until-tasks_done w item (some result) while_uploading s = answered-tasks_done w item (some result) _
until-tasks_done w item none while_uploading s = answered-tasks_done w item _ _

pub interrupt_item-tasks_done :
    (w : World) (item : Item) (batch_result : Option String) (at : Point) (s : Vlm)
    → (interrupt_item w item batch_result at s).tasks_done ≡ suc s.tasks_done
unfolding interrupt_item task_done
interrupt_item-tasks_done w item batch_result at s =
    ap suc (until-tasks_done w item batch_result at _)
