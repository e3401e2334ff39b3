-- ===== src/Pipeline/VlmPipeline/Commands.antt =====
-- The numbers of the commands of vlm_pipeline.py, and the items that are marked as done.
use neuro_pipeline.Prelude.{
  ℕ, suc, ◌+◌, ◌≤◌, ◌<◌, ◌≡◌, refl, ap, String, Bool, true, false, List, [], ◌∷◌, ◌++◌, ◌&&◌,
  Option, none, some, arith, length, if◌then◌else◌, Bool-cases, inl, inr,
}
use neuro_pipeline.Observability.CircuitBreaker.{allow_request}
use neuro_pipeline.Inference.Engine.{BatchItem}
use neuro_pipeline.Pipeline.VlmPipeline.{
  Item, World, Vlm, ConfigAdjustment, ControlCommand, send_one, send_all, apply_to,
  apply_vlm_guidance, is_text, succeed, publish_result, fail, settle, attempt, with_history,
  with_context, task_done, process_batch, process_item, process_items, result_at, later_results,
}
use neuro_pipeline.Pipeline.VlmPipeline.Steps.{
  attempt-batched, attempt-alone, asking, asked_of, process_item-admitted, process_item-refused,
}

-- The ids rise strictly from above `low`, and end at `high` at most.
unfoldable pub Rising : ℕ → List ControlCommand → ℕ → Type 0
Rising low [] high = low ≤ high
Rising low (c ∷ cs) high = (low < c.command_id) × Rising c.command_id cs high

Rising-append :
    (low high : ℕ) (cs : List ControlCommand) (c : ControlCommand)
    → Rising low cs high
    → high < c.command_id
    → Rising low (cs ++ (c ∷ [])) c.command_id
unfolding Rising
Rising-append low high [] c h above = (omega (arith, h), omega arith)
Rising-append low high (d ∷ cs) c h above = (h.0, Rising-append d.command_id high cs c h.1 above)

Rising-suc :
    (low high : ℕ) (cs : List ControlCommand) → Rising low cs high → Rising low cs (suc high)
unfolding Rising
Rising-suc low high [] h = omega (arith, h)
Rising-suc low high (d ∷ cs) h = (h.0, Rising-suc d.command_id high cs h.1)

-- Every command has a number of its own, and the next one will have one too.
unfoldable pub IsNumbered : Vlm → Type 0
IsNumbered s = Rising 0 s.commands s.command_id_counter

numbered :
    (s s' : Vlm)
    → s'.commands ≡ s.commands
    → s'.command_id_counter ≡ s.command_id_counter
    → IsNumbered s
    → IsNumbered s'
unfolding IsNumbered
numbered s s' e f h = rw (e, f) h

send_all-IsNumbered :
    (adjustments : List ConfigAdjustment) (s : Vlm)
    → IsNumbered s
    → IsNumbered (send_all adjustments s)
unfolding send_all send_one IsNumbered
send_all-IsNumbered [] s h = h
send_all-IsNumbered (a ∷ rest) s h = elim (Bool-cases a.builds) [
  | inl e ↦ rw e (
      send_all-IsNumbered rest (send_one a s)
        (Rising-append 0 s.command_id_counter s.commands _ h (omega arith)))
  | inr e ↦ rw e (Rising-suc 0 s.command_id_counter s.commands h)
]

if-IsNumbered :
    (b : Bool) (s s' : Vlm) → IsNumbered s → IsNumbered s' → IsNumbered (if b then s' else s)
if-IsNumbered true s s' h h' = h'
if-IsNumbered false s s' h h' = h

apply_to-IsNumbered :
    (o : Option (List ConfigAdjustment)) (s : Vlm) → IsNumbered s → IsNumbered (apply_to o s)
unfolding apply_to
apply_to-IsNumbered none s h = h
apply_to-IsNumbered (some adjustments) s h =
    if-IsNumbered s.services.command_queue s (send_all adjustments s) h
      (send_all-IsNumbered adjustments s h)

settle-IsNumbered :
    (w : World) (item : Item) (o : Option String) (s : Vlm)
    → IsNumbered s
    → IsNumbered (settle w item o s)
unfolding settle succeed publish_result fail apply_vlm_guidance
settle-IsNumbered w item none s h = numbered s (fail w s) refl refl h
settle-IsNumbered w item (some result) s h =
    let s' = publish_result w item result s in
    if-IsNumbered (s.services.vlm_config_guide && is_text item.device_id) s'
      (apply_to (w.adjustments result) s') (numbered s s' refl refl h)
      (apply_to-IsNumbered (w.adjustments result) s' (numbered s s' refl refl h))

attempt-IsNumbered :
    (w : World) (item : Item) (o : Option String) (s : Vlm)
    → IsNumbered s
    → IsNumbered (attempt w item o s)
unfolding attempt asking
attempt-IsNumbered w item (some result) s h =
    let asked = with_history item.device_id (with_context s.services w item) s.conversations in
    let s' = record s { conversations = asked.0 } in
    settle-IsNumbered w item (some result) s' (numbered s s' refl refl h)
attempt-IsNumbered w item none s h =
    let s' = asking w item s in
    settle-IsNumbered w item (w.analyze_image (asked_of w item s)) s' (numbered s s' refl refl h)

process_item-IsNumbered :
    (w : World) (item : Item) (o : Option String) (s : Vlm)
    → IsNumbered s
    → IsNumbered (process_item w item o s)
unfolding task_done
process_item-IsNumbered w item o s h =
    let s' = record s { circuit_breaker = (allow_request w.asked_at s.circuit_breaker).0 } in
    let kept = numbered s s' refl refl h in
    elim (Bool-cases (allow_request w.asked_at s.circuit_breaker).1) [
      | inl e ↦ rw (process_item-admitted w item o s e) (
          numbered (attempt w item o s') (task_done (attempt w item o s')) refl refl
            (attempt-IsNumbered w item o s' kept))
      | inr e ↦ rw (process_item-refused w item o s e) (numbered s' (task_done s') refl refl kept)
    ]

-- The ids of the commands that were sent rise strictly, so no two commands share one, and none is
-- above the counter. Processing a batch keeps this, whatever the guide adjusts, and also where the
-- message of a command could not be built and its number was skipped.
pub process_items-IsNumbered :
    (batch : List (World × Item)) (results : Option (List String)) (s : Vlm)
    → IsNumbered s
    → IsNumbered (process_items batch results s)
unfolding process_items
process_items-IsNumbered [] results s h = h
process_items-IsNumbered ((w, item) ∷ rest) results s h =
    process_items-IsNumbered rest (later_results results)
      (process_item w item (result_at results) s)
      (process_item-IsNumbered w item (result_at results) s h)

attempt-tasks_done :
    (w : World) (item : Item) (o : Option String) (s : Vlm)
    → (attempt w item o s).tasks_done ≡ s.tasks_done
unfolding asking
attempt-tasks_done w item (some result) s = (attempt-batched w item result s).done
attempt-tasks_done w item none s = (attempt-alone w item s).done

pub process_item-tasks_done :
    (w : World) (item : Item) (o : Option String) (s : Vlm)
    → (process_item w item o s).tasks_done ≡ suc s.tasks_done
unfolding task_done
process_item-tasks_done w item o s =
    let s' = record s { circuit_breaker = (allow_request w.asked_at s.circuit_breaker).0 } in
    elim (Bool-cases (allow_request w.asked_at s.circuit_breaker).1) [
      | inl e ↦ rw (process_item-admitted w item o s e) (ap suc (attempt-tasks_done w item o s'))
      | inr e ↦ rw (process_item-refused w item o s e) refl
    ]

-- Every item of a batch is marked as done exactly once: whether the breaker refuses it, the model
-- fails on it, or it succeeds, with results of the batch and without.
pub process_items-tasks_done :
    (batch : List (World × Item)) (results : Option (List String)) (s : Vlm)
    → (process_items batch results s).tasks_done ≡ s.tasks_done + length batch
unfolding process_items
process_items-tasks_done [] results s = omega arith
process_items-tasks_done ((w, item) ∷ rest) results s = omega (
  arith,
  process_items-tasks_done rest (later_results results) (process_item w item (result_at results) s),
  process_item-tasks_done w item (result_at results) s,
)

pub process_batch-tasks_done :
    (has_batch_analyze : Bool) (batch_analyze : List BatchItem → Option (List String))
    (batch : List (World × Item)) (s : Vlm)
    → (process_batch has_batch_analyze batch_analyze batch s).tasks_done
      ≡ s.tasks_done + length batch
unfolding process_batch
process_batch-tasks_done has_batch_analyze batch_analyze batch s =
    process_items-tasks_done batch _ s
