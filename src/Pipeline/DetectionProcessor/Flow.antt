-- ===== src/Pipeline/DetectionProcessor/Flow.antt =====
-- What one result adds to the queue of detection_processor.py.
use neuro_pipeline.Prelude.{
  ℕ, suc, ◌+◌, ◌≤◌, ◌<◌, ◌≡◌, String, Bool, true, false, List, [], ◌∷◌, Option, none, some,
  if◌then◌else◌, length, length-append, arith, ◌&&◌,
}
use neuro_pipeline.Pipeline.DetectionProcessor.{
  World, DetectionResult, DetectionProcessor, VlmTriggerRule, process, publish_all, trace_of,
  request_for, request_of, enqueue, is_full, match_vlm_rule,
}
use neuro_pipeline.Pipeline.DetectionProcessor.Queue.{asked_by, asked}
use neuro_pipeline.Pipeline.VlmPipeline.{Item, has_bytes}

-- How many requests are put into the queue, or dropped.
abbrev pub put_count : Bool → List Item → ℕ
put_count shutting_down items = if shutting_down then 0 else length items

-- The requests that wait or were dropped, and the room.
record Flows (n : ℕ) (p p' : DetectionProcessor) : Type 0 where
  pub counted : length p'.vlm_queue + p'.dropped ≡ length p.vlm_queue + p.dropped + n
  pub bounded : length p.vlm_queue ≤ p.maxsize → length p'.vlm_queue ≤ p.maxsize

stays : (p : DetectionProcessor) → Flows 0 p p
stays p = record { counted = omega arith; bounded = λ h. h }

enqueue-Flows :
    (item : Item) (p : DetectionProcessor)
    → 0 < p.maxsize
    → Flows (put_count p.shutting_down (item ∷ [])) p (enqueue item p)
unfolding enqueue is_full
enqueue-Flows item p some_room = record {
  counted = ground (arith, length-append p.vlm_queue (item ∷ []));
  bounded = λ h. ground (arith, length-append p.vlm_queue (item ∷ []));
}

asked-Flows :
    (b : Bool) (item : Item) (p q : DetectionProcessor)
    → Flows (put_count p.shutting_down (item ∷ [])) p q
    → Flows (put_count p.shutting_down (if b then item ∷ [] else [])) p (if b then q else p)
asked-Flows true item p q h = h
asked-Flows false item p q h = record { counted = ground arith; bounded = λ k. k }

none-Flows : (p : DetectionProcessor) → Flows (put_count p.shutting_down []) p p
none-Flows p = record { counted = ground arith; bounded = λ h. h }

request_for-Flows :
    (w : World) (trace_id : String) (result : DetectionResult) (o : Option VlmTriggerRule)
    (p : DetectionProcessor)
    → 0 < p.maxsize
    → Flows
        (put_count p.shutting_down (asked_by p.parts w trace_id result o))
        p
        (request_for w trace_id result o p)
unfolding request_for asked_by
request_for-Flows w trace_id result none p some_room = none-Flows p
request_for-Flows w trace_id result (some rule) p some_room =
    asked-Flows (p.parts.inference_engine && has_bytes result.frame_data)
      (request_of w trace_id result rule) p (enqueue (request_of w trace_id result rule) p)
      (enqueue-Flows (request_of w trace_id result rule) p some_room)

-- Of the requests of a result, if any, each waits in the queue or was dropped, and the queue keeps its
-- size.
pub process-Flows :
    (decimal : ℕ → String) (w : World) (result : DetectionResult) (p : DetectionProcessor)
    → 0 < p.maxsize
    → (length (process decimal w result p).vlm_queue + (process decimal w result p).dropped
        ≡ length p.vlm_queue + p.dropped + put_count p.shutting_down (asked decimal w result p))
      × (length p.vlm_queue ≤ p.maxsize → length (process decimal w result p).vlm_queue ≤ p.maxsize)
unfolding process publish_all
process-Flows decimal w result p some_room =
    let counted = record p { event_count = suc p.event_count } in
    let h =
      request_for-Flows w (trace_of decimal (suc p.event_count) result) result
        (match_vlm_rule p.vlm_rules result.boxes) counted some_room in
    (h.counted, h.bounded)
