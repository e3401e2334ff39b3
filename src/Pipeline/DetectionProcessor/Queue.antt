-- ===== src/Pipeline/DetectionProcessor/Queue.antt =====
-- The requests that detection_processor.py queues for the VLM pipeline.
use neuro_pipeline.Prelude.{
  ℕ, suc, ◌<◌, ◌≡◌, refl, ap, ◌∙◌, sym, String, Bool, true, false, List, [], ◌∷◌, ◌++◌, append-nil,
  append_assoc, Option, none, some, if◌then◌else◌, take_all, arith, ◌&&◌,
}
use mathlib.Core.Path.{subst}
use neuro_pipeline.Pipeline.DetectionProcessor.{
  World, DetectionResult, DetectionProcessor, VlmTriggerRule, Parts, init, process, publish_all,
  trace_of, request_for, request_of, enqueue, match_vlm_rule,
}
use neuro_pipeline.Pipeline.DetectionProcessor.Enqueue.{
  Same, nothing_dropped, enqueue-Queued, if-Same, same, enqueue-Same, Queued,
}
use neuro_pipeline.Pipeline.DetectionProcessor.Published.{run, process-event_count}
use neuro_pipeline.Pipeline.VlmPipeline.{Item, has_bytes}

-- The request of one result, if it has one: a rule matches, the engine is there, and there is an
-- image.
unfoldable pub asked_by :
    Parts → World → String → DetectionResult → Option VlmTriggerRule → List Item
asked_by parts w trace_id result none = []
asked_by parts w trace_id result (some rule) =
    if parts.inference_engine && has_bytes result.frame_data
    then request_of w trace_id result rule ∷ []
    else []

-- The requests of results that arrive after `count` others.
unfoldable pub requests :
    (ℕ → String) → Parts → List VlmTriggerRule → ℕ → List (World × DetectionResult) → List Item
requests decimal parts rules count [] = []
requests decimal parts rules count ((w, result) ∷ rest) =
    asked_by parts w (trace_of decimal (suc count) result) result
      (match_vlm_rule rules result.boxes)
    ++ requests decimal parts rules (suc count) rest

module _ (w : World) (trace_id : String) (result : DetectionResult) where
  request_for-Same :
      (o : Option VlmTriggerRule) (p : DetectionProcessor)
      → Same p (request_for w trace_id result o p)
  unfolding request_for
  request_for-Same none p = same p
  request_for-Same (some rule) p =
      if-Same (p.parts.inference_engine && has_bytes result.frame_data) p
        (enqueue (request_of w trace_id result rule) p) p
        (enqueue-Same (request_of w trace_id result rule) p) (same p)

  request_for-Queued :
      (o : Option VlmTriggerRule) (xs : List Item) (p : DetectionProcessor)
      → 0 < p.maxsize
      → p.shutting_down ≡ false
      → Queued xs p
      → Queued (xs ++ asked_by p.parts w trace_id result o) (request_for w trace_id result o p)
  unfolding request_for asked_by
  request_for-Queued none xs p some_room on h = rw (append-nil xs) h
  request_for-Queued (some rule) xs p some_room on h =
      taken (p.parts.inference_engine && has_bytes result.frame_data)
    where
      taken :
          (b : Bool)
          → Queued
              (xs ++ (if b then request_of w trace_id result rule ∷ [] else []))
              (if b then enqueue (request_of w trace_id result rule) p else p)
      taken true = enqueue-Queued xs (request_of w trace_id result rule) p some_room on h
      taken false = rw (append-nil xs) h

module _ (decimal : ℕ → String) where
  -- The request of one result, with the processor that gets it.
  abbrev pub asked : World → DetectionResult → DetectionProcessor → List Item
  asked w result p =
      asked_by p.parts w (trace_of decimal (suc p.event_count) result) result
        (match_vlm_rule p.vlm_rules result.boxes)

  pub process-Same :
      (w : World) (result : DetectionResult) (p : DetectionProcessor)
      → Same p (process decimal w result p)
  unfolding process publish_all
  process-Same w result p =
      let counted = record p { event_count = suc p.event_count } in
      let h =
        request_for-Same w (trace_of decimal (suc p.event_count) result) result
          (match_vlm_rule p.vlm_rules result.boxes) counted in
      record {
        parts = h.parts;
        rules = h.rules;
        maxsize = h.maxsize;
        shutting_down = h.shutting_down;
      }

  process-Queued :
      (w : World) (result : DetectionResult) (xs : List Item) (p : DetectionProcessor)
      → 0 < p.maxsize
      → p.shutting_down ≡ false
      → Queued xs p
      → Queued (xs ++ asked w result p) (process decimal w result p)
  unfolding process publish_all
  process-Queued w result xs p some_room on h =
      let counted = record p { event_count = suc p.event_count } in
      let step =
        request_for-Queued w (trace_of decimal (suc p.event_count) result) result
          (match_vlm_rule p.vlm_rules result.boxes) xs counted some_room on
          (record { queue = h.queue; dropped = h.dropped; alert_checks = h.alert_checks }) in
      record { queue = step.queue; dropped = step.dropped; alert_checks = step.alert_checks }

  run-Queued :
      (rs : List (World × DetectionResult)) (xs : List Item) (p : DetectionProcessor)
      → 0 < p.maxsize
      → p.shutting_down ≡ false
      → Queued xs p
      → Queued (xs ++ requests decimal p.parts p.vlm_rules p.event_count rs) (run decimal rs p)
  unfolding run requests
  run-Queued [] xs p some_room on h = rw (append-nil xs) h
  run-Queued ((w, result) ∷ rest) xs p some_room on h =
      let p' = process decimal w result p in
      let s = process-Same w result p in
      let more =
        run-Queued rest (xs ++ asked w result p) p' (rw s.maxsize some_room) (s.shutting_down ∙ on)
          (process-Queued w result xs p some_room on h) in
      let regrouped =
        append_assoc xs (asked w result p)
          (requests decimal p'.parts p'.vlm_rules p'.event_count rest)
        ∙ ap
            (λ parts.
              xs ++ (asked w result p ++ requests decimal parts p'.vlm_rules p'.event_count rest))
            s.parts
        ∙ ap
            (λ rules.
              xs ++ (asked w result p ++ requests decimal p.parts rules p'.event_count rest))
            s.rules
        ∙ ap (λ n. xs ++ (asked w result p ++ requests decimal p.parts p.vlm_rules n rest))
            (process-event_count decimal w result p) in
      subst (λ ys. Queued ys (run decimal rest p')) regrouped more

  -- While nothing is taken out of a new queue with a positive size, it holds the first requests that
  -- the results make, in their order and as many as it has room for. Each later request is dropped,
  -- and `check_and_fire` is called once for each if there is an alert manager, whose cooldown decides
  -- which of these calls fire an alert. A result makes a request if a rule matches it, the engine is
  -- there and it has an image.
  pub run-queue_full :
      (rs : List (World × DetectionResult)) (parts : Parts) (rules : List VlmTriggerRule)
      (maxsize : ℕ)
      → 0 < maxsize
      → Queued (requests decimal parts rules 0 rs) (run decimal rs (init parts rules maxsize))
  unfolding init
  run-queue_full rs parts rules maxsize some_room =
      run-Queued rs [] (init parts rules maxsize) some_room refl (record {
        queue = sym (take_all [] maxsize (omega arith));
        dropped = omega arith;
        alert_checks = nothing_dropped parts.alert_manager maxsize;
      })
