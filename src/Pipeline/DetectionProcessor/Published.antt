-- ===== src/Pipeline/DetectionProcessor/Published.antt =====
-- What detection_processor.py publishes.
use neuro_pipeline.Prelude.{
  ℕ, suc, ◌≡◌, refl, ap, ◌∙◌, String, Bool, true, false, List, [], ◌∷◌, ◌++◌, append-nil,
  append_assoc, Option, none, some, filter, filter-append, if◌then◌else◌, map, ◌&&◌,
}
use neuro_pipeline.Pipeline.DetectionProcessor.{
  World, DetectionResult, DetectionProcessor, ServerEvent, BehaviorEvent, AnomalyScore,
  VlmTriggerRule, behavior_alert, anomaly_alert, detection, process, publish_all, behavior_events,
  anomaly_events, alert_for, trace_of, request_for, request_of, enqueue, is_full, match_vlm_rule,
  has_detections,
}
use neuro_pipeline.Pipeline.VlmPipeline.{Item, has_bytes}

-- `process` for each result, with its world.
unfoldable pub run :
    (ℕ → String) → List (World × DetectionResult) → DetectionProcessor → DetectionProcessor
run decimal [] p = p
run decimal ((w, result) ∷ rest) p = run decimal rest (process decimal w result p)

unfoldable pub is_detection : ServerEvent → Bool
is_detection (behavior_alert device e) = false
is_detection (anomaly_alert device s now) = false
is_detection (detection frame_id trace_id device_id detections now) = true

-- The detection events of results that arrive after `count` others.
unfoldable pub detections_of : (ℕ → String) → ℕ → List (World × DetectionResult) → List ServerEvent
detections_of decimal count [] = []
detections_of decimal count ((w, result) ∷ rest) =
    detection result.frame_id (trace_of decimal (suc count) result) result.device_id result.boxes
      w.now
    ∷ detections_of decimal (suc count) rest

behaviors-none :
    (device : String) (es : List BehaviorEvent)
    → filter is_detection (map (behavior_alert device) es) ≡ []
unfolding is_detection
behaviors-none device [] = refl
behaviors-none device (e ∷ es) = behaviors-none device es

if-none :
    (b : Bool) (es : List ServerEvent)
    → filter is_detection es ≡ []
    → filter is_detection (if b then es else []) ≡ []
if-none true es h = h
if-none false es h = refl

behavior_events-none :
    (w : World) (result : DetectionResult) (analyzer : Bool)
    → filter is_detection (behavior_events w result analyzer) ≡ []
unfolding behavior_events
behavior_events-none w result analyzer =
    if-none (analyzer && has_detections result) _ (answered w.analyze)
  where
    answered :
        (o : Option (List BehaviorEvent))
        → filter is_detection
            (elim o [ none ↦ [] | some es ↦ map (behavior_alert result.device_id) es ])
          ≡ []
    answered none = refl
    answered (some es) = behaviors-none result.device_id es

alert_for-none :
    (w : World) (result : DetectionResult) (o : Option AnomalyScore)
    → filter is_detection (alert_for w result o) ≡ []
unfolding alert_for is_detection
alert_for-none w result none = refl
alert_for-none w result (some s) =
    if-none s.is_anomaly (anomaly_alert result.device_id s w.now ∷ []) refl

anomaly_events-none :
    (w : World) (result : DetectionResult) (baseline : Bool)
    → filter is_detection (anomaly_events w result baseline) ≡ []
unfolding anomaly_events
anomaly_events-none w result baseline =
    if-none (baseline && has_detections result) (alert_for w result w.score)
      (alert_for-none w result w.score)

-- A step that leaves the events and the count as they are.
record Silent (p p' : DetectionProcessor) : Type 0 where
  pub published : p'.published ≡ p.published
  pub event_count : p'.event_count ≡ p.event_count

if-Silent :
    (b : Bool) (p q r : DetectionProcessor)
    → Silent p q
    → Silent p r
    → Silent p (if b then q else r)
if-Silent true p q r h k = h
if-Silent false p q r h k = k

enqueue-Silent : (item : Item) (p : DetectionProcessor) → Silent p (enqueue item p)
unfolding enqueue
enqueue-Silent item p =
    if-Silent p.shutting_down p p _ (record { published = refl; event_count = refl })
      (if-Silent (is_full p) p _ _ (record { published = refl; event_count = refl })
        (record { published = refl; event_count = refl }))

request_for-Silent :
    (w : World) (trace_id : String) (result : DetectionResult) (o : Option VlmTriggerRule)
    (p : DetectionProcessor)
    → Silent p (request_for w trace_id result o p)
unfolding request_for
request_for-Silent w trace_id result none p = record { published = refl; event_count = refl }
request_for-Silent w trace_id result (some rule) p =
    if-Silent (p.parts.inference_engine && has_bytes result.frame_data) p
      (enqueue (request_of w trace_id result rule) p) p
      (enqueue-Silent (request_of w trace_id result rule) p)
      (record { published = refl; event_count = refl })

module _ (decimal : ℕ → String) where
  process-published :
      (w : World) (result : DetectionResult) (p : DetectionProcessor)
      → (process decimal w result p).published
        ≡ p.published
          ++ (behavior_events w result p.parts.behavior_analyzer
              ++ (anomaly_events w result p.parts.anomaly_baseline
                  ++ (detection result.frame_id
                        (trace_of decimal (suc p.event_count) result)
                        result.device_id
                        result.boxes
                        w.now
                      ∷ [])))
  unfolding process publish_all
  process-published w result p =
      let counted = record p { event_count = suc p.event_count } in
      let trace_id = trace_of decimal (suc p.event_count) result in
      let rule = match_vlm_rule p.vlm_rules result.boxes in
      let silent = request_for-Silent w trace_id result rule counted in
      let behaviors = behavior_events w result p.parts.behavior_analyzer in
      let anomalies = anomaly_events w result p.parts.anomaly_baseline in
      let last = detection result.frame_id trace_id result.device_id result.boxes w.now ∷ [] in
      ap (λ es. ((es ++ behaviors) ++ anomalies) ++ last) silent.published
      ∙ append_assoc (p.published ++ behaviors) anomalies last
      ∙ append_assoc p.published behaviors (anomalies ++ last)

  pub process-event_count :
      (w : World) (result : DetectionResult) (p : DetectionProcessor)
      → (process decimal w result p).event_count ≡ suc p.event_count
  unfolding process publish_all
  process-event_count w result p =
      let counted = record p { event_count = suc p.event_count } in
      let silent =
        request_for-Silent w (trace_of decimal (suc p.event_count) result) result
          (match_vlm_rule p.vlm_rules result.boxes) counted in
      silent.event_count

  process-detections :
      (w : World) (result : DetectionResult) (p : DetectionProcessor)
      → filter is_detection (process decimal w result p).published
        ≡ filter is_detection p.published
          ++ (detection result.frame_id
                (trace_of decimal (suc p.event_count) result)
                result.device_id
                result.boxes
                w.now
              ∷ [])
  unfolding is_detection
  process-detections w result p =
      rw
        (
          process-published w result p,
          filter-append is_detection p.published _,
          filter-append is_detection (behavior_events w result p.parts.behavior_analyzer) _,
          filter-append is_detection (anomaly_events w result p.parts.anomaly_baseline) _,
          behavior_events-none w result p.parts.behavior_analyzer,
          anomaly_events-none w result p.parts.anomaly_baseline,
        )
        refl

  -- For every result exactly one detection event is published, in the order of the results: whichever
  -- of the analyzers raise, whatever they report besides, and whether the request to the VLM was
  -- queued, dropped or refused. A result without a trace id gets one from its position.
  pub run-detections :
      (rs : List (World × DetectionResult)) (p : DetectionProcessor)
      → filter is_detection (run decimal rs p).published
        ≡ filter is_detection p.published ++ detections_of decimal p.event_count rs
  unfolding run detections_of
  run-detections [] p = rw (append-nil (filter is_detection p.published)) refl
  run-detections ((w, result) ∷ rest) p =
      let more = run-detections rest (process decimal w result p) in
      let this =
        detection result.frame_id (trace_of decimal (suc p.event_count) result) result.device_id
          result.boxes w.now
        ∷ [] in
      more
      ∙ ap
          (λ n.
            filter is_detection (process decimal w result p).published
            ++ detections_of decimal n rest)
          (process-event_count w result p)
      ∙ ap (λ es. es ++ detections_of decimal (suc p.event_count) rest)
          (process-detections w result p)
      ∙ append_assoc (filter is_detection p.published) this
          (detections_of decimal (suc p.event_count) rest)
