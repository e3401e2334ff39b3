-- ===== src/Storage/DetectionStore/Tests.antt =====
-- Runs of the detection store.
use neuro_pipeline.Prelude.{◌≡◌, ◌+◌, refl, ℕ, String, List, [], ◌∷◌, none, some, arith}
use neuro_pipeline.Prelude.Sort.{sorted}
use neuro_pipeline.Storage.DetectionStore.{
  Event, DetectionRow, DetectionStore, init, record_event, record_conversation, query, cleanup,
  count,
}
use neuro_pipeline.Storage.DetectionStore.Retention.{query-cleanup}

abbrev event : ℕ → String → Event
event t device = record {
  timestamp = some t;
  frame_id = some 1;
  trace_id = none;
  type = none;
  detections = some [];
  vlm_result = none;
  rule = none;
  device_id = some device;
}

abbrev store : DetectionStore
store =
    record_event 0 (event 90_000 "b")
      (record_event 0 (event 5 "a") (record_event 0 (event 100_000 "a") (init 1)))

abbrev talk : DetectionStore
talk = record_conversation 3 "a" "assistant" "a cat" "vlm" 0 (
    record_conversation 2 "b" "user" "who" "vlm" 0
      (record_conversation 1 "a" "user" "what" "vlm" 0 (init 1)))

times : List DetectionRow → List ℕ
times [] = []
times (r ∷ rs) = r.timestamp ∷ times rs

query_test : times (query 200_000 0 0 10 "a" store) ≡ 100_000 ∷ 5 ∷ []
unfolding query record_event init times sorted
query_test = refl

query-cleanup_example :
    (query 100_000 20_000 0 10 "a" (cleanup 100_000 store).0 ≡ query 100_000 20_000 0 10 "a" store)
    × (count (cleanup 100_000 store).0 + (cleanup 100_000 store).1 ≡ count store)
unfolding record_event init
query-cleanup_example = query-cleanup 100_000 100_000 20_000 0 10 "a" store (omega arith)
