-- ===== src/Inference/RagRetriever/Tests.antt =====
-- Runs of rag_retriever.py.
use neuro_pipeline.Prelude.{◌≡◌, refl, ℕ, String, [], ◌∷◌, none, some}
use neuro_pipeline.Prelude.Text.{join}
use neuro_pipeline.Prelude.Sort.{sorted}
use neuro_pipeline.Storage.DetectionStore.{DetectionRow, DetectionStore, query}
use neuro_pipeline.Inference.RagRetriever.{RagRetriever, Format, retrieve}

abbrev seen : ℕ → String → DetectionRow
seen t class_name = record {
  timestamp = t;
  frame_id = none;
  trace_id = none;
  event_type = "detection";
  detections =
      record { class_name = class_name; confidence = 9; x_min = 0; y_min = 0; x_max = 1; y_max = 1 }
      ∷ [];
  vlm_result = none;
  rule_matched = none;
  device_id = "cam";
}

abbrev store : DetectionStore
store = record {
  detections =
      seen 100_000 "person" ∷ seen 100_001 "car" ∷ seen 100_002 "car" ∷ seen 100_003 "car" ∷ [];
  timeseries = [];
  conversations = [];
  retention_days = 7;
}

abbrev retriever : RagRetriever
retriever = record { store = some store; max_items = 1; time_window_hours = 24 }

abbrev format : Format
format = record { decimal = λ n. "1"; clock = λ n. "12:00:00" }

-- The person is behind three newer rows, which are all that is read.
hidden : (retrieve format 100_009 100_009 "cam" ("person" ∷ []) 0 retriever).items ≡ []
unfolding retrieve query sorted
hidden = refl

summary_test :
    (retrieve format 100_009 100_009 "cam" ("car" ∷ []) 0 retriever).summary
    ≡ "Recent history for cam (1 events, last 1h):\n  [12:00:00] detection: car"
unfolding retrieve query sorted join
summary_test = refl
