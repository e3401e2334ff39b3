-- ===== src/Pipeline/BehaviorAnalyzer/Tests.antt =====
-- Runs of behavior_analyzer.py.
use neuro_pipeline.Prelude.{◌≡◌, refl, ℕ, String, false, List, [], ◌∷◌, none, some, arith}
use neuro_pipeline.Prelude.Dict.{get, put}
use neuro_pipeline.Prelude.Sort.{sorted}
use neuro_pipeline.Pipeline.Detection.{Detection}
use neuro_pipeline.Storage.DetectionStore.{DetectionRow, DetectionStore, query}
use neuro_pipeline.Pipeline.BehaviorAnalyzer.{
  BehaviorAnalyzer, Check, Metadata, nothing, reports, class_count, duration, check_crowd,
  check_loitering,
}
use neuro_pipeline.Pipeline.BehaviorAnalyzer.Crowds.{IsCrowdCheck, check_crowd-IsCrowdCheck}
use neuro_pipeline.Pipeline.BehaviorAnalyzer.Loitering.{check_loitering_limited}

abbrev object : String → Detection
object c = record { class_name = c; confidence = 9; x_min = 0; y_min = 0; x_max = 1; y_max = 1 }

abbrev seen : ℕ → DetectionRow
seen t = record {
  timestamp = t;
  frame_id = none;
  trace_id = none;
  event_type = "detection";
  detections = object "person" ∷ [];
  vlm_result = none;
  rule_matched = none;
  device_id = "cam";
}

abbrev store : DetectionStore
store = record {
  detections = seen 100 ∷ seen 111 ∷ seen 112 ∷ seen 120 ∷ [];
  timeseries = [];
  conversations = [];
  retention_days = 7;
}

abbrev analyzer : ℕ → BehaviorAnalyzer
analyzer loiter_threshold = record {
  store = some store;
  loiter_threshold = loiter_threshold;
  crowd_threshold = 2;
  analysis_window = 300;
}

abbrev decimal : ℕ → String
decimal n = "2"

abbrev three : List Detection
three = object "car" ∷ object "person" ∷ object "person" ∷ []

found : Check → List Metadata
found (reports e) = e.metadata ∷ []
found _ = []

check_crowd-IsCrowdCheck_example :
    IsCrowdCheck decimal
      (analyzer 30)
      "cam"
      130
      three
      (check_crowd decimal (analyzer 30) "cam" 130 three)
check_crowd-IsCrowdCheck_example =
    check_crowd-IsCrowdCheck decimal (analyzer 30) "cam" 130 three (omega arith)

crowd_test : found (check_crowd decimal (analyzer 30) "cam" 130 three) ≡ class_count "person" 2 ∷ []
unfolding found check_crowd get put
crowd_test = refl

loitering_test :
    found (check_loitering decimal (analyzer 30) "cam" 130 130 false three (some store))
    ≡ duration 30 3 ∷ []
unfolding found check_loitering query sorted
loitering_test = refl

check_loitering_limited_example :
    check_loitering decimal (analyzer 2400) "cam" 130 130 false three (some store) ≡ nothing
check_loitering_limited_example =
    check_loitering_limited decimal (analyzer 2400) "cam" 130 130 false three (some store)
      (omega arith)
