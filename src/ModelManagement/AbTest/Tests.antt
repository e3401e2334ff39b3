-- ===== src/ModelManagement/AbTest/Tests.antt =====
-- Runs of ab_test_manager.py.
use neuro_pipeline.Prelude.{
  ℕ, ◌≡◌, ◌≢◌, refl, String, true, false, List, [], ◌∷◌, some, eq_iff, arith,
}
use neuro_pipeline.ModelManagement.AbTest.{
  AbTestManager, AbTestResult, VariantMetrics, init, evaluate, result_of, accuracy, le_fraction,
  difference, distance, confidence_of, ten_times, enough,
}
use neuro_pipeline.ModelManagement.AbTest.Groups.{Call, assigned, inferred}
use neuro_pipeline.ModelManagement.AbTest.Evaluation
use neuro_pipeline.ModelManagement.AbTest.Evaluation.{Entry, inference, tallied, run-evaluate}
use neuro_pipeline.Prelude.Dict.{get}

abbrev manager : AbTestManager
manager = init "v1" "v2" 100 50 1 "accuracy"

abbrev calls : List Call
calls = assigned 99 "edge" ∷ inferred "v2" 30 ∷ assigned 10 "other" ∷ []

abbrev entries : List Entry
entries =
    inference "v1" 30
    ∷ inference "v2" 20
    ∷ Evaluation.detected "v1" false
    ∷ Evaluation.detected "v2" true
    ∷ Evaluation.detected "v3" true
    ∷ []

distinct : ◌≢◌ {A = String} "v1" "v2"
distinct e = ground (arith, (eq_iff "v1" "v2").1 e)

run-evaluate_example :
    evaluate (Evaluation.run entries manager)
    ≡ some (result_of manager (tallied "v1" entries) (tallied "v2" entries))
run-evaluate_example = run-evaluate "v1" "v2" 100 50 1 "accuracy" entries distinct

abbrev metrics : ℕ → VariantMetrics
metrics n = record {
  variant_name = "v";
  total_inferences = 1;
  total_latency = 5;
  correct_detections = n;
  total_detections = 2;
}

abbrev tried : AbTestManager
tried = record {
  control_variant = "v1";
  treatment_variant = "v2";
  split = 50;
  min_samples = 1;
  metric = "accuracy";
  device_groups = [];
  metrics = ("v1", metrics 1) ∷ ("v2", metrics 2) ∷ [];
}

-- The treatment wins; `min((2 / 2 - 1 / 2) * 10, 1)` is 4 of 4.
abbrev verdict : AbTestResult
verdict = record {
  winner = "v2";
  control_metrics = metrics 1;
  treatment_metrics = metrics 2;
  confidence = record { numerator = 4; denominator = 4 };
  sufficient_samples = true;
}

evaluate_test : evaluate tried ≡ some verdict
unfolding evaluate result_of accuracy le_fraction difference distance confidence_of ten_times enough
    get
evaluate_test = refl
