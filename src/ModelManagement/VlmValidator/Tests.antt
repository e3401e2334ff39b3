-- ===== src/ModelManagement/VlmValidator/Tests.antt =====
-- Runs of vlm_validator.py.
use neuro_pipeline.Prelude.{◌≡◌, refl, true, false}
use neuro_pipeline.ModelManagement.VlmValidator.{
  VlmValidator, World, answers, words, real, stub, run_inference, validate,
}
use neuro_pipeline.ModelManagement.VlmValidator.Passed.{accepts, IsJudged, validate-IsJudged}

abbrev validator : VlmValidator
validator = record { min_tps = 5; max_load_time = 60; test_prompt = "Describe this image briefly." }

abbrev world : World
world = record {
  exists = true;
  load_model = answers (real (λ prompt. answers (words 40)));
  load_started = 100;
  load_ended = 130;
  run_started = 130;
  run_ended = 138;
}

-- 40 tokens in 8 ticks are just enough, 40 tokens in 9 are not.
fast_test : accepts world validator ≡ true
unfolding accepts run_inference
fast_test = refl

slow_test : accepts (record world { run_ended = 139 }) validator ≡ false
unfolding accepts run_inference
slow_test = refl

-- Without `mlx_vlm` nothing is loaded, and the model passes.
stub_test : accepts (record world { load_model = answers stub }) validator ≡ true
unfolding accepts run_inference
stub_test = refl

validate-IsJudged_example :
    IsJudged true (validate (λ n. "9") (λ t. "5.0") world "/models/qwen" validator)
unfolding accepts run_inference
validate-IsJudged_example = validate-IsJudged (λ n. "9") (λ t. "5.0") world validator "/models/qwen"
