-- ===== src/Inference/ConfigGuide/Tests.antt =====
-- Runs of vlm_config_guide.py.
use neuro_pipeline.Prelude.{◌≡◌, ◌≤◌, refl, String, true, false, [], ◌∷◌, ltb, length, All, some}
use neuro_pipeline.Prelude.Int.{negsuc, pos}
use neuro_pipeline.Prelude.Search.{after, includes, strip, text_length}
use neuro_pipeline.Inference.ConfigGuide.Regions.{Regex, extract_region}
use neuro_pipeline.Inference.ConfigGuide.{
  ConfigGuide, extract_recommendations, extract_sensitivity_delta, parse_vlm_result,
}
use neuro_pipeline.Inference.ConfigGuide.Adjustments.{IsSafe, parse_vlm_result-IsSafe}

-- An engine that captures the whole text once for each pattern.
abbrev whole : Regex
whole = record { findall = λ p s. s ∷ []; numbers = λ s. []; lower = λ s. s }

abbrev defaults : ConfigGuide
defaults = record {
  min_confidence = 60;
  max_adjustments_per_result = 3;
  enable_region_adjustment = true;
  enable_sensitivity_adjustment = true;
  enable_fps_adjustment = false;
}

abbrev advice : String
advice = "please lower the threshold"

parse_vlm_result-IsSafe_example :
    All (IsSafe defaults) (parse_vlm_result whole advice defaults).adjustments
    × (length (parse_vlm_result whole advice defaults).adjustments ≤ 3)
    × ((parse_vlm_result whole advice defaults).should_apply
        ≡ ltb 0 (length (parse_vlm_result whole advice defaults).adjustments))
parse_vlm_result-IsSafe_example = parse_vlm_result-IsSafe defaults whole advice

captured_once : extract_recommendations whole advice ≡ advice ∷ []
unfolding extract_recommendations strip after text_length
captured_once = refl

-- A lower threshold is asked for, and the sensitivity is decreased.
lower_threshold : extract_sensitivity_delta advice ≡ negsuc 4
unfolding extract_sensitivity_delta includes
lower_threshold = refl

-- A higher threshold is asked for, and nothing is moved.
raise_threshold : extract_sensitivity_delta "raise the threshold" ≡ pos 0
unfolding extract_sensitivity_delta includes
raise_threshold = refl

-- The part of the frame that is to be ignored is the part that is watched.
ignore_left :
    extract_region whole "ignore the left"
    ≡ some (record { x_min = 0; y_min = 0; x_max = 5000; y_max = 10_000 })
unfolding extract_region includes
ignore_left = refl
