-- ===== src/Inference/ConfigGuide.antt =====
-- mac-central/src/inference/vlm_config_guide.py: `VLMConfigGuide`. Confidences and sensitivities are
-- hundredths, and coordinates are parts of `unit`, so that a percentage has two places. The regular
-- expressions of keywords are run; what `findall` gives for the four that capture texts, what it gives
-- for numbers (as parts of `unit` for percentages), and `str.lower` are parameters.
pub mod Keywords
pub mod Regions
pub mod Adjustments
pub mod Recommendations
mod Tests
use neuro_pipeline.Prelude.{
  ℕ, suc, ◌+◌, String, Bool, true, false, not, ◌&&◌, ◌||◌, List, [], ◌∷◌, ◌++◌, map, Option, none,
  some, str_eq, ltb, leb, ◌==◌, min, max, any, length, take, if◌then◌else◌,
}
use neuro_pipeline.Prelude.Int.{ℤ, pos, negsuc}
use neuro_pipeline.Prelude.Text.{prefix, join}
use neuro_pipeline.Prelude.Search.{Pattern, search_in, includes, strip, text_length}
use neuro_pipeline.Prelude.Fraction.{Fraction}
use neuro_pipeline.Prelude.Dict.{Dict}
use neuro_pipeline.Inference.ConfigGuide.Keywords.{
  region_keywords, sensitivity_keywords, fps_keywords,
}
use neuro_pipeline.Inference.ConfigGuide.Regions.{DetectionRegion, Regex, extract_region}
use neuro_pipeline.Pipeline.VlmData.{
  ConfigAdjustmentType, detection_region, sensitivity, fps, focus_area,
}
use neuro_pipeline.Pipeline.VlmPipeline.{command_type}

pub record ConfigAdjustment : Type 0 where
  pub adjustment_type : ConfigAdjustmentType
  pub reason : String
  pub confidence : ℕ
  pub region : Option DetectionRegion
  pub sensitivity_delta : ℤ
  pub fps_delta : ℤ
  pub target_classes : List String

-- A value of a command's parameters.
pub data Param : Type 0 where
  text : String → Param
  part : ℕ → Param
  hundredths : ℤ → Param
  frames : ℤ → Param

-- `DetectionRegion.to_dict`, if there is a region
pub region_params : Option DetectionRegion → Dict Param
region_params none = []
region_params (some r) =
    ("x_min", part r.x_min)
    ∷ ("y_min", part r.y_min)
    ∷ ("x_max", part r.x_max)
    ∷ ("y_max", part r.y_max)
    ∷ []

params_for : ConfigAdjustmentType → ConfigAdjustment → Dict Param
unfolding region_params
params_for detection_region a = region_params a.region
params_for sensitivity a = ("delta", hundredths a.sensitivity_delta) ∷ []
params_for fps a = ("delta", frames a.fps_delta) ∷ []
params_for focus_area a =
    region_params a.region ++ (("classes", text (join "," a.target_classes)) ∷ [])

pub to_command_params : ConfigAdjustment → Dict Param
unfolding params_for
to_command_params a = ("reason", text a.reason) ∷ params_for a.adjustment_type a

pub record ConfigGuide : Type 0 where
  pub min_confidence : ℕ
  pub max_adjustments_per_result : ℕ
  pub enable_region_adjustment : Bool
  pub enable_sensitivity_adjustment : Bool
  pub enable_fps_adjustment : Bool

abbrev pub extraction_patterns : List String
extraction_patterns =
    "(?:recommendation|suggest|advise|should)[s]?:?\\s*(.+?)(?:\\n|$)" ∷ "\\d+\\.\\s*(.+?)(?:\\n|$)"
    ∷ "[-•]\\s*(.+?)(?:\\n|$)"
    ∷ "([A-Z][^.!?]*(?:adjust|change|modify|increase|decrease|focus|monitor|ignore)[^.!?]*[.!?])"
    ∷ []

find_each : Regex → String → List String → List String
find_each re s [] = []
find_each re s (p ∷ ps) = re.findall p s ++ find_each re s ps

pub is_new : String → List String → Bool
is_new rec seen = not (str_eq rec "") && not (any (str_eq rec) seen) && ltb 10 (text_length rec)

-- The loop that cleans, with what was seen.
pub clean : List String → List String → List String
unfolding is_new
clean seen [] = []
clean seen (raw ∷ raws) =
    let rec = strip raw in
    let added = rec ∷ clean (rec ∷ seen) raws in
    let skipped = clean seen raws in if is_new rec seen then added else skipped

pub extract_recommendations : Regex → String → List String
unfolding find_each clean
extract_recommendations re s = clean [] (find_each re s extraction_patterns)

pub extract_sensitivity_delta : String → ℤ
extract_sensitivity_delta s =
    if any (λ w. includes w s) ("increase" ∷ "higher" ∷ "more sensitive" ∷ "catch more" ∷ [])
    then pos 5
    else if any (λ w. includes w s) ("decrease" ∷ "lower" ∷ "less sensitive" ∷ "reduce false" ∷ [])
    then negsuc 4
    else pos 0

pub extract_fps_delta : String → ℤ
extract_fps_delta s =
    if any (λ w. includes w s) ("increase" ∷ "higher" ∷ "speed up" ∷ "faster" ∷ [])
    then pos 5
    else if any (λ w. includes w s) ("decrease" ∷ "lower" ∷ "slow down" ∷ "slower" ∷ [])
    then negsuc 4
    else pos 0

-- A new adjustment with the defaults.
abbrev adjustment : ConfigAdjustmentType → String → ℕ → ConfigAdjustment
adjustment kind rec confidence = record {
  adjustment_type = kind;
  reason = prefix 200 rec;
  confidence = confidence;
  region = none;
  sensitivity_delta = pos 0;
  fps_delta = pos 0;
  target_classes = [];
}

-- A region for the first pattern that is found, if the text gives one; otherwise the next pattern.
with_region : String → Option DetectionRegion → Option ConfigAdjustment → Option ConfigAdjustment
with_region rec none later = later
with_region rec (some r) later =
    some (record (adjustment detection_region rec 70) { region = some r })

pub region_adjustment : Regex → String → List Pattern → Option ConfigAdjustment
unfolding with_region
region_adjustment re rec [] = none
region_adjustment re rec (p ∷ ps) =
    let later = region_adjustment re rec ps in
    if search_in p (re.lower rec)
    then with_region rec (extract_region re (re.lower rec)) later
    else later

pub sensitivity_adjustment : Regex → String → List Pattern → Option ConfigAdjustment
sensitivity_adjustment re rec [] = none
sensitivity_adjustment re rec (p ∷ ps) =
    if search_in p (re.lower rec)
    then some (record (adjustment sensitivity rec 75) {
      sensitivity_delta = extract_sensitivity_delta (re.lower rec);
    })
    else sensitivity_adjustment re rec ps

pub fps_adjustment : Regex → String → List Pattern → Option ConfigAdjustment
fps_adjustment re rec [] = none
fps_adjustment re rec (p ∷ ps) =
    if search_in p (re.lower rec)
    then some (record (adjustment fps rec 60) { fps_delta = extract_fps_delta (re.lower rec) })
    else fps_adjustment re rec ps

or_else : Option ConfigAdjustment → Option ConfigAdjustment → Option ConfigAdjustment
or_else none later = later
or_else (some a) later = some a

-- A group of keywords that is looked for if it is enabled.
enabled : Bool → Option ConfigAdjustment → Option ConfigAdjustment
enabled true a = a
enabled false a = none

pub parse_recommendation : Regex → String → ConfigGuide → Option ConfigAdjustment
unfolding region_adjustment sensitivity_adjustment fps_adjustment or_else enabled
parse_recommendation re rec g =
    or_else (enabled g.enable_region_adjustment (region_adjustment re rec region_keywords)) (
      or_else
        (enabled g.enable_sensitivity_adjustment
          (sensitivity_adjustment re rec sensitivity_keywords))
        (enabled g.enable_fps_adjustment (fps_adjustment re rec fps_keywords)))

-- `adjustment and adjustment.confidence >= self.min_confidence`
keep_confident : ConfigGuide → Option ConfigAdjustment → List ConfigAdjustment
keep_confident g none = []
keep_confident g (some a) = if leb g.min_confidence a.confidence then a ∷ [] else []

pub parse_all : Regex → ConfigGuide → List String → List ConfigAdjustment
unfolding parse_recommendation keep_confident
parse_all re g [] = []
parse_all re g (rec ∷ recs) =
    keep_confident g (parse_recommendation re rec g) ++ parse_all re g recs

total_confidence : List ConfigAdjustment → ℕ
total_confidence [] = 0
total_confidence (a ∷ adjustments) = a.confidence + total_confidence adjustments

pub record VlmGuidanceResult : Type 0 where
  pub adjustments : List ConfigAdjustment
  pub raw_recommendations : List String
  pub parsing_confidence : Fraction
  pub should_apply : Bool

-- The result for the adjustments that were kept.
guidance : List String → List ConfigAdjustment → VlmGuidanceResult
unfolding total_confidence
guidance recs [] = record {
  adjustments = [];
  raw_recommendations = recs;
  parsing_confidence = record { num = 0; den = 1 };
  should_apply = false;
}
guidance recs (a ∷ adjustments) = record {
  adjustments = a ∷ adjustments;
  raw_recommendations = recs;
  parsing_confidence = record {
    num = total_confidence (a ∷ adjustments);
    den = length (a ∷ adjustments);
  };
  should_apply = true;
}

pub parse_vlm_result : Regex → String → ConfigGuide → VlmGuidanceResult
unfolding extract_recommendations guidance parse_all
parse_vlm_result re vlm_result g =
    let recs = extract_recommendations re vlm_result in
    guidance recs (parse_all re g (take g.max_adjustments_per_result recs))

pub record Command : Type 0 where
  pub type : ℕ
  pub command_id : ℕ
  pub parameters : Dict Param
  pub target_device_id : String

pub create_control_command : ConfigAdjustment → String → ℕ → Command
unfolding to_command_params
create_control_command a device_id command_id = record {
  type = command_type a.adjustment_type;
  command_id = command_id;
  parameters = to_command_params a;
  target_device_id = device_id;
}
