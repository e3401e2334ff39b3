-- ===== src/ModelManagement/AbTest.antt =====
-- mac-central/src/model_management/ab_test_manager.py: `ABTestManager`. A score is a fraction, and is
-- compared and subtracted as one; latencies are numbers of a fixed unit. The traffic split is
-- `split` of `whole` parts, and a call that draws a random number takes the draw, below `whole`.
pub mod Groups
pub mod Evaluation
pub mod Confidence
mod Tests
use neuro_pipeline.Prelude.{
  ℕ, suc, ◌+◌, ◌-◌, ◌*◌, min, max, String, Bool, true, false, ◌&&◌, List, [], ◌∷◌, map, Option,
  none, some, str_eq, ltb, leb, if◌then◌else◌,
}
use neuro_pipeline.Prelude.Dict.{Dict, get, put}

pub data AbGroup : Type 0 where
  control treatment : AbGroup

pub record VariantMetrics : Type 0 where
  pub variant_name : String
  pub total_inferences : ℕ
  pub total_latency : ℕ
  pub correct_detections : ℕ
  pub total_detections : ℕ

pub record Fraction : Type 0 where
  pub numerator : ℕ
  pub denominator : ℕ

pub avg_latency : VariantMetrics → Fraction
avg_latency m = record { numerator = m.total_latency; denominator = max m.total_inferences 1 }

pub accuracy : VariantMetrics → Fraction
accuracy m = record { numerator = m.correct_detections; denominator = max m.total_detections 1 }

pub le_fraction : Fraction → Fraction → Bool
le_fraction a b = leb (a.numerator * b.denominator) (b.numerator * a.denominator)

pub record AbTestResult : Type 0 where
  pub winner : String
  pub control_metrics : VariantMetrics
  pub treatment_metrics : VariantMetrics
  pub confidence : Fraction
  pub sufficient_samples : Bool

pub record AbTestManager : Type 0 where
  pub control_variant : String
  pub treatment_variant : String
  pub split : ℕ
  pub min_samples : ℕ
  pub metric : String
  pub device_groups : Dict AbGroup
  pub metrics : Dict VariantMetrics

pub new_metrics : String → VariantMetrics
new_metrics name = record {
  variant_name = name;
  total_inferences = 0;
  total_latency = 0;
  correct_detections = 0;
  total_detections = 0;
}

-- `__init__`; the split is cut to the whole.
pub init : String → String → ℕ → ℕ → ℕ → String → AbTestManager
unfolding new_metrics
init control_variant treatment_variant whole traffic_split min_samples metric = record {
  control_variant = control_variant;
  treatment_variant = treatment_variant;
  split = min whole traffic_split;
  min_samples = min_samples;
  metric = metric;
  device_groups = [];
  metrics =
      put treatment_variant (new_metrics treatment_variant)
        (put control_variant (new_metrics control_variant) []);
}

pub draw_group : ℕ → AbTestManager → AbGroup
draw_group draw m = if ltb draw m.split then treatment else control

pub assign_group : ℕ → String → AbTestManager → AbTestManager × AbGroup
unfolding draw_group
assign_group draw device_id m = elim (get device_id m.device_groups) [
  | some g ↦ (m, g)
  | none ↦ (
    record m { device_groups = put device_id (draw_group draw m) m.device_groups },
    draw_group draw m,
  )
]

unfoldable pub get_group : String → AbTestManager → Option AbGroup
get_group device_id m = get device_id m.device_groups

pub variant_of : AbGroup → AbTestManager → String
variant_of control m = m.control_variant
variant_of treatment m = m.treatment_variant

unfoldable pub get_variant : ℕ → String → AbTestManager → AbTestManager × String
unfolding assign_group variant_of
get_variant draw device_id m =
    let assigned = assign_group draw device_id m in (assigned.0, variant_of assigned.1 m)

pub count_inference : ℕ → VariantMetrics → VariantMetrics
count_inference latency v = record v {
  total_inferences = suc v.total_inferences;
  total_latency = v.total_latency + latency;
}

pub count_detection : Bool → VariantMetrics → VariantMetrics
count_detection correct v = record v {
  total_detections = suc v.total_detections;
  correct_detections = if correct then suc v.correct_detections else v.correct_detections;
}

-- Changes the metrics of a variant, if it is one of the two.
pub change : String → (VariantMetrics → VariantMetrics) → AbTestManager → AbTestManager
change variant f m = elim (get variant m.metrics) [
  | none ↦ m
  | some v ↦ record m { metrics = put variant (f v) m.metrics }
]

pub record_inference : String → ℕ → AbTestManager → AbTestManager
unfolding change count_inference
record_inference variant latency m = change variant (count_inference latency) m

pub record_detection : String → Bool → AbTestManager → AbTestManager
unfolding change count_detection
record_detection variant correct m = change variant (count_detection correct) m

-- `abs(a - b)`
pub distance : ℕ → ℕ → ℕ
distance a b = (a - b) + (b - a)

-- `abs(a - b) / max(a, b, 1)` and `abs(a - b)`
pub relative_difference : Fraction → Fraction → Fraction
unfolding distance
relative_difference a b = record {
  numerator = distance (a.numerator * b.denominator) (b.numerator * a.denominator);
  denominator =
      max (max (a.numerator * b.denominator) (b.numerator * a.denominator))
        (a.denominator * b.denominator);
}

pub difference : Fraction → Fraction → Fraction
unfolding distance
difference a b = record {
  numerator = distance (a.numerator * b.denominator) (b.numerator * a.denominator);
  denominator = a.denominator * b.denominator;
}

-- `min(diff * 10, 1.0)`
pub ten_times : Fraction → Fraction
ten_times d = record {
  numerator = min (d.numerator * 10) d.denominator;
  denominator = d.denominator;
}

pub confidence_of : Bool → Fraction → Fraction
unfolding ten_times
confidence_of sufficient d =
    if sufficient then ten_times d else record { numerator = 0; denominator = 1 }

pub enough : AbTestManager → VariantMetrics → VariantMetrics → Bool
enough m c t = leb m.min_samples c.total_inferences && leb m.min_samples t.total_inferences

pub result_of : AbTestManager → VariantMetrics → VariantMetrics → AbTestResult
unfolding enough avg_latency accuracy le_fraction relative_difference difference confidence_of
result_of m c t =
    if str_eq m.metric "latency"
    then record {
      winner =
          if le_fraction (avg_latency c) (avg_latency t)
          then m.control_variant
          else m.treatment_variant;
      control_metrics = c;
      treatment_metrics = t;
      confidence =
          confidence_of (enough m c t) (relative_difference (avg_latency c) (avg_latency t));
      sufficient_samples = enough m c t;
    }
    else record {
      winner =
          if le_fraction (accuracy t) (accuracy c) then m.control_variant else m.treatment_variant;
      control_metrics = c;
      treatment_metrics = t;
      confidence = confidence_of (enough m c t) (difference (accuracy c) (accuracy t));
      sufficient_samples = enough m c t;
    }

-- `none` where a variant has no metrics and `self._metrics[…]` raises.
pub evaluate : AbTestManager → Option AbTestResult
unfolding result_of
evaluate m = elim (get m.control_variant m.metrics) [
  | none ↦ none
  | some c ↦ elim (get m.treatment_variant m.metrics) [
    | none ↦ none
    | some t ↦ some (result_of m c t)
  ]
]

pub get_metrics : AbTestManager → Dict VariantMetrics
get_metrics m = m.metrics

clear_all : Dict VariantMetrics → Dict VariantMetrics
clear_all [] = []
clear_all ((k, v) ∷ d) = (k, new_metrics v.variant_name) ∷ clear_all d

pub reset : AbTestManager → AbTestManager
unfolding clear_all new_metrics
reset m = record m { device_groups = []; metrics = clear_all m.metrics }
