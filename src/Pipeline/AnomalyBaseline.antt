-- ===== src/Pipeline/AnomalyBaseline.antt =====
-- mac-central/src/pipeline/anomaly_baseline.py: `AnomalyBaseline` over the model of the time series.
-- Statistics are floating point numbers of any kind `W`; times are numbers of seconds.
mod Tests
use neuro_pipeline.Prelude.{
  ℕ, ◌+◌, ◌-◌, ◌*◌, String, Bool, true, false, List, [], ◌∷◌, map, Option, none, some, ◌==◌, ltb,
  length, if◌then◌else◌,
}
use neuro_pipeline.Prelude.Text.{◌⊕◌}
use neuro_pipeline.Prelude.Dict.{Dict, get, put, values}
use neuro_pipeline.Prelude.Float.{Float, sum, abs}
use neuro_pipeline.Storage.DetectionStore.{DetectionStore}
use neuro_pipeline.Storage.Timeseries.{query_timeseries}

pub record BaselineStats (W : Type 0) : Type 0 where
  pub metric_name : String
  pub device_id : String
  pub mean : W
  pub std_dev : W
  pub sample_count : ℕ
  pub last_updated : ℕ

pub record AnomalyScore (W : Type 0) : Type 0 where
  pub metric_name : String
  pub device_id : String
  pub value : W
  pub z_score : W
  pub is_anomaly : Bool
  pub baseline_mean : W
  pub baseline_std : W

pub record AnomalyBaseline (W : Type 0) : Type 0 where
  pub window_hours : ℕ
  pub z_threshold : W
  pub min_samples : ℕ
  pub baselines : Dict (BaselineStats W)

-- How `learn_baseline` ends; `sum(values) / len(values)` raises without values.
pub data Outcome (W : Type 0) : Type 0 where
  unavailable too_few divides_by_zero : Outcome W
  learned : BaselineStats W → Outcome W

pub init : {W : Type 0} → ℕ → W → ℕ → AnomalyBaseline W
init baseline_window_hours z_score_threshold min_samples = record {
  window_hours = baseline_window_hours;
  z_threshold = z_score_threshold;
  min_samples = min_samples;
  baselines = [];
}

-- `f"{device_id}:{metric_name}"`
pub key_of : String → String → String
key_of device_id metric_name = device_id ⊕ (":" ⊕ metric_name)

module _ {W : Type 0} ⦃f : Float W⦄ where
  mean_of : List W → W
  mean_of vs = f.div (sum vs) (f.of_nat (length vs))

  squares : W → List W → List W
  squares mean = map λ v. f.mul (f.sub v mean) (f.sub v mean)

  pub std_of : List W → W
  unfolding mean_of squares
  std_of vs = f.sqrt (f.div (sum (squares (mean_of vs) vs)) (f.of_nat (length vs)))

  pub stats_of : ℕ → String → String → List W → BaselineStats W
  unfolding mean_of std_of
  stats_of now device_id metric_name vs = record {
    metric_name = metric_name;
    device_id = device_id;
    mean = mean_of vs;
    std_dev = std_of vs;
    sample_count = length vs;
    last_updated = now;
  }

  -- What follows the query.
  pub learn_from : ℕ → String → String → List W → AnomalyBaseline W → AnomalyBaseline W × Outcome W
  unfolding stats_of
  learn_from now device_id metric_name vs a =
      let stats = stats_of now device_id metric_name vs in
      if ltb (length vs) a.min_samples
      then (a, too_few)
      else if length vs == 0
      then (a, divides_by_zero)
      else (
        record a { baselines = put (key_of device_id metric_name) stats a.baselines },
        learned stats,
      )

  -- The values of the window, up to 10000 of them.
  pub values_of : ℕ → String → String → ℕ → DetectionStore → List W
  values_of now device_id metric_name hours store =
      map (λ p. f.of_nat p.value)
        (query_timeseries now metric_name device_id (now - hours * 3600) now 10_000 store)

  -- The two clock readings are for the window and for the statistics.
  pub learn_baseline :
      ℕ
      → ℕ
      → String
      → String
      → Option DetectionStore
      → AnomalyBaseline W
      → AnomalyBaseline W × Outcome W
  unfolding learn_from values_of
  learn_baseline now later device_id metric_name none a = (a, unavailable)
  learn_baseline now later device_id metric_name (some store) a =
      learn_from later device_id metric_name
        (values_of now device_id metric_name a.window_hours store) a

  pub z_of : W → BaselineStats W → W
  z_of value b =
      if f.is_eq b.std_dev (f.of_nat 0)
      then if f.is_eq value b.mean then f.of_nat 0 else f.inf
      else f.div (abs (f.sub value b.mean)) b.std_dev

  no_score : String → String → W → AnomalyScore W
  no_score device_id metric_name value = record {
    metric_name = metric_name;
    device_id = device_id;
    value = value;
    z_score = f.of_nat 0;
    is_anomaly = false;
    baseline_mean = f.of_nat 0;
    baseline_std = f.of_nat 0;
  }

  pub score_with :
      String → String → W → AnomalyBaseline W → Option (BaselineStats W) → AnomalyScore W
  unfolding no_score z_of
  score_with device_id metric_name value a none = no_score device_id metric_name value
  score_with device_id metric_name value a (some b) =
      if ltb b.sample_count a.min_samples then no_score device_id metric_name value else record {
        metric_name = metric_name;
        device_id = device_id;
        value = value;
        z_score = z_of value b;
        is_anomaly = f.le a.z_threshold (z_of value b);
        baseline_mean = b.mean;
        baseline_std = b.std_dev;
      }

  pub score : String → String → W → AnomalyBaseline W → AnomalyScore W
  unfolding score_with
  score device_id metric_name value a =
      score_with device_id metric_name value a (get (key_of device_id metric_name) a.baselines)

pub get_baseline : {W : Type 0} → String → String → AnomalyBaseline W → Option (BaselineStats W)
get_baseline device_id metric_name a = get (key_of device_id metric_name) a.baselines

pub list_baselines : {W : Type 0} → AnomalyBaseline W → List (BaselineStats W)
list_baselines a = values a.baselines
