-- ===== src/Pipeline/AnomalyBaseline/Tests.antt =====
-- Runs of anomaly_baseline.py, with natural numbers for the statistics.
use neuro_pipeline.Prelude.{ℕ, ◌≡◌, refl, [], ◌∷◌}
use neuro_pipeline.Prelude.Float.{naturals}
use neuro_pipeline.Storage.DetectionStore.{DetectionStore, or_now}
use neuro_pipeline.Storage.DetectionStore
use neuro_pipeline.Prelude.Sort.{sorted}
use neuro_pipeline.Storage.Timeseries.{
  record_timeseries, query_timeseries, points_of, selects_point,
}
use neuro_pipeline.Pipeline.AnomalyBaseline.{AnomalyBaseline, key_of, values_of}

abbrev store : DetectionStore
store =
    record_timeseries 9 "cam" "count" 4 9
      (record_timeseries 8 "cam" "count" 4 8 (DetectionStore.init 1))

abbrev fresh : AnomalyBaseline ℕ
fresh = record { window_hours = 1; z_threshold = 3; min_samples = 2; baselines = [] }

values_test : values_of {W = ℕ} 10 "cam" "count" 1 store ≡ 4 ∷ 4 ∷ []
unfolding values_of query_timeseries points_of selects_point or_now record_timeseries
    DetectionStore.init sorted
values_test = refl

-- The two pairs have the same key.
key_test : key_of "cam" "a:b" ≡ key_of "cam:a" "b"
unfolding key_of
key_test = refl
