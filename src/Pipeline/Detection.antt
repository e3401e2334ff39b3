-- ===== src/Pipeline/Detection.antt =====
-- The detections that mac-central/src/pipeline/detection_processor.py passes on. Confidences and
-- coordinates are numbers on a fixed scale.
use neuro_pipeline.Prelude.{ℕ, String}

pub record Detection : Type 0 where
  pub class_name : String
  pub confidence : ℕ
  pub x_min : ℕ
  pub y_min : ℕ
  pub x_max : ℕ
  pub y_max : ℕ
