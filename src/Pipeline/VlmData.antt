-- ===== src/Pipeline/VlmData.antt =====
-- The data of mac-central/src/pipeline/vlm_pipeline.py: what it takes from its queue, what it sends on,
-- and what it is answered.
use neuro_pipeline.Prelude.{ℕ, String, Bool, List, Option}
use neuro_pipeline.Prelude.Dict.{Dict}
use neuro_pipeline.Pipeline.Detection.{Detection}

pub record Item : Type 0 where
  pub frame_data : List ℕ
  pub prompt : String
  pub frame_id : ℕ
  pub trace_id : String
  pub device_id : String
  pub detections : List Detection
  pub rule : String

pub data ConfigAdjustmentType : Type 0 where
  detection_region sensitivity fps focus_area : ConfigAdjustmentType

-- An adjustment of the guide, its parameters as texts, and whether the message can be built from it.
pub record ConfigAdjustment : Type 0 where
  pub adjustment_type : ConfigAdjustmentType
  pub parameters : Dict String
  pub builds : Bool

-- What is outside, at the time of one item: clock readings; the retrieved context, if there is some
-- and nothing fails; what `analyze_image` returns for a prompt, if it does in time and without an
-- exception; and the guide's adjustments for a result, `none` if they are not to be applied.
pub record World : Type 0 where
  pub asked_at : ℕ
  pub failed_at : ℕ
  pub published_at : ℕ
  pub rag_text : Option String
  pub analyze_image : String → Option String
  pub adjustments : String → Option (List ConfigAdjustment)

-- The event that is published for a result.
pub record VlmAnalysis : Type 0 where
  pub frame_id : ℕ
  pub trace_id : String
  pub device_id : String
  pub detections : List Detection
  pub vlm_result : String
  pub rule : String
  pub timestamp : ℕ

pub record ControlCommand : Type 0 where
  pub type : ℕ
  pub command_id : ℕ
  pub parameters : Dict String

pub record Upload : Type 0 where
  pub device_id : String
  pub frame_id : ℕ
  pub vlm_result : String
  pub rule : String

-- Which of the optional parts are there.
pub record Services : Type 0 where
  pub alert_manager : Bool
  pub cloud_storage : Bool
  pub rag_retriever : Bool
  pub vlm_config_guide : Bool
  pub command_queue : Bool
