-- ===== src/Communication/ModelActions.antt =====
-- mac-central/src/communication/model_actions.py: `ModelActionHandler` over the model registry. The
-- numbers of the actions are those of neuro_pipeline.proto; the decimal notation of numbers is given.
pub mod Requests
pub mod Loads
mod Tests
use neuro_pipeline.Prelude.{
  ℕ, String, Bool, true, false, List, [], ◌∷◌, map, Option, none, some, ◌==◌, length, if◌then◌else◌,
}
use neuro_pipeline.Prelude.Int.{ℤ}
use neuro_pipeline.Prelude.Text.{◌⊕◌}
use neuro_pipeline.Prelude.Dict.{Dict, put}
use neuro_pipeline.ModelManagement.ModelRegistry.{
  ModelRegistry, ModelRecord, ModelStatus, pending, deployed, failed, undeployed, Deployment,
  deploy, undeploy, rollback, list_models, get_model,
}

pub record ModelInfo : Type 0 where
  pub model_id : String
  pub model_path : String
  pub model_type : String
  pub version : String
  pub metadata : Dict String

-- `ModelManagementRequest`, with the clock readings of its call.
pub record Request : Type 0 where
  pub action : ℕ
  pub model : ModelInfo
  pub target_device_id : String
  pub npu_core : ℤ
  pub now : ℕ
  pub logged : ℕ

pub record Response : Type 0 where
  pub success : Bool
  pub message : String
  pub models : List ModelInfo

-- `record.status.value`
pub status_value : ModelStatus → String
status_value pending = "pending"
status_value deployed = "deployed"
status_value failed = "failed"
status_value undeployed = "undeployed"

-- A response with one of two messages.
answer : String → String → ModelRegistry × Bool → ModelRegistry × Response
answer done refused (r, ok) =
    (r, record { success = ok; message = if ok then done else refused; models = [] })

pub deployment_of : Request → Deployment
deployment_of q = record {
  model_id = q.model.model_id;
  model_path = q.model.model_path;
  model_type = q.model.model_type;
  version = q.model.version;
  target_device_id = q.target_device_id;
  npu_core = q.npu_core;
  metadata = some q.model.metadata;
}

pub info_of : ModelRecord → ModelInfo
info_of m = record {
  model_id = m.model_id;
  model_path = m.model_path;
  model_type = m.model_type;
  version = m.version;
  metadata = m.metadata;
}

pub list_response : (ℕ → String) → List ModelRecord → Response
unfolding info_of
list_response decimal records = record {
  success = true;
  message = decimal (length records) ⊕ " models";
  models = map info_of records;
}

pub status_response : Option ModelRecord → Response
unfolding info_of status_value
status_response none = record { success = false; message = "Model not found"; models = [] }
status_response (some m) = record {
  success = true;
  message = status_value m.status;
  models = record (info_of m) { metadata = put "status" (status_value m.status) m.metadata } ∷ [];
}

pub handle : (ℕ → String) → Request → ModelRegistry → ModelRegistry × Response
unfolding answer deployment_of list_response status_response
handle decimal q r =
    if q.action == 0
    then answer "Deployed" "Deploy failed" (deploy q.now q.logged (deployment_of q) r)
    else if q.action == 1
    then answer "Undeployed" "Undeploy failed" (undeploy q.logged q.model.model_id r)
    else if q.action == 2
    then (r, list_response decimal (list_models q.target_device_id none r))
    else if q.action == 3
    then answer "Rolled back" "Rollback failed" (rollback q.now q.logged q.model.model_id r)
    else if q.action == 4
    then (r, status_response (get_model q.model.model_id r))
    else (
      r,
      record { success = false; message = "Unknown action: " ⊕ decimal q.action; models = [] },
    )
