-- ===== src/ModelManagement/ModelRegistry.antt =====
-- mac-central/src/model_management/model_registry.py. A method that reads `time.time()` takes its
-- readings as arguments. Each method holds the lock for its whole effect.
pub mod Limit
pub mod Versions
pub mod Refused
mod Tests
use neuro_pipeline.Prelude.{
  ℕ, String, Bool, true, false, ◌&&◌, List, [], ◌∷◌, ◌++◌, Option, none, some, str_eq, leb, length,
  filter, if◌then◌else◌,
}
use neuro_pipeline.Prelude.Int.{ℤ}
use neuro_pipeline.Prelude.Dict.{Dict, get, put, values}
use neuro_pipeline.Prelude.Dict.Counts.{count_if}

pub data ModelStatus : Type 0 where
  pending deployed failed undeployed : ModelStatus

-- `status == ModelStatus.…`
abbrev pub status_eq : ModelStatus → ModelStatus → Bool
status_eq pending pending = true
status_eq deployed deployed = true
status_eq failed failed = true
status_eq undeployed undeployed = true
status_eq _ _ = false

pub record ModelRecord : Type 0 where
  pub model_id : String
  pub model_path : String
  pub model_type : String
  pub version : String
  pub metadata : Dict String
  pub status : ModelStatus
  pub deployed_at : ℕ
  pub target_device_id : String
  pub npu_core : ℤ
  pub previous_version : Option String
  pub benchmark : Option (Dict String)

-- The dictionaries appended to `_history`.
pub data HistoryEntry : Type 0 where
  deploy_entry : String → String → ℕ → HistoryEntry
  undeploy_entry : String → ℕ → HistoryEntry
  rollback_entry : String → String → String → ℕ → HistoryEntry

pub record ModelRegistry : Type 0 where
  pub models : Dict ModelRecord
  pub max_models_per_device : ℕ
  pub history : List HistoryEntry

-- `__init__`
pub init : ℕ → ModelRegistry
init max_models_per_device = record {
  models = [];
  max_models_per_device = max_models_per_device;
  history = [];
}

-- The arguments of `deploy`.
pub record Deployment : Type 0 where
  pub model_id : String
  pub model_path : String
  pub model_type : String
  pub version : String
  pub target_device_id : String
  pub npu_core : ℤ
  pub metadata : Option (Dict String)

abbrev pub is_deployed : ModelRecord → Bool
is_deployed m = status_eq m.status deployed

-- The test of the comprehension in `deploy` and of the count for one device.
abbrev pub deployed_on : String → ModelRecord → Bool
deployed_on device m = str_eq m.target_device_id device && is_deployed m

-- `model_id in self._models and self._models[model_id].status == ModelStatus.DEPLOYED`
abbrev pub already_deployed : Option ModelRecord → Bool
already_deployed none = false
already_deployed (some m) = is_deployed m

abbrev version_of : Option ModelRecord → Option String
version_of none = none
version_of (some m) = some m.version

unfoldable or_empty : Option (Dict String) → Dict String
or_empty none = []
or_empty (some d) = d

unfoldable pub deployed_record : ℕ → Deployment → Option ModelRecord → ModelRecord
unfolding or_empty
deployed_record now a old = record {
  model_id = a.model_id;
  model_path = a.model_path;
  model_type = a.model_type;
  version = a.version;
  metadata = or_empty a.metadata;
  status = deployed;
  deployed_at = now;
  target_device_id = a.target_device_id;
  npu_core = a.npu_core;
  previous_version = version_of old;
  benchmark = none;
}

unfoldable pub deploy : ℕ → ℕ → Deployment → ModelRegistry → ModelRegistry × Bool
deploy now logged a r =
    let old = get a.model_id r.models in
    if already_deployed old
    then (r, false)
    else if leb r.max_models_per_device (count_if (deployed_on a.target_device_id) r.models)
    then (r, false)
    else (
      record r {
        models = put a.model_id (deployed_record now a old) r.models;
        history = r.history ++ (deploy_entry a.model_id a.version logged ∷ []);
      },
      true,
    )

pub undeploy : ℕ → String → ModelRegistry → ModelRegistry × Bool
undeploy logged model_id r = elim (get model_id r.models) [
  | none ↦ (r, false)
  | some m ↦ (
    record r {
      models = put model_id (record m { status = undeployed }) r.models;
      history = r.history ++ (undeploy_entry model_id logged ∷ []);
    },
    true,
  )
]

-- `record.previous_version`, if it is a text that is not empty.
abbrev pub previous : ModelRecord → Option String
previous m = elim m.previous_version [ none ↦ none | some v ↦ if str_eq v "" then none else some v ]

-- The record after a rollback to the version.
abbrev pub rolled_back : ℕ → String → ModelRecord → ModelRecord
rolled_back now v m = record m {
  version = v;
  previous_version = some m.version;
  deployed_at = now;
  status = deployed;
}

-- `rollback` of a model that is there.
rollback_to : ℕ → ℕ → String → ModelRecord → Option String → ModelRegistry → ModelRegistry × Bool
rollback_to now logged model_id m none r = (r, false)
rollback_to now logged model_id m (some v) r = (
  record r {
    models = put model_id (rolled_back now v m) r.models;
    history = r.history ++ (rollback_entry model_id m.version v logged ∷ []);
  },
  true,
)

pub rollback : ℕ → ℕ → String → ModelRegistry → ModelRegistry × Bool
unfolding rollback_to
rollback now logged model_id r = elim (get model_id r.models) [
  | none ↦ (r, false)
  | some m ↦ rollback_to now logged model_id m (previous m) r
]

pub get_model : String → ModelRegistry → Option ModelRecord
get_model model_id r = get model_id r.models

-- `if device_id: models = [m for m in models if …]`
by_device : String → List ModelRecord → List ModelRecord
by_device device ms =
    if str_eq device "" then ms else filter (λ m. str_eq m.target_device_id device) ms

by_status : Option ModelStatus → List ModelRecord → List ModelRecord
by_status none ms = ms
by_status (some s) ms = filter (λ m. status_eq m.status s) ms

pub list_models : String → Option ModelStatus → ModelRegistry → List ModelRecord
unfolding by_device by_status
list_models device status r = by_status status (by_device device (values r.models))

pub model_count : String → ModelRegistry → ℕ
model_count device r =
    if str_eq device ""
    then count_if is_deployed r.models
    else count_if (deployed_on device) r.models
