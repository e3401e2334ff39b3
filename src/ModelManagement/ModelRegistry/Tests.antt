-- ===== src/ModelManagement/ModelRegistry/Tests.antt =====
-- Runs of model_registry.py.
use neuro_pipeline.Prelude.{ℕ, ◌≡◌, refl, String, false, [], ◌∷◌, Option, none, some, arith}
use neuro_pipeline.Prelude.Int.{negsuc}
use neuro_pipeline.Prelude.Dict.{get, put}
use neuro_pipeline.ModelManagement.ModelRegistry.{
  ModelRecord, ModelRegistry, Deployment, deployed, undeployed, deploy_entry, undeploy_entry,
  deployed_record, init, deploy, undeploy, rollback, get_model, list_models, model_count,
}
use neuro_pipeline.ModelManagement.ModelRegistry.Limit.{IsWithinLimit, run}
use neuro_pipeline.ModelManagement.ModelRegistry.Versions.{apply}

abbrev yolo : String → String → Deployment
yolo k v = record {
  model_id = k;
  model_path = "/m";
  model_type = "detection";
  version = v;
  target_device_id = "dev";
  npu_core = negsuc 0;
  metadata = none;
}

abbrev model : String → String → Option String → ModelRecord
model k v p = record {
  model_id = k;
  model_path = "/m";
  model_type = "detection";
  version = v;
  metadata = [];
  status = deployed;
  deployed_at = 5;
  target_device_id = "dev";
  npu_core = negsuc 0;
  previous_version = p;
  benchmark = none;
}

abbrev retired : ModelRecord
retired = record (model "old" "2" (some "1")) { status = undeployed }

-- One deployed model on a device that may have one, and one that was undeployed.
abbrev registry : ModelRegistry
registry = record {
  models = ("old", retired) ∷ ("new", model "new" "1" none) ∷ [];
  max_models_per_device = 1;
  history = [];
}

program : Unit {0}
unfolding get put init deploy undeploy rollback deployed_record get_model list_models model_count
    run apply
program = tt

registry_run :
    ((deploy 5 6 (yolo "x" "1") (init 1)).0 ≡ record {
      models = ("x", model "x" "1" none) ∷ [];
      max_models_per_device = 1;
      history = deploy_entry "x" "1" 6 ∷ [];
    })
    × ((deploy 5 6 (yolo "x" "1") registry).1 ≡ false)
    × ((undeploy 7 "new" registry).0.history ≡ undeploy_entry "new" 7 ∷ [])
    × ((rollback 5 6 "new" registry).1 ≡ false)
    × (list_models "dev" (some deployed) registry ≡ model "new" "1" none ∷ [])
    × (model_count "" registry ≡ 1)
unfolding program
registry_run = (refl, refl, refl, refl, refl, refl)

init-IsWithinLimit : (n : ℕ) → IsWithinLimit (init n)
unfolding init
init-IsWithinLimit n = record { at_device = λ device. omega arith }
