-- ===== src/Communication/ModelActions/Tests.antt =====
-- Runs of model_actions.py.
use neuro_pipeline.Prelude.{ℕ, ◌≡◌, refl, String, eq_iff, List, [], ◌∷◌, arith}
use neuro_pipeline.Prelude.Int.{negsuc}
use neuro_pipeline.ModelManagement.ModelRegistry.{ModelRegistry, deploy, deployed_record}
use neuro_pipeline.Prelude.Dict.{put, get}
use neuro_pipeline.Prelude.Dict.Counts.{count_if}
use neuro_pipeline.Communication.ModelActions.{Request, handle, answer, deployment_of}
use neuro_pipeline.Communication.ModelActions.Loads.{runs_on, IsLoaded, handle_all-IsLoaded}
use neuro_pipeline.Communication.ModelActions.Requests.{handle_all, handle-refused}

abbrev request : ℕ → String → Request
request action id = record {
  action = action;
  model = record {
    model_id = id;
    model_path = "/m";
    model_type = "detection";
    version = "1";
    metadata = [];
  };
  target_device_id = "dev";
  npu_core = negsuc 0;
  now = 1;
  logged = 1;
}

abbrev empty : ModelRegistry
empty = record { models = []; max_models_per_device = 1; history = [] }

abbrev decimal : ℕ → String
decimal n = "9"

handle-refused_example : (handle decimal (request 9 "a") empty).0 ≡ empty
unfolding handle
handle-refused_example = handle-refused decimal (request 9 "a") empty refl

unknown_test : (handle decimal (request 9 "a") empty).1.message ≡ "Unknown action: 9"
unfolding handle
unknown_test = refl

-- One model for all devices and one for the device, with a limit of one: both requests are accepted.
abbrev requests : List Request
requests = record (request 0 "a") { target_device_id = "" } ∷ request 0 "b" ∷ request 0 "c" ∷ []

handle_all-IsLoaded_example : IsLoaded "dev" (handle_all decimal requests empty)
handle_all-IsLoaded_example =
    handle_all-IsLoaded decimal requests empty "dev"
      (λ e. absurd (omega arith), (λ e. absurd (omega arith), (λ e. absurd (omega arith), tt)))
      (record { at_device = λ device. omega arith }) (λ e. ground (arith, (eq_iff "dev" "").1 e))

over_limit_test : count_if (runs_on "dev") (handle_all decimal requests empty).models ≡ 2
unfolding handle_all handle answer deployment_of deploy deployed_record put get
over_limit_test = refl
