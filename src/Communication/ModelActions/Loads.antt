-- ===== src/Communication/ModelActions/Loads.antt =====
-- How many models a device has to run after requests of model_actions.py, where a target of "" stands
-- for all devices, as proto/neuro_pipeline.proto says of `target_device_id`.
use neuro_pipeline.Prelude.{
  ℕ, Bool-cases, inl, inr, sym, ◌∙◌, false, ◌+◌, ◌≤◌, ◌≡◌, ◌≢◌, String, Bool, ◌&&◌, ◌||◌, List, [],
  ◌∷◌, arith, str_eq, eq_iff, All,
}
use neuro_pipeline.Prelude.Dict.{Dict}
use neuro_pipeline.Prelude.Dict.Counts.{bit, count_if, count_if-cons}
use neuro_pipeline.ModelManagement.ModelRegistry.{
  ModelRecord, ModelRegistry, is_deployed, deployed_on,
}
use neuro_pipeline.ModelManagement.ModelRegistry.Limit.{IsWithinLimit}
use neuro_pipeline.Communication.ModelActions.{Request}
use neuro_pipeline.Communication.ModelActions.Requests.{handle_all, handle_all-IsWithinLimit}

-- A deployed model whose target is this device or all devices.
abbrev pub runs_on : String → ModelRecord → Bool
runs_on device m =
    (str_eq m.target_device_id device || str_eq m.target_device_id "") && is_deployed m

runs_on-weight :
    (device : String) (m : ModelRecord)
    → device ≢ ""
    → bit (runs_on device m) ≡ bit (deployed_on device m) + bit (deployed_on "" m)
runs_on-weight device m named = elim (Bool-cases (str_eq m.target_device_id device)) [
  | inl e ↦
      let off : str_eq m.target_device_id "" ≡ false =
        elim (Bool-cases (str_eq m.target_device_id "")) [
          | inl f ↦ absurd (
              named
                (sym ((eq_iff m.target_device_id device).0 e) ∙ (eq_iff m.target_device_id "").0 f))
          | inr f ↦ f
        ] in
      ground (arith, e, off)
  | inr e ↦ ground (arith, e)
]

runs_on-count :
    (device : String) (d : Dict ModelRecord)
    → device ≢ ""
    → count_if (runs_on device) d ≡ count_if (deployed_on device) d + count_if (deployed_on "") d
runs_on-count device [] named = omega arith
runs_on-count device ((k, m) ∷ d) named = omega (
  arith,
  count_if-cons (runs_on device) k m d,
  count_if-cons (deployed_on device) k m d,
  count_if-cons (deployed_on "") k m d,
  runs_on-weight device m named,
  runs_on-count device d named,
)

-- The limit bounds the models for one device by its name, and separately those for all devices.
pub record IsLoaded (device : String) (r : ModelRegistry) : Type 0 where
  pub own : count_if (deployed_on device) r.models ≤ r.max_models_per_device
  pub for_all : count_if (deployed_on "") r.models ≤ r.max_models_per_device
  pub load :
      count_if (runs_on device) r.models
      ≡ count_if (deployed_on device) r.models + count_if (deployed_on "") r.models

-- Where no target had more deployed models than the limit, any sequence of requests without a rollback,
-- with known or unknown actions, leaves no more than the limit under the name of a device, and no more
-- than the limit under the target "". A device with a name that is not empty runs both, since "" stands
-- for all devices, so it runs up to twice the limit.
pub handle_all-IsLoaded :
    (decimal : ℕ → String) (qs : List Request) (r : ModelRegistry) (device : String)
    → All (λ q. q.action ≢ 3) qs
    → IsWithinLimit r
    → device ≢ ""
    → IsLoaded device (handle_all decimal qs r)
handle_all-IsLoaded decimal qs r device others h named =
    let limited = handle_all-IsWithinLimit decimal qs r others h in
    record {
      own = limited.at_device device;
      for_all = limited.at_device "";
      load = runs_on-count device (handle_all decimal qs r).models named;
    }
