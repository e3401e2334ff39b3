-- ===== src/ModelManagement/ModelRegistry/Refused.antt =====
-- An operation of model_registry.py that returns `False` changes nothing.
use neuro_pipeline.Prelude.{
  ℕ, ◌≡◌, refl, String, Bool, false, Option, none, some, Bool-cases, Option-cases, inl, inr, leb,
}
use neuro_pipeline.Prelude.Dict.{get}
use neuro_pipeline.Prelude.Dict.Counts.{count_if}
use neuro_pipeline.ModelManagement.ModelRegistry.{
  ModelRegistry, ModelRecord, Deployment, deploy, undeploy, rollback, rollback_to, previous,
  already_deployed, deployed_on,
}

-- Where the answer is no, the registry is the old one.
abbrev Unchanged : ModelRegistry → ModelRegistry × Bool → Type 0
Unchanged r p = p.1 ≡ false → p.0 ≡ r

pub deploy-refused :
    (now logged : ℕ) (a : Deployment) (r : ModelRegistry)
    → (deploy now logged a r).1 ≡ false
    → (deploy now logged a r).0 ≡ r
unfolding deploy
deploy-refused now logged a r = elim (Bool-cases (already_deployed (get a.model_id r.models))) [
  | inl e ↦ rw e (λ h. refl)
  | inr e ↦
      rw e
        (elim (Bool-cases
          (leb r.max_models_per_device (count_if (deployed_on a.target_device_id) r.models))) [
            | inl full ↦ rw full (λ h. refl)
            | inr room ↦ rw room (λ h. cc)
          ])
]

pub undeploy-refused :
    (logged : ℕ) (k : String) (r : ModelRegistry)
    → (undeploy logged k r).1 ≡ false
    → (undeploy logged k r).0 ≡ r
unfolding undeploy
undeploy-refused logged k r = elim (Option-cases (get k r.models)) [
  | inl e ↦ rw (e, undeploy) (λ h. refl)
  | inr (m, e) ↦ rw (e, undeploy) (λ h. cc)
]

rollback_to-refused :
    (now logged : ℕ) (k : String) (m : ModelRecord) (o : Option String) (r : ModelRegistry)
    → Unchanged r (rollback_to now logged k m o r)
unfolding rollback_to
rollback_to-refused now logged k m none r h = refl
rollback_to-refused now logged k m (some v) r h = cc

pub rollback-refused :
    (now logged : ℕ) (k : String) (r : ModelRegistry)
    → (rollback now logged k r).1 ≡ false
    → (rollback now logged k r).0 ≡ r
unfolding rollback
rollback-refused now logged k r = elim (Option-cases (get k r.models)) [
  | inl e ↦ rw (e, rollback) (λ h. refl)
  | inr (m, e) ↦ rw (e, rollback) (rollback_to-refused now logged k m (previous m) r)
]
