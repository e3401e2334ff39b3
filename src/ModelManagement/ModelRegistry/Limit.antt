-- ===== src/ModelManagement/ModelRegistry/Limit.antt =====
-- The limit on deployed models per device in model_registry.py: kept by `deploy` and `undeploy`, and
-- not by `rollback`.
use neuro_pipeline.Prelude.{
  ℕ, ◌+◌, ◌≤◌, ◌<◌, ◌≡◌, refl, String, true, false, List, [], ◌∷◌, Option, some, arith, str_eq,
  eq_iff, leb, Bool-cases, Option-cases, inl, inr,
}
use mathlib.Core.Path.{subst}
use native.Mathlib.Nat.{le_trans}
use neuro_pipeline.Prelude.Dict.{get, put}
use neuro_pipeline.Prelude.Dict.Counts.{count_if, bit, weight, count_if-put}
use neuro_pipeline.ModelManagement.ModelRegistry.{
  ModelRecord, ModelRegistry, Deployment, deployed, undeployed, is_deployed, deployed_on,
  already_deployed, deployed_record, deploy, undeploy, previous, rolled_back, rollback,
}

leb→lt : (a b : ℕ) → leb a b ≡ false → b < a
leb→lt a b h = ground arith

-- No device has more deployed models than the limit.
pub record IsWithinLimit (r : ModelRegistry) : Type 0 where
  pub at_device :
      (device : String) → count_if (deployed_on device) r.models ≤ r.max_models_per_device

module _ (device : String) where
  deployed_record-on :
      (now : ℕ) (a : Deployment) (old : Option ModelRecord)
      → deployed_on device (deployed_record now a old) ≡ str_eq a.target_device_id device
  unfolding deployed_record
  deployed_record-on now a old = ground arith

  undeployed-on : (m : ModelRecord) → deployed_on device (record m { status = undeployed }) ≡ false
  undeployed-on m = ground arith

-- Where a model was deployed or not deployed before, its new record counts once or not at all.
module _ (device : String) (r : ModelRegistry) (k : String) where
  abbrev before : ℕ
  before = count_if (deployed_on device) r.models

  count-deployed :
      (now : ℕ) (a : Deployment) (old : Option ModelRecord)
      → count_if (deployed_on device) (put k (deployed_record now a old) r.models)
        ≤ before + bit (str_eq a.target_device_id device)
  count-deployed now a old =
      rw (← deployed_record-on device now a old)
        (omega (arith, count_if-put (deployed_on device) k (deployed_record now a old) r.models))

  count-undeployed :
      (m : ModelRecord)
      → count_if (deployed_on device) (put k (record m { status = undeployed }) r.models) ≤ before
  count-undeployed m =
      let e : bit (deployed_on device (record m { status = undeployed })) ≡ 0 =
        rw (undeployed-on device m) in
      omega (arith, count_if-put (deployed_on device) k (record m { status = undeployed }) r.models)

pub deploy-IsWithinLimit :
    (now logged : ℕ) (a : Deployment) (r : ModelRegistry)
    → IsWithinLimit r
    → IsWithinLimit (deploy now logged a r).0
unfolding deploy
deploy-IsWithinLimit now logged a r h =
    elim (Bool-cases (already_deployed (get a.model_id r.models))) [
      | inl e ↦ rw e h
      | inr e ↦
          rw e
            (elim (Bool-cases
              (leb r.max_models_per_device (count_if (deployed_on a.target_device_id) r.models))) [
                | inl full ↦ rw full h
                | inr room ↦ rw room (record {
                  at_device = λ device.
                      let grown =
                        count-deployed device r a.model_id now a (get a.model_id r.models) in
                      elim (Bool-cases (str_eq a.target_device_id device)) [
                        | inl same ↦
                            let free =
                              subst
                                (λ d. count_if (deployed_on d) r.models < r.max_models_per_device)
                                ((eq_iff a.target_device_id device).0 same) (leb→lt _ _ room) in
                            le_trans (rw same at grown) (omega arith)
                        | inr other ↦
                            le_trans (rw other at grown) (omega (arith, h.at_device device))
                      ];
                })
              ])
    ]

pub undeploy-IsWithinLimit :
    (logged : ℕ) (k : String) (r : ModelRegistry)
    → IsWithinLimit r
    → IsWithinLimit (undeploy logged k r).0
unfolding undeploy
undeploy-IsWithinLimit logged k r h = elim (Option-cases (get k r.models)) [
  | inl e ↦ rw (e, undeploy) h
  | inr (m, e) ↦
      rw (e, undeploy)
        (record {
          at_device = λ device. omega (arith, h.at_device device, count-undeployed device r k m);
        })
]

-- The calls that deploy and undeploy, with their clock readings.
pub data Call : Type 0 where
  deploys : ℕ → ℕ → Deployment → Call
  undeploys : ℕ → String → Call

unfoldable pub run : List Call → ModelRegistry → ModelRegistry
run [] r = r
run (deploys now logged a ∷ cs) r = run cs (deploy now logged a r).0
run (undeploys logged k ∷ cs) r = run cs (undeploy logged k r).0

-- Starting within the limit, any sequence of calls of `deploy` and `undeploy` leaves no device with
-- more deployed models than the limit.
pub run-IsWithinLimit :
    (cs : List Call) (r : ModelRegistry) → IsWithinLimit r → IsWithinLimit (run cs r)
unfolding run
run-IsWithinLimit [] r h = h
run-IsWithinLimit (deploys now logged a ∷ cs) r h =
    run-IsWithinLimit cs _ (deploy-IsWithinLimit now logged a r h)
run-IsWithinLimit (undeploys logged k ∷ cs) r h =
    run-IsWithinLimit cs _ (undeploy-IsWithinLimit logged k r h)

deployed_on_self :
    (device : String) (m : ModelRecord)
    → m.target_device_id ≡ device
    → m.status ≡ deployed
    → bit (deployed_on device m) ≡ 1
deployed_on_self device m e f = rw f (ground (arith, eq_iff m.target_device_id device))

off_weight :
    (device : String) (m : ModelRecord)
    → is_deployed m ≡ false
    → weight (deployed_on device) (some m) ≡ 0
off_weight device m off = rw off (ground arith)

-- `rollback` does not look at the limit: on a device that has as many deployed models as it may, a
-- rollback of another model of the device, one that is not deployed and has a previous version,
-- succeeds, and leaves the device one model over the limit.
pub rollback_exceeds :
    (now logged : ℕ) (k v : String) (m : ModelRecord) (r : ModelRegistry)
    → get k r.models ≡ some m
    → is_deployed m ≡ false
    → previous m ≡ some v
    → count_if (deployed_on m.target_device_id) r.models ≡ r.max_models_per_device
    → ((rollback now logged k r).1 ≡ true)
      × (count_if (deployed_on m.target_device_id) (rollback now logged k r).0.models
          ≡ r.max_models_per_device + 1)
unfolding rollback
rollback_exceeds now logged k v m r found off prev full =
    let device = m.target_device_id in
    let counted =
      rw found at (count_if-put (deployed_on device) k (rolled_back now v m) r.models) in
    rw (found, rollback, prev)
      (
        refl,
        omega (
          arith,
          counted,
          deployed_on_self device (rolled_back now v m) refl refl,
          off_weight device m off,
        ),
      )
