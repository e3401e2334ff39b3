-- ===== src/ModelManagement/ModelRegistry/Versions.antt =====
-- The versions and the history that model_registry.py keeps.
use neuro_pipeline.Prelude.{
  ℕ, ◌+◌, ◌≡◌, refl, String, Bool, true, false, [], ◌∷◌, ◌++◌, some, arith, length, length-append,
  str_eq, eq_iff, leb, Bool-cases, Option-cases, inl, inr,
}
use neuro_pipeline.Prelude.Dict.{Dict, get, get-put}
use neuro_pipeline.Prelude.Dict.Counts.{bit, count_if}
use neuro_pipeline.ModelManagement.ModelRegistry.{
  ModelRecord, HistoryEntry, ModelRegistry, Deployment, deployed, deployed_on, already_deployed,
  deployed_record, deploy, undeploy, previous, rolled_back, rollback, get_model,
}

module _ (now logged : ℕ) (k v : String) (m : ModelRecord) (r : ModelRegistry) where
  -- What a rollback that succeeds leaves under its key.
  get-rollback :
      get k r.models ≡ some m
      → previous m ≡ some v
      → get k (rollback now logged k r).0.models ≡ some (rolled_back now v m)
  unfolding rollback
  get-rollback found prev = rw (found, rollback, prev, get-put) (ground (arith, eq_iff k k))

previous-rolled_back :
    (now : ℕ) (v : String) (m : ModelRecord)
    → str_eq m.version "" ≡ false
    → previous (rolled_back now v m) ≡ some m.version
previous-rolled_back now v m e = rw e

-- Two rollbacks in a row restore both versions of a model that has two, and leave it deployed.
pub rollback_twice :
    (t1 t2 l1 l2 : ℕ) (k v : String) (m : ModelRecord) (r : ModelRegistry)
    → get k r.models ≡ some m
    → previous m ≡ some v
    → str_eq m.version "" ≡ false
    → get_model k (rollback t2 l2 k (rollback t1 l1 k r).0).0
      ≡ some (record m { status = deployed; deployed_at = t2; previous_version = some v })
unfolding get_model
rollback_twice t1 t2 l1 l2 k v m r found prev named =
    get-rollback t2 l2 k m.version (rolled_back t1 v m) (rollback t1 l1 k r).0
      (get-rollback t1 l1 k v m r found prev) (previous-rolled_back t1 v m named)

get-deploy :
    (now logged : ℕ) (a : Deployment) (r : ModelRegistry)
    → (deploy now logged a r).1 ≡ true
    → get a.model_id (deploy now logged a r).0.models
      ≡ some (deployed_record now a (get a.model_id r.models))
unfolding deploy
get-deploy now logged a r done = elim (Bool-cases (already_deployed (get a.model_id r.models))) [
  | inl e ↦ absurd (ground arith)
  | inr e ↦
      elim (Bool-cases
        (leb r.max_models_per_device (count_if (deployed_on a.target_device_id) r.models))) [
          | inl full ↦ absurd (ground arith)
          | inr room ↦ rw (e, room, get-put) (ground (arith, eq_iff a.model_id a.model_id))
        ]
]

-- A rollback after a deployment that replaced another version brings the old version back: the
-- model is deployed with the old version, on the device and with the file of the new deployment,
-- and a further rollback would return to the new version.
pub rollback-deploy :
    (t1 t2 l1 l2 : ℕ) (a : Deployment) (old : ModelRecord) (r : ModelRegistry)
    → get a.model_id r.models ≡ some old
    → str_eq old.version "" ≡ false
    → (deploy t1 l1 a r).1 ≡ true
    → get_model a.model_id (rollback t2 l2 a.model_id (deploy t1 l1 a r).0).0
      ≡ some (record (deployed_record t1 a (some old)) {
        version = old.version;
        previous_version = some a.version;
        deployed_at = t2;
      })
unfolding get_model deployed_record
rollback-deploy t1 t2 l1 l2 a old r found named done =
    get-rollback t2 l2 a.model_id old.version (deployed_record t1 a (some old)) (deploy t1 l1 a r).0
      (rw (get-deploy t1 l1 a r done, found)) (rw named)

-- The calls that change the registry, with their clock readings.
pub data Call : Type 0 where
  deploys : ℕ → ℕ → Deployment → Call
  undeploys : ℕ → String → Call
  rollbacks : ℕ → ℕ → String → Call

unfoldable pub apply : Call → ModelRegistry → ModelRegistry × Bool
apply (deploys now logged a) r = deploy now logged a r
apply (undeploys logged k) r = undeploy logged k r
apply (rollbacks now logged k) r = rollback now logged k r

module _ (r : ModelRegistry) where
  abbrev IsLogged : ModelRegistry × Bool → Type 0
  IsLogged x = (length x.0.history ≡ length r.history + bit x.1) × (x.1 ≡ false → x.0 ≡ r)

  refused-IsLogged : IsLogged (r, false)
  refused-IsLogged = (omega arith, λ _. refl)

  done-IsLogged :
      (ms : Dict ModelRecord) (e : HistoryEntry)
      → IsLogged (record r { models = ms; history = r.history ++ (e ∷ []) }, true)
  done-IsLogged ms e = (length-append r.history (e ∷ []), λ h. cc)

  deploy-IsLogged : (now logged : ℕ) (a : Deployment) → IsLogged (deploy now logged a r)
  unfolding deploy
  deploy-IsLogged now logged a = elim (Bool-cases (already_deployed (get a.model_id r.models))) [
    | inl e ↦ rw e refused-IsLogged
    | inr e ↦
        rw e
          (elim (Bool-cases
            (leb r.max_models_per_device (count_if (deployed_on a.target_device_id) r.models))) [
              | inl full ↦ rw full refused-IsLogged
              | inr room ↦ rw room (done-IsLogged _ _)
            ])
  ]

  undeploy-IsLogged : (logged : ℕ) (k : String) → IsLogged (undeploy logged k r)
  unfolding undeploy
  undeploy-IsLogged logged k = elim (Option-cases (get k r.models)) [
    | inl e ↦ rw (e, undeploy) refused-IsLogged
    | inr (m, e) ↦ rw (e, undeploy) (done-IsLogged _ _)
  ]

  rollback-IsLogged : (now logged : ℕ) (k : String) → IsLogged (rollback now logged k r)
  unfolding rollback
  rollback-IsLogged now logged k = elim (Option-cases (get k r.models)) [
    | inl e ↦ rw (e, rollback) refused-IsLogged
    | inr (m, e) ↦
        rw (e, rollback)
          (elim (Option-cases (previous m)) [
            | inl p ↦ rw p refused-IsLogged
            | inr (v, p) ↦ rw p (done-IsLogged _ _)
          ])
  ]

-- A call that returns `True` adds one entry to the history, and one that returns `False` changes
-- nothing.
pub apply-history :
    (c : Call) (r : ModelRegistry)
    → (length (apply c r).0.history ≡ length r.history + bit (apply c r).1)
      × ((apply c r).1 ≡ false → (apply c r).0 ≡ r)
unfolding apply
apply-history (deploys now logged a) r = deploy-IsLogged r now logged a
apply-history (undeploys logged k) r = undeploy-IsLogged r logged k
apply-history (rollbacks now logged k) r = rollback-IsLogged r now logged k
