-- ===== src/Communication/ModelActions/Requests.antt =====
-- What requests do to the model registry, in model_actions.py.
use neuro_pipeline.Prelude.{
  ℕ, ◌≡◌, ◌≢◌, refl, String, Bool, true, false, List, [], ◌∷◌, arith, ◌==◌, All, if◌then◌else◌,
}
use neuro_pipeline.ModelManagement.ModelRegistry.{ModelRegistry, deploy, undeploy, rollback}
use neuro_pipeline.ModelManagement.ModelRegistry.Limit.{
  IsWithinLimit, deploy-IsWithinLimit, undeploy-IsWithinLimit,
}
use neuro_pipeline.ModelManagement.ModelRegistry.Refused.{
  deploy-refused, undeploy-refused, rollback-refused,
}
use neuro_pipeline.Communication.ModelActions.{Request, Response, answer, deployment_of, handle}

-- The registry after the requests.
unfoldable pub handle_all : (ℕ → String) → List Request → ModelRegistry → ModelRegistry
handle_all decimal [] r = r
handle_all decimal (q ∷ qs) r = handle_all decimal qs (handle decimal q r).0

answer-registry :
    (done refused : String) (p : ModelRegistry × Bool) → (answer done refused p).0 ≡ p.0
unfolding answer
answer-registry done refused (r, ok) = refl

-- A property of what follows a request, from the five branches.
choose :
    (P : ModelRegistry × Response → Type 0) (b : Bool) (x y : ModelRegistry × Response)
    → (b ≡ true → P x)
    → P y
    → P (if b then x else y)
choose P true x y h k = h refl
choose P false x y h k = k

by_action :
    (P : ModelRegistry × Response → Type 0) (decimal : ℕ → String) (q : Request) (r : ModelRegistry)
    → P (answer "Deployed" "Deploy failed" (deploy q.now q.logged (deployment_of q) r))
    → P (answer "Undeployed" "Undeploy failed" (undeploy q.logged q.model.model_id r))
    → (q.action ≡ 3
        → P (answer "Rolled back" "Rollback failed" (rollback q.now q.logged q.model.model_id r)))
    → ((a : Response) → P (r, a))
    → P (handle decimal q r)
unfolding handle
by_action P decimal q r deployed undeployed rolled_back read =
    choose P (q.action == 0) _ _ (λ e. deployed)
      (choose P (q.action == 1) _ _ (λ e. undeployed)
        (choose P (q.action == 2) _ _ (λ e. read _)
          (choose P (q.action == 3) _ _ (λ e. rolled_back (ground arith))
            (choose P (q.action == 4) _ _ (λ e. read _) (read _)))))

-- The answer of an operation that changes nothing where it refuses.
answer-refused :
    (done refused : String) (r : ModelRegistry) (p : ModelRegistry × Bool)
    → (p.1 ≡ false → p.0 ≡ r)
    → (answer done refused p).1.success ≡ false
    → (answer done refused p).0 ≡ r
unfolding answer
answer-refused done refused r (r', ok) h e = h e

-- A request that is answered without success, whatever its action, leaves the registry as it was.
pub handle-refused :
    (decimal : ℕ → String) (q : Request) (r : ModelRegistry)
    → (handle decimal q r).1.success ≡ false
    → (handle decimal q r).0 ≡ r
handle-refused decimal q r =
    by_action (λ a. a.1.success ≡ false → a.0 ≡ r) decimal q r
      (answer-refused "Deployed" "Deploy failed" r (deploy q.now q.logged (deployment_of q) r)
        (deploy-refused q.now q.logged (deployment_of q) r))
      (answer-refused "Undeployed" "Undeploy failed" r (undeploy q.logged q.model.model_id r)
        (undeploy-refused q.logged q.model.model_id r))
      (λ e.
        answer-refused "Rolled back" "Rollback failed" r
          (rollback q.now q.logged q.model.model_id r)
          (rollback-refused q.now q.logged q.model.model_id r))
      (λ a e. refl)

within :
    (done refused : String) (p : ModelRegistry × Bool)
    → IsWithinLimit p.0
    → IsWithinLimit (answer done refused p).0
unfolding answer
within done refused (r, ok) h = h

handle-IsWithinLimit :
    (decimal : ℕ → String) (q : Request) (r : ModelRegistry)
    → q.action ≢ 3
    → IsWithinLimit r
    → IsWithinLimit (handle decimal q r).0
handle-IsWithinLimit decimal q r other h =
    by_action (λ a. IsWithinLimit a.0) decimal q r
      (within "Deployed" "Deploy failed" (deploy q.now q.logged (deployment_of q) r)
        (deploy-IsWithinLimit q.now q.logged (deployment_of q) r h))
      (within "Undeployed" "Undeploy failed" (undeploy q.logged q.model.model_id r)
        (undeploy-IsWithinLimit q.logged q.model.model_id r h))
      (λ e. absurd (other e)) (λ a. h)

pub handle_all-IsWithinLimit :
    (decimal : ℕ → String) (qs : List Request) (r : ModelRegistry)
    → All (λ q. q.action ≢ 3) qs
    → IsWithinLimit r
    → IsWithinLimit (handle_all decimal qs r)
unfolding handle_all
handle_all-IsWithinLimit decimal [] r others h = h
handle_all-IsWithinLimit decimal (q ∷ qs) r others h =
    handle_all-IsWithinLimit decimal qs (handle decimal q r).0 others.1
      (handle-IsWithinLimit decimal q r others.0 h)
