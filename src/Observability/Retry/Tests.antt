-- ===== src/Observability/Retry/Tests.antt =====
-- Runs of retry.py.
use neuro_pipeline.Prelude.{ℕ, zero, suc, ◌≤◌, ◌≡◌, refl, [], ◌∷◌, arith, inl}
use neuro_pipeline.Observability.Retry.{
  Outcome, returned, caught, escaped, value, raised, retry_async, retry_sync,
}
use neuro_pipeline.Observability.Retry.Attempts.{conclude, delays, retry_async_lem}

-- Fails twice and then returns 7.
abbrev flaky : ℕ → Outcome ℕ ℕ
flaky zero = caught 100
flaky (suc zero) = caught 101
flaky (suc (suc n)) = returned 7

abbrev broken : ℕ → Outcome ℕ ℕ
broken i = escaped i

flaky_run :
    (retry_async 3 5 flaky ≡ record { end = value 7; calls = 3; sleeps = 5 ∷ 10 ∷ [] })
    × (retry_async 1 5 flaky ≡ record { end = raised 101; calls = 2; sleeps = 5 ∷ [] })
    × (retry_sync 4 5 broken ≡ record { end = raised 0; calls = 1; sleeps = [] })
unfolding retry_async retry_sync
flaky_run = (refl, refl, refl)

flaky_before : (j : ℕ) → suc j ≤ 2 → (e : ℕ) × (flaky j ≡ caught e)
flaky_before zero h = (100, refl)
flaky_before (suc zero) h = (101, refl)
flaky_before (suc (suc j)) h = absurd (omega arith)

retry_async_lem_example :
    retry_async 3 5 flaky ≡ record { end = conclude (flaky 2); calls = 3; sleeps = delays 5 0 2 }
retry_async_lem_example =
    retry_async_lem 3 5 flaky 2 flaky_before (omega arith) (inl (λ h. cc (h.1)))
