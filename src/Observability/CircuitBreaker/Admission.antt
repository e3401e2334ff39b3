-- ===== src/Observability/CircuitBreaker/Admission.antt =====
-- What the breaker of circuit_breaker.py admits while it is open and while it probes.
use neuro_pipeline.Prelude.{
  ℕ, suc, ◌+◌, ◌-◌, ◌≤◌, ◌<◌, min, max, ◌≡◌, refl, true, List, [], ◌∷◌, arith, count_true, ltb, leb,
  length, All, Bool-cases, inl, inr,
}
use neuro_pipeline.Observability.CircuitBreaker.{
  CircuitBreaker, closed, opened, half_open, allow_request, record_success, record_failure,
  requests,
}

-- An open breaker rejects every request before its recovery timeout has passed since the last
-- failure, and does not change.
pub requests-opened :
    (ts : List ℕ) (b : CircuitBreaker)
    → b.state ≡ opened
    → All (λ t. t < b.last_failure_time + b.recovery_timeout) ts
    → ((requests ts b).0 ≡ b) × (count_true (requests ts b).1 ≡ 0)
unfolding requests
requests-opened [] b h early = (refl, refl)
requests-opened (t ∷ ts) b h early = ground (arith, requests-opened ts b h early.1)

admitted-half_open :
    (ts : List ℕ) (b : CircuitBreaker)
    → b.state ≡ half_open
    → count_true (requests ts b).1 ≡ min (length ts) (b.half_open_max - b.half_open_calls)
unfolding requests
admitted-half_open [] b h = omega arith
admitted-half_open (t ∷ ts) b h = elim (Bool-cases (ltb b.half_open_calls b.half_open_max)) [
  | inl more ↦
      ground (arith, admitted-half_open ts (record b { half_open_calls = b.half_open_calls + 1 }) h)
  | inr full ↦ ground (arith, admitted-half_open ts b h)
]

-- Of a request once the recovery timeout has passed and any further requests, with no outcome
-- between them, an open breaker admits the first ones, as many as `half_open_max` and at least one.
pub admitted-recovering :
    (t : ℕ) (ts : List ℕ) (b : CircuitBreaker)
    → b.state ≡ opened
    → b.last_failure_time + b.recovery_timeout ≤ t
    → count_true (requests (t ∷ ts) b).1 ≡ min (suc (length ts)) (max 1 b.half_open_max)
unfolding requests
admitted-recovering t ts b h due =
    ground (arith, admitted-half_open ts (record b { state = half_open; half_open_calls = 1 }) refl)

-- A failed probe opens the breaker again for the whole timeout: the next request is admitted
-- exactly if the timeout has passed since that failure. After a successful probe it is closed, with
-- its counts cleared, and the next request is admitted.
pub probe_outcome :
    (t now : ℕ) (b : CircuitBreaker)
    → b.state ≡ half_open
    → ((allow_request now (record_failure t b)).1 ≡ leb (t + b.recovery_timeout) now)
      × ((record_success b).state ≡ closed)
      × ((record_success b).failure_count ≡ 0)
      × ((allow_request now (record_success b)).1 ≡ true)
unfolding allow_request record_failure record_success
probe_outcome t now b h = (ground arith, ground arith, refl, ground arith)
