-- ===== src/Observability/CircuitBreaker/Client.antt =====
-- What a client of circuit_breaker.py needs to know of one call.
use neuro_pipeline.Prelude.{ℕ, suc, ◌+◌, ◌≤◌, ◌<◌, ◌≡◌, refl, true, false, arith}
use neuro_pipeline.Observability.CircuitBreaker.{
  CircuitBreaker, closed, opened, allow_request, record_success, record_failure,
}

pub closed-admits :
    (now : ℕ) (b : CircuitBreaker) → b.state ≡ closed → allow_request now b ≡ (b, true)
unfolding allow_request
closed-admits now b h = ground arith

pub opened-refuses :
    (now : ℕ) (b : CircuitBreaker)
    → b.state ≡ opened
    → now < b.last_failure_time + b.recovery_timeout
    → allow_request now b ≡ (b, false)
unfolding allow_request
opened-refuses now b h early = ground arith

pub success-closed : (b : CircuitBreaker) → b.state ≡ closed → (record_success b).state ≡ closed
unfolding record_success
success-closed b h = ground arith

-- A failure of a closed breaker.
module _ (now : ℕ) (b : CircuitBreaker) (is_closed : b.state ≡ closed) where
  pub failure-below :
      suc b.failure_count < b.failure_threshold → (record_failure now b).state ≡ closed
  unfolding record_failure
  failure-below h = ground arith

  pub failure-trips :
      b.failure_threshold ≤ suc b.failure_count → (record_failure now b).state ≡ opened
  unfolding record_failure
  failure-trips h = ground arith

-- What a failure does to the other fields.
pub record Failed (now : ℕ) (b b' : CircuitBreaker) : Type 0 where
  pub count : b'.failure_count ≡ suc b.failure_count
  pub last : b'.last_failure_time ≡ now
  pub threshold : b'.failure_threshold ≡ b.failure_threshold
  pub timeout : b'.recovery_timeout ≡ b.recovery_timeout

pub failure-Failed : (now : ℕ) (b : CircuitBreaker) → Failed now b (record_failure now b)
unfolding record_failure
failure-Failed now b = record { count = omega arith; last = refl; threshold = refl; timeout = refl }
