-- ===== src/Observability/CircuitBreaker/Tests.antt =====
-- Runs of the breaker of circuit_breaker.py.
use neuro_pipeline.Prelude.{◌≡◌, refl, true, false, [], ◌∷◌, arith}
use neuro_pipeline.Observability.CircuitBreaker.{
  CircuitBreaker, opened, half_open, closed, init, request, success, failure, run,
}
use neuro_pipeline.Observability.CircuitBreaker.Trips.{reports, verdict, trips_on_streak}

abbrev fresh : CircuitBreaker
fresh = record {
  failure_threshold = 2;
  recovery_timeout = 30;
  half_open_max = 3;
  state = closed;
  failure_count = 0;
  last_failure_time = 0;
  half_open_calls = 0;
}

abbrev tripped : CircuitBreaker
tripped = record fresh { state = opened; failure_count = 2; last_failure_time = 10 }

abbrev probing : CircuitBreaker
probing = record tripped { state = half_open; half_open_calls = 1 }

trip : run (failure 5 ∷ success ∷ failure 7 ∷ failure 10 ∷ []) fresh ≡ tripped
unfolding run
trip = refl

recover :
    run (request 39 ∷ request 40 ∷ request 41 ∷ success ∷ []) tripped
    ≡ record fresh { last_failure_time = 10 }
unfolding run
recover = refl

trips_on_streak_example :
    (run (reports ((5, false) ∷ (6, true) ∷ (7, false) ∷ (8, false) ∷ [])) (init 2 30 3)).state
    ≡ verdict 2 0 (false ∷ true ∷ false ∷ false ∷ [])
trips_on_streak_example =
    trips_on_streak ((5, false) ∷ (6, true) ∷ (7, false) ∷ (8, false) ∷ []) 2 30 3 (omega arith)
