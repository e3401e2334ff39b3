-- ===== src/Observability/CircuitBreaker/Trips.antt =====
-- When the breaker of circuit_breaker.py trips: against the longest streak of failures.
use neuro_pipeline.Prelude.{
  ℕ, suc, ◌≤◌, ◌<◌, max, ◌≡◌, refl, sym, ◌∙◌, Bool, true, false, List, [], ◌∷◌, arith, ltb, leb,
  leb→le, if◌then◌else◌, Bool-cases, inl, inr,
}
use neuro_pipeline.Observability.CircuitBreaker.{
  CircuitBreaker, State, closed, opened, half_open, init, record_success, record_failure, Call,
  request, success, failure, apply, run,
}

-- Below the threshold while closed; at least one probe and at most the allowed number while half
-- open.
pub record IsSound (b : CircuitBreaker) : Type 0 where
  pub positive : 0 < b.failure_threshold
  pub below : b.state ≡ closed → b.failure_count < b.failure_threshold
  pub probed : b.state ≡ half_open → 1 ≤ b.half_open_calls
  pub limited : b.state ≡ half_open → b.half_open_calls ≤ max 1 b.half_open_max

apply-IsSound : (c : Call) (b : CircuitBreaker) → IsSound b → IsSound (apply c b)
unfolding apply
apply-IsSound (request now) b h = ground (arith, h.below, h.probed, h.limited)
apply-IsSound success b h = ground (arith, h.below, h.probed, h.limited)
apply-IsSound (failure now) b h = ground (arith, h.below, h.probed, h.limited)

-- Every sequence of calls keeps the invariant: the threshold is positive, a closed breaker has
-- counted fewer failures than the threshold, and a half-open one has admitted at least one probe and
-- at most `half_open_max` of them, or one if that is 0.
pub run-IsSound : (cs : List Call) (b : CircuitBreaker) → IsSound b → IsSound (run cs b)
unfolding run
run-IsSound [] b h = h
run-IsSound (c ∷ cs) b h = run-IsSound cs (apply c b) (apply-IsSound c b h)

-- The longest run of failures in a list of outcomes (`false` is a failure), given the length of
-- the run that ends where the list begins.
pub longest_streak : ℕ → List Bool → ℕ
longest_streak n [] = n
longest_streak n (true ∷ os) = max n (longest_streak 0 os)
longest_streak n (false ∷ os) = longest_streak (suc n) os

-- The outcome as the call that reports it at the given time.
abbrev pub report : ℕ → Bool → Call
report now true = success
report now false = failure now

abbrev pub reports : List (ℕ × Bool) → List Call
reports [] = []
reports ((now, o) ∷ os) = report now o ∷ reports os

abbrev pub outcomes : List (ℕ × Bool) → List Bool
outcomes [] = []
outcomes ((now, o) ∷ os) = o ∷ outcomes os

le-longest_streak : (n : ℕ) (os : List Bool) → n ≤ longest_streak n os
unfolding longest_streak
le-longest_streak n [] = omega arith
le-longest_streak n (true ∷ os) = omega arith
le-longest_streak n (false ∷ os) = omega (arith, le-longest_streak (suc n) os)

stays_opened :
    (os : List (ℕ × Bool)) (b : CircuitBreaker)
    → b.state ≡ opened
    → (run (reports os) b).state ≡ opened
unfolding run apply
stays_opened [] b h = h
stays_opened ((now, true) ∷ os) b h =
    stays_opened os (record_success b) (unfold record_success in rw h refl)
stays_opened ((now, false) ∷ os) b h =
    stays_opened os (record_failure now b) (unfold record_failure in ground arith)

-- What the breaker is after the outcomes `os`, when closed with `n` failures in a row before.
abbrev pub verdict : ℕ → ℕ → List Bool → State
verdict threshold n os = if ltb (longest_streak n os) threshold then closed else opened

module _ (th n : ℕ) (os : List Bool) (below : n < th) where
  verdict-success : verdict th n (true ∷ os) ≡ verdict th 0 os
  unfolding longest_streak
  verdict-success = ground arith

  verdict-trip : th ≤ suc n → verdict th n (false ∷ os) ≡ opened
  unfolding longest_streak
  verdict-trip h = ground (arith, le-longest_streak (suc n) os)

verdict-failure : (th n : ℕ) (os : List Bool) → verdict th n (false ∷ os) ≡ verdict th (suc n) os
unfolding longest_streak
verdict-failure th n os = refl

verdict-nil : (th n : ℕ) → n < th → verdict th n [] ≡ closed
unfolding longest_streak
verdict-nil th n h = ground arith

trips_from :
    (os : List (ℕ × Bool)) (n : ℕ) (b : CircuitBreaker)
    → b.state ≡ closed
    → b.failure_count ≡ n
    → n < b.failure_threshold
    → (run (reports os) b).state ≡ verdict b.failure_threshold n (outcomes os)
unfolding run apply
trips_from [] n b h e lt = h ∙ sym (verdict-nil b.failure_threshold n lt)
trips_from ((now, true) ∷ os) n b h e lt =
    rw (verdict-success b.failure_threshold n (outcomes os) lt)
      (trips_from os 0 (record_success b) (ground arith) refl (omega arith))
trips_from ((now, false) ∷ os) n b h e lt = elim (Bool-cases (leb b.failure_threshold (suc n))) [
  | inl trip ↦
      rw (verdict-trip b.failure_threshold n (outcomes os) lt (leb→le _ _ trip))
        (stays_opened os (record_failure now b) (ground arith))
  | inr more ↦
      rw verdict-failure
        (trips_from os (suc n) (record_failure now b) (ground arith) (ground arith) (ground arith))
]

-- From a new breaker with a positive threshold, after any list of reported outcomes and no request
-- between them, the breaker is closed if every run of consecutive failures is shorter than the
-- threshold, and open if some run reaches it.
pub trips_on_streak :
    (os : List (ℕ × Bool)) (threshold timeout probes : ℕ)
    → 0 < threshold
    → (run (reports os) (init threshold timeout probes)).state ≡ verdict threshold 0 (outcomes os)
trips_on_streak os threshold timeout probes h =
    unfold init in trips_from os 0 (init threshold timeout probes) refl refl h
