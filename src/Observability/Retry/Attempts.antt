-- ===== src/Observability/Retry/Attempts.antt =====
-- How retry.py ends, how often it calls, and how long it sleeps.
use neuro_pipeline.Prelude.{
  ℕ, zero, suc, ◌+◌, ◌*◌, ◌^◌, ◌≤◌, ◌<◌, ◌≡◌, refl, ◌≢◌, List, [], ◌∷◌, Option, none, arith, ap,
  ◌∙◌, length, ◌⊎◌, inl, inr, Bool-cases, ◌==◌,
}
use native.Mathlib.Nat.{pow-suc, pow-le-pow_right, mul-le-mul_left}
use native.Mathlib.Decide.{ℕ_discrete}
use neuro_pipeline.Observability.Retry.{
  Outcome, returned, caught, escaped, End, value, raised, raised_none, Trace, after_sleep, at_once,
  last_exc, body, attempts, retry_async, retry_sync,
}

-- The exponential delays after the attempts from `i` on, `n` of them.
abbrev pub delays : ℕ → ℕ → ℕ → List ℕ
delays backoff i zero = []
delays backoff i (suc n) = (backoff * 2 ^ i) ∷ delays backoff (suc i) n

abbrev pub sum : List ℕ → ℕ
sum [] = 0
sum (x ∷ xs) = x + sum xs

module _ {ℓ} {A E : Type ℓ} where
  -- What the caller sees of the attempt that ended the loop.
  abbrev pub conclude : Outcome A E → End A E
  conclude (returned v) = value v
  conclude (caught e) = raised e
  conclude (escaped e) = raised e

  abbrev pub IsCaught : Outcome A E → Type ℓ
  IsCaught o = (e : E) × (o ≡ caught e)

  body_end :
      (max_retries backoff i : ℕ) (o : Outcome A E) (rest : Trace A E)
      → (¬ IsCaught o) ⊎ (i ≡ max_retries)
      → body max_retries backoff i o rest ≡ at_once (conclude o)
  unfolding body
  body_end m b i (returned v) rest h = refl
  body_end m b i (escaped e) rest h = refl
  body_end m b i (caught e) rest (inl h) = absurd (h (e, refl))
  body_end m b i (caught e) rest (inr h) = ground arith

  body_retry :
      (max_retries backoff i : ℕ) (o : Outcome A E) (rest : Trace A E)
      → IsCaught o
      → i < max_retries
      → body max_retries backoff i o rest ≡ after_sleep (backoff * 2 ^ i) rest
  unfolding body
  body_retry m b i o rest h lt =
      rw (h.1, body) (elim (Bool-cases (i == m)) [ inl e ↦ absurd (ground arith) | inr e ↦ rw e ])

  module _ (max_retries backoff : ℕ) (fn : ℕ → Outcome A E) where
    attempts_lem :
        (n i k rounds : ℕ) (last : Option E)
        → i + n ≡ k
        → ((j : ℕ) → j < k → IsCaught (fn j))
        → k ≤ max_retries
        → i + rounds ≡ max_retries + 1
        → (¬ IsCaught (fn k)) ⊎ (k ≡ max_retries)
        → attempts max_retries backoff fn rounds i last
          ≡ record { end = conclude (fn k); calls = suc n; sleeps = delays backoff i n }
    unfolding attempts
    attempts_lem zero i k zero last at before le rounds_eq ends = absurd (omega arith)
    attempts_lem zero i k (suc rounds) last at before le rounds_eq ends =
        let same : k ≡ i = omega arith in
        rw same (body_end max_retries backoff i (fn i) _ (rw same at ends))
    attempts_lem (suc n) i k zero last at before le rounds_eq ends = absurd (omega arith)
    attempts_lem (suc n) i k (suc rounds) last at before le rounds_eq ends =
        let ih =
          attempts_lem n (suc i) k rounds (last_exc last (fn i)) (omega arith) before le
            (omega arith) ends in
        body_retry max_retries backoff i (fn i) _ (before i (omega arith)) (omega arith) ∙ rw ih

    -- Let `k` be the first attempt that does not raise a covered exception, or the last one that is
    -- allowed if all before it do. The function is called for the attempts 0 to `k` and no more, the
    -- caller gets what attempt `k` returns or raises, and the delays are `backoff`, `2 * backoff`,
    -- `4 * backoff` and so on, one between two attempts.
    pub retry_async_lem :
        (k : ℕ)
        → ((j : ℕ) → j < k → IsCaught (fn j))
        → k ≤ max_retries
        → (¬ IsCaught (fn k)) ⊎ (k ≡ max_retries)
        → retry_async max_retries backoff fn
          ≡ record { end = conclude (fn k); calls = suc k; sleeps = delays backoff 0 k }
    unfolding retry_async
    retry_async_lem k before le ends =
        attempts_lem k 0 k (max_retries + 1) none (omega arith) before le (omega arith) ends

double-delay : (backoff i : ℕ) → backoff * 2 ^ suc i ≡ backoff * 2 ^ i + backoff * 2 ^ i
double-delay backoff i = rw pow-suc (omega arith)

sum-delays :
    (backoff i n k : ℕ) → i + n ≡ k → sum (delays backoff i n) + backoff * 2 ^ i ≡ backoff * 2 ^ k
sum-delays backoff i zero k e = let same : i ≡ k = omega arith in rw same (omega arith)
sum-delays backoff i (suc n) k e =
    omega (arith, sum-delays backoff (suc i) n k (omega arith), double-delay backoff i)

-- The exact total of the delays before attempt `k`.
pub sum-delays_before : (backoff k : ℕ) → sum (delays backoff 0 k) + backoff ≡ backoff * 2 ^ k
sum-delays_before backoff k = omega (arith, sum-delays backoff 0 k k (omega arith))

length-delays : (backoff i n : ℕ) → length (delays backoff i n) ≡ n
length-delays backoff i zero = refl
length-delays backoff i (suc n) = ap suc (length-delays backoff (suc i) n)

module _ {ℓ} {A E : Type ℓ} where
  IsCaught-cases : (o : Outcome A E) → IsCaught o ⊎ (¬ IsCaught o)
  IsCaught-cases (returned v) = inr (λ h. cc (h.1))
  IsCaught-cases (caught e) = inl (e, refl)
  IsCaught-cases (escaped e) = inr (λ h. cc (h.1))

  conclude-ne : (o : Outcome A E) → conclude o ≢ raised_none
  conclude-ne (returned v) = λ h. cc
  conclude-ne (caught e) = λ h. cc
  conclude-ne (escaped e) = λ h. cc

  -- The attempts before `i`, and attempt `i` too, raised a covered exception.
  IsCaught-below_suc :
      (fn : ℕ → Outcome A E) (i : ℕ)
      → ((j : ℕ) → j < i → IsCaught (fn j))
      → IsCaught (fn i)
      → (j : ℕ) → j < suc i
      → IsCaught (fn j)
  IsCaught-below_suc fn i before c j lt = elim (ℕ_discrete j i) [
    | yes e ↦ rw e c
    | no e ↦ before j (omega arith)
  ]

  -- The number of the attempt that ends the loop.
  first_end :
      (max_retries : ℕ) (fn : ℕ → Outcome A E) (n i : ℕ)
      → i + n ≡ max_retries
      → ((j : ℕ) → j < i → IsCaught (fn j))
      → (k : ℕ) × ((j : ℕ) → j < k → IsCaught (fn j))
        × (k ≤ max_retries)
        × ((¬ IsCaught (fn k)) ⊎ (k ≡ max_retries))
  first_end m fn zero i e before = (i, before, omega arith, inr (omega arith))
  first_end m fn (suc n) i e before = elim (IsCaught-cases (fn i)) [
    | inl c ↦ first_end m fn n (suc i) (omega arith) (IsCaught-below_suc fn i before c)
    | inr c ↦ (i, before, omega arith, inl c)
  ]

module _ {ℓ} {A E : Type ℓ} (max_retries backoff : ℕ) (fn : ℕ → Outcome A E) where
  retry_sync-eq-retry_async : retry_sync max_retries backoff fn ≡ retry_async max_retries backoff fn
  unfolding retry_sync retry_async
  retry_sync-eq-retry_async = refl

  total-delay-le :
      (k : ℕ) → k ≤ max_retries → sum (delays backoff 0 k) + backoff ≤ backoff * 2 ^ max_retries
  total-delay-le k le = omega (
    arith,
    sum-delays_before backoff k,
    mul-le-mul_left backoff (pow-le-pow_right {n = 2} (omega arith) le),
  )

  -- Whatever the function does, the `raise last_exc` behind the loop is not reached, the function
  -- is called at least once and at most `max_retries + 1` times, one delay is slept through between
  -- two calls, and all the delays together are at most `backoff * (2 ^ max_retries - 1)`.
  pub retry_sync_bounds :
      ((retry_sync max_retries backoff fn).end ≢ raised_none)
      × (length (retry_sync max_retries backoff fn).sleeps + 1
          ≡ (retry_sync max_retries backoff fn).calls)
      × ((retry_sync max_retries backoff fn).calls ≤ max_retries + 1)
      × (sum (retry_sync max_retries backoff fn).sleeps + backoff ≤ backoff * 2 ^ max_retries)
  retry_sync_bounds =
      let (k, before, le, ends) =
        first_end max_retries fn max_retries 0 (omega arith) (λ j lt. absurd (omega arith)) in
      rw (retry_sync-eq-retry_async, retry_async_lem max_retries backoff fn k before le ends)
        (
          conclude-ne (fn k),
          omega (arith, length-delays backoff 0 k),
          omega arith,
          total-delay-le k le,
        )
