-- ===== src/Communication/RateLimiter/Buckets.antt =====
-- One bucket of rate_limiter.py over a sequence of requests.
use neuro_pipeline.Prelude.{
  ℕ, ◌+◌, ◌-◌, ◌*◌, ◌≤◌, zero, suc, ◌<◌, min, ◌≡◌, refl, Bool, true, false, List, [], ◌∷◌, arith,
  count_true, replicate, if◌then◌else◌,
}
use native.Mathlib.Nat.{mul-le-mul_right}
use neuro_pipeline.Communication.RateLimiter.{Bucket, new_bucket, refilled, consume}

-- Clock readings that do not go back.
abbrev pub Ascends : ℕ → List ℕ → Type 0
Ascends t0 [] = Unit
Ascends t0 (t ∷ ts) = (t0 ≤ t) × Ascends t ts

abbrev pub last_time : ℕ → List ℕ → ℕ
last_time t0 [] = t0
last_time t0 (t ∷ ts) = last_time t ts

le-last_time : (t0 : ℕ) (ts : List ℕ) → Ascends t0 ts → t0 ≤ last_time t0 ts
le-last_time t0 [] h = omega arith
le-last_time t0 (t ∷ ts) h = omega (arith, le-last_time t ts h.1)

module _ (unit : ℕ) where
  -- The requests at the given times, one after the other.
  unfoldable pub consume_all : List ℕ → Bucket → Bucket × List Bool
  consume_all [] b = (b, [])
  consume_all (t ∷ ts) b =
      let (b', answer) = consume unit t b in
      let (b'', answers) = consume_all ts b' in (b'', answer ∷ answers)

  abbrev granted : Bool → ℕ
  granted answer = if answer then unit else 0

  -- What a request takes out and leaves is at most what was there and what the time added.
  module _ (t : ℕ) (b : Bucket) (t0 r : ℕ) (et : b.last_refill ≡ t0) (er : b.refill_rate ≡ r) where
    consume_step :
        (granted (consume unit t b).1 + (consume unit t b).0.tokens ≤ b.tokens + (t - t0) * r)
        × ((consume unit t b).0.last_refill ≡ t)
        × ((consume unit t b).0.refill_rate ≡ r)
    unfolding consume
    consume_step = (ground arith, ground arith, ground arith)

  consume_capped :
      (t : ℕ) (b : Bucket) (cap : ℕ)
      → b.burst * unit ≡ cap
      → ((consume unit t b).0.tokens ≤ cap) × ((consume unit t b).0.burst * unit ≡ cap)
  unfolding consume
  consume_capped t b cap e = (ground arith, ground arith)

  elapsed : (r a b c : ℕ) → a ≤ b → b ≤ c → (b - a) * r + (c - b) * r ≡ (c - a) * r
  elapsed r a b c h k = let e : c - a ≡ b - a + (c - b) = omega arith in rw e (omega arith)

  count-cons :
      (o : Bool) (os : List Bool) → count_true (o ∷ os) * unit ≡ granted o + count_true os * unit
  count-cons true os = omega arith
  count-cons false os = omega arith

  bound_from :
      (ts : List ℕ) (b : Bucket) (t0 r : ℕ)
      → b.last_refill ≡ t0
      → b.refill_rate ≡ r
      → Ascends t0 ts
      → count_true (consume_all ts b).1 * unit + (consume_all ts b).0.tokens
        ≤ b.tokens + (last_time t0 ts - t0) * r
  unfolding consume_all
  bound_from [] b t0 r et er h = omega arith
  bound_from (t ∷ ts) b t0 r et er h =
      let (took, et', er') = consume_step t b t0 r et er in
      let answers = (consume_all ts (consume unit t b).0).1 in
      omega (
        arith,
        took,
        count-cons (consume unit t b).1 answers,
        bound_from ts (consume unit t b).0 t r et' er' h.1,
        elapsed r t0 t (last_time t ts) h.0 (le-last_time t ts h.1),
      )

  -- Over any requests in the order of time, the tokens granted and those left are at most those at
  -- the start and those that the elapsed time refills.
  pub consume_all_bound :
      (ts : List ℕ) (b : Bucket)
      → Ascends b.last_refill ts
      → count_true (consume_all ts b).1 * unit + (consume_all ts b).0.tokens
        ≤ b.tokens + (last_time b.last_refill ts - b.last_refill) * b.refill_rate
  consume_all_bound ts b h = bound_from ts b b.last_refill b.refill_rate refl refl h

  capped_from :
      (ts : List ℕ) (b : Bucket) (cap : ℕ)
      → b.burst * unit ≡ cap
      → b.tokens ≤ cap
      → (consume_all ts b).0.tokens ≤ cap
  unfolding consume_all
  capped_from [] b cap e h = h
  capped_from (t ∷ ts) b cap e h =
      let (le, e') = consume_capped t b cap e in capped_from ts (consume unit t b).0 cap e' le

  -- The level of a bucket never passes its burst size.
  pub consume_all_capped :
      (ts : List ℕ) (b : Bucket)
      → b.tokens ≤ b.burst * unit
      → (consume_all ts b).0.tokens ≤ b.burst * unit
  consume_all_capped ts b h = capped_from ts b (b.burst * unit) refl h

  -- No starvation: with a burst of at least one token, a request is granted if the time since the
  -- last one refills a token.
  pub consume_after_wait :
      (t : ℕ) (b : Bucket)
      → 1 ≤ b.burst
      → unit ≤ (t - b.last_refill) * b.refill_rate
      → (consume unit t b).1 ≡ true
  unfolding consume
  consume_after_wait t b h w = ground (arith, mul-le-mul_right unit h)

  refilled_now :
      (now k : ℕ) (b : Bucket)
      → b.tokens ≡ k * unit
      → b.last_refill ≡ now
      → k ≤ b.burst
      → refilled unit now b ≡ k * unit
  unfolding refilled
  refilled_now now k b e l h =
      let none_added : now - b.last_refill ≡ 0 = omega arith in
      rw none_added (omega (arith, mul-le-mul_right unit h))

  empty_now :
      (now : ℕ) (b : Bucket) (level : ℕ)
      → refilled unit now b ≡ level
      → level < unit
      → consume unit now b ≡ (record b { tokens = level; last_refill = now }, false)
  unfolding consume
  empty_now now b level e h = ground arith

  full_now :
      (now : ℕ) (b : Bucket) (level : ℕ)
      → refilled unit now b ≡ level
      → unit ≤ level
      → consume unit now b ≡ (record b { tokens = level - unit; last_refill = now }, true)
  unfolding consume
  full_now now b level e h = ground arith

  module _ (now : ℕ) (positive : 0 < unit) where
    instant_from :
        (n k : ℕ) (b : Bucket)
        → b.tokens ≡ k * unit
        → b.last_refill ≡ now
        → k ≤ b.burst
        → count_true (consume_all (replicate n now) b).1 ≡ min n k
    unfolding consume_all
    instant_from zero k b e l h = omega arith
    instant_from (suc n) zero b e l h =
        rw (empty_now now b (0 * unit) (refilled_now now 0 b e l h) (omega arith)) (
          omega (
            arith,
            instant_from n 0 (record b { tokens = 0 * unit; last_refill = now }) refl refl h,
          ))
    instant_from (suc n) (suc k) b e l h =
        rw (full_now now b (suc k * unit) (refilled_now now (suc k) b e l h) (omega arith)) (
          omega (
            arith,
            instant_from n k (record b { tokens = suc k * unit - unit; last_refill = now })
                (omega arith) refl (omega arith),
          ))

    -- Of `n` requests at one instant to a new bucket exactly the first `burst` are granted.
    pub burst_at_once :
        (n burst refill_rate : ℕ)
        → count_true (consume_all (replicate n now) (new_bucket unit burst refill_rate now)).1
          ≡ min n burst
    unfolding new_bucket
    burst_at_once n burst refill_rate =
        instant_from n burst (new_bucket unit burst refill_rate now) refl refl (omega arith)
