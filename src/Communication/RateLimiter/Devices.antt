-- ===== src/Communication/RateLimiter/Devices.antt =====
-- Per-device isolation in rate_limiter.py: the answers to one device do not depend on the others.
use neuro_pipeline.Prelude.{
  ℕ, ◌≡◌, ◌≢◌, refl, ap, String, Bool, List, [], ◌∷◌, arith, str_eq, eq_iff, filter, Bool-cases,
  inl, inr,
}
use neuro_pipeline.Prelude.Dict.{get, get-put}
use neuro_pipeline.Communication.RateLimiter.{TokenBucketRateLimiter, key_of, bucket_for, allow}

pub record Request : Type 0 where
  pub made : ℕ
  pub now : ℕ
  pub device_id : String

-- Two limiters with the same limits that hold the same bucket for the key.
pub record Agree (k : String) (l l' : TokenBucketRateLimiter) : Type 0 where
  pub rate : l.max_per_sec ≡ l'.max_per_sec
  pub burst : l.burst ≡ l'.burst
  pub bucket : get k l.buckets ≡ get k l'.buckets

abbrev pub is_for : String → Request → Bool
is_for k r = str_eq (key_of r.device_id) k

abbrev pub answers_to : String → List (String × Bool) → List (String × Bool)
answers_to k = filter (λ e. str_eq e.0 k)

module _ (unit : ℕ) where
  -- A sequence of calls of `allow`, with the key of each and its answer.
  unfoldable pub allow_all :
      List Request → TokenBucketRateLimiter → TokenBucketRateLimiter × List (String × Bool)
  allow_all [] l = (l, [])
  allow_all (r ∷ rs) l =
      let (l', answer) = allow unit r.made r.now r.device_id l in
      let (l'', log) = allow_all rs l' in (l'', (key_of r.device_id, answer) ∷ log)

  bucket_for-Agree :
      (made : ℕ) (k : String) (l l' : TokenBucketRateLimiter)
      → Agree k l l'
      → bucket_for unit made k l ≡ bucket_for unit made k l'
  unfolding bucket_for
  bucket_for-Agree made k l l' h = ground (arith, h.bucket)

  module _ (k : String) (r : Request) (l l' : TokenBucketRateLimiter) (h : Agree k l l') where
    abbrev after : TokenBucketRateLimiter → TokenBucketRateLimiter × Bool
    after = allow unit r.made r.now r.device_id

    allow_same :
        key_of r.device_id ≡ k → Agree k (after l).0 (after l').0 × ((after l).1 ≡ (after l').1)
    unfolding allow
    allow_same e =
        let same : bucket_for unit r.made (key_of r.device_id) l
            ≡ bucket_for unit r.made (key_of r.device_id) l' =
          rw e (bucket_for-Agree r.made k l l' h) in
        (
          record {
            rate = h.rate;
            burst = h.burst;
            bucket = simp get-put (rw same (ground (arith, h.bucket)));
          },
          rw same,
        )

    allow_other : key_of r.device_id ≢ k → Agree k (after l).0 l'
    unfolding allow
    allow_other ne = record {
      rate = h.rate;
      burst = h.burst;
      bucket = rw get-put (ground (arith, eq_iff (key_of r.device_id) k, h.bucket));
    }

  alone_from :
      (k : String) (rs : List Request) (l l' : TokenBucketRateLimiter)
      → Agree k l l'
      → answers_to k (allow_all rs l).1 ≡ (allow_all (filter (is_for k) rs) l').1
  unfolding allow_all
  alone_from k [] l l' h = refl
  alone_from k (r ∷ rs) l l' h = elim (Bool-cases (is_for k r)) [
    | inl e ↦
        let (agree, same) = allow_same k r l l' h ((eq_iff (key_of r.device_id) k).0 e) in
        rw (e, same)
          (ap (◌∷◌ (key_of r.device_id, (allow unit r.made r.now r.device_id l').1))
            (alone_from k rs _ _ agree))
    | inr e ↦ rw e (
        alone_from k rs _ l'
          (allow_other k r l l' h (λ p. ground (arith, eq_iff (key_of r.device_id) k))))
  ]

  -- Isolation: the answers to the requests of one key, made between requests of other devices, are
  -- the answers that the same limiter gives when it gets only the requests of that key.
  pub answers-alone :
      (k : String) (rs : List Request) (l : TokenBucketRateLimiter)
      → answers_to k (allow_all rs l).1 ≡ (allow_all (filter (is_for k) rs) l).1
  answers-alone k rs l = alone_from k rs l l (record { rate = refl; burst = refl; bucket = refl })
