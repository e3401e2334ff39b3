-- ===== src/Communication/RateLimiter.antt =====
-- mac-central/src/communication/rate_limiter.py. Tokens are counted in parts, `unit` to one token,
-- the refill rate in parts for each clock tick, so that the amounts are numbers. A method that reads
-- `time.monotonic()`, which never goes back, takes the reading as its argument.
pub mod Buckets
pub mod Devices
mod Tests
use neuro_pipeline.Prelude.{
  ℕ, ◌+◌, ◌-◌, ◌*◌, min, String, Bool, true, false, List, [], ◌∷◌, Option, none, some, str_eq, leb,
  if◌then◌else◌,
}
use neuro_pipeline.Prelude.Dict.{Dict, get, put}

-- `_Bucket`
pub record Bucket : Type 0 where
  pub burst : ℕ
  pub refill_rate : ℕ
  pub tokens : ℕ
  pub last_refill : ℕ

pub record TokenBucketRateLimiter : Type 0 where
  pub max_per_sec : ℕ
  pub burst : ℕ
  pub buckets : Dict Bucket

-- `TokenBucketRateLimiter.__init__`
pub init : ℕ → ℕ → TokenBucketRateLimiter
init max_per_sec burst = record { max_per_sec = max_per_sec; burst = burst; buckets = [] }

pub update_limits : ℕ → ℕ → TokenBucketRateLimiter → TokenBucketRateLimiter
update_limits max_per_sec burst l = record l {
  max_per_sec = max_per_sec;
  burst = burst;
  buckets = [];
}

-- `key = device_id or "__global__"`
pub key_of : String → String
key_of device_id = if str_eq device_id "" then "__global__" else device_id

module _ (unit : ℕ) where
  -- `_Bucket.__init__`
  pub new_bucket : ℕ → ℕ → ℕ → Bucket
  new_bucket burst refill_rate now = record {
    burst = burst;
    refill_rate = refill_rate;
    tokens = burst * unit;
    last_refill = now;
  }

  -- The level after the refill of `consume`.
  pub refilled : ℕ → Bucket → ℕ
  refilled now b = min (b.burst * unit) (b.tokens + (now - b.last_refill) * b.refill_rate)

  pub consume : ℕ → Bucket → Bucket × Bool
  unfolding refilled
  consume now b =
      let level = refilled now b in
      if leb unit level
      then (record b { tokens = level - unit; last_refill = now }, true)
      else (record b { tokens = level; last_refill = now }, false)

  -- The bucket of a key: the one in the dictionary, or a new one with the current limits.
  pub bucket_for : ℕ → String → TokenBucketRateLimiter → Bucket
  unfolding new_bucket
  bucket_for made key l = elim (get key l.buckets) [
    | none ↦ new_bucket l.burst l.max_per_sec made
    | some b ↦ b
  ]

  -- `made` is the clock reading of a bucket that has to be made, `now` that of `consume`.
  pub allow : ℕ → ℕ → String → TokenBucketRateLimiter → TokenBucketRateLimiter × Bool
  allow made now device_id l =
      let key = key_of device_id in
      let (b, answer) = consume now (bucket_for made key l) in
      (record l { buckets = put key b l.buckets }, answer)
