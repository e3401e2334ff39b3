-- ===== src/Communication/RateLimiter/Tests.antt =====
-- Runs of rate_limiter.py.
use neuro_pipeline.Prelude.{
  ◌+◌, ◌-◌, ◌*◌, ◌≤◌, ◌≡◌, refl, true, false, List, [], ◌∷◌, arith, count_true,
}
use neuro_pipeline.Prelude.Dict.{get, put}
use neuro_pipeline.Communication.RateLimiter.{
  Bucket, init, new_bucket, consume, bucket_for, allow, key_of, update_limits,
}
use neuro_pipeline.Communication.RateLimiter.Buckets.{consume_all, consume_all_bound}
use neuro_pipeline.Communication.RateLimiter.Devices.{Request, allow_all}

-- One token is ten parts; one part comes back in each tick.
abbrev half_full : Bucket
half_full = record { burst = 3; refill_rate = 1; tokens = 15; last_refill = 100 }

abbrev two_devices : List Request
two_devices =
    record { made = 1; now = 2; device_id = "a" }
    ∷ record { made = 3; now = 3; device_id = "b" }
    ∷ record { made = 4; now = 4; device_id = "a" }
    ∷ record { made = 5; now = 5; device_id = "" }
    ∷ []

half_full_run :
    consume_all 10 (100 ∷ 104 ∷ 105 ∷ []) half_full
    ≡ (record half_full { tokens = 0; last_refill = 105 }, true ∷ false ∷ true ∷ [])
unfolding consume_all consume
half_full_run = refl

two_devices_run :
    (allow_all 10 two_devices (init 1 1)).1
    ≡ ("a", true) ∷ ("b", true) ∷ ("a", false) ∷ ("__global__", true) ∷ []
unfolding allow_all allow bucket_for consume new_bucket key_of init get put
two_devices_run = refl

-- New limits reach every device at once.
update_run :
    (allow_all 10 two_devices (update_limits 7 2 (allow_all 10 two_devices (init 1 1)).0)).1
    ≡ ("a", true) ∷ ("b", true) ∷ ("a", true) ∷ ("__global__", true) ∷ []
unfolding allow_all allow bucket_for consume new_bucket key_of init get put update_limits
update_run = refl

consume_all_bound_example :
    count_true (consume_all 10 (100 ∷ 104 ∷ 120 ∷ []) half_full).1 * 10
      + (consume_all 10 (100 ∷ 104 ∷ 120 ∷ []) half_full).0.tokens
    ≤ 15 + (120 - 100) * 1
consume_all_bound_example = consume_all_bound 10 (100 ∷ 104 ∷ 120 ∷ []) half_full (omega arith)
