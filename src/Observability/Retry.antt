-- ===== src/Observability/Retry.antt =====
-- mac-central/src/observability/retry.py. The called function is given by what each attempt does,
-- since it may answer differently each time. Delays are numbers of clock ticks, so `backoff` is one.
pub mod Attempts
mod Tests
use neuro_pipeline.Prelude.{
  ℕ, zero, suc, ◌+◌, ◌*◌, ◌^◌, List, [], ◌∷◌, Option, none, some, ◌==◌, if◌then◌else◌,
}

-- What a call does: it returns, raises an exception that `exceptions` covers, or raises another.
pub data Outcome {ℓ} (A E : Type ℓ) : Type ℓ where
  returned : A → Outcome A E
  caught : E → Outcome A E
  escaped : E → Outcome A E

-- How the whole call ends. `raised_none` is the `TypeError` of `raise last_exc` with no exception.
pub data End {ℓ} (A E : Type ℓ) : Type ℓ where
  value : A → End A E
  raised : E → End A E
  raised_none : End A E

-- How it ended, how often the function was called, and the delays slept through.
pub record Trace {ℓ} (A E : Type ℓ) : Type ℓ where
  pub end : End A E
  pub calls : ℕ
  pub sleeps : List ℕ

module _ {ℓ} {A E : Type ℓ} where
  abbrev pub after_sleep : ℕ → Trace A E → Trace A E
  after_sleep delay t = record t { calls = suc t.calls; sleeps = delay ∷ t.sleeps }

  abbrev pub at_once : End A E → Trace A E
  at_once e = record { end = e; calls = 1; sleeps = [] }

  raise_last : Option E → End A E
  raise_last none = raised_none
  raise_last (some e) = raised e

  -- One pass through the body of the loop, given what the rest of the loop does.
  body : ℕ → ℕ → ℕ → Outcome A E → Trace A E → Trace A E
  body max_retries backoff attempt (returned v) rest = at_once (value v)
  body max_retries backoff attempt (escaped e) rest = at_once (raised e)
  body max_retries backoff attempt (caught e) rest =
      if attempt == max_retries
      then at_once (raised e)
      else after_sleep (backoff * 2 ^ attempt) rest

  abbrev pub last_exc : Option E → Outcome A E → Option E
  last_exc last (caught e) = some e
  last_exc last _ = last

  -- The `for` loop, with the rounds that are left and the number of the attempt.
  pub attempts : ℕ → ℕ → (ℕ → Outcome A E) → ℕ → ℕ → Option E → Trace A E
  unfolding raise_last body
  attempts max_retries backoff fn zero attempt last = record {
    end = raise_last last;
    calls = 0;
    sleeps = [];
  }
  attempts max_retries backoff fn (suc rounds) attempt last =
      let rest =
        attempts max_retries backoff fn rounds (suc attempt) (last_exc last (fn attempt)) in
      body max_retries backoff attempt (fn attempt) rest

  -- `range(max_retries + 1)`; the two functions differ in how they wait and in their defaults.
  pub retry_async : ℕ → ℕ → (ℕ → Outcome A E) → Trace A E
  unfolding attempts
  retry_async max_retries backoff fn = attempts max_retries backoff fn (max_retries + 1) 0 none

  pub retry_sync : ℕ → ℕ → (ℕ → Outcome A E) → Trace A E
  unfolding attempts
  retry_sync max_retries backoff fn = attempts max_retries backoff fn (max_retries + 1) 0 none
