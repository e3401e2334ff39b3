-- ===== src/Observability/CircuitBreaker.antt =====
-- mac-central/src/observability/circuit_breaker.py: `CircuitBreaker`. A method that reads
-- `time.monotonic()` takes the reading as its argument; times are numbers of clock ticks.
pub mod Trips
pub mod Admission
pub mod Client
mod Tests
use neuro_pipeline.Prelude.{ℕ, ◌+◌, Bool, true, false, List, [], ◌∷◌, ltb, leb, if◌then◌else◌}

pub data State : Type 0 where
  closed opened half_open : State

pub record CircuitBreaker : Type 0 where
  pub failure_threshold : ℕ
  pub recovery_timeout : ℕ
  pub half_open_max : ℕ
  pub state : State
  pub failure_count : ℕ
  pub last_failure_time : ℕ
  pub half_open_calls : ℕ

-- `__init__`
pub init : ℕ → ℕ → ℕ → CircuitBreaker
init failure_threshold recovery_timeout half_open_max = record {
  failure_threshold = failure_threshold;
  recovery_timeout = recovery_timeout;
  half_open_max = half_open_max;
  state = closed;
  failure_count = 0;
  last_failure_time = 0;
  half_open_calls = 0;
}

-- The branches of `allow_request`. `now - last >= timeout` is written without the subtraction.
allow_in : State → ℕ → CircuitBreaker → CircuitBreaker × Bool
allow_in closed now b = (b, true)
allow_in opened now b =
    if leb (b.last_failure_time + b.recovery_timeout) now
    then (record b { state = half_open; half_open_calls = 1 }, true)
    else (b, false)
allow_in half_open now b =
    if ltb b.half_open_calls b.half_open_max
    then (record b { half_open_calls = b.half_open_calls + 1 }, true)
    else (b, false)

pub allow_request : ℕ → CircuitBreaker → CircuitBreaker × Bool
unfolding allow_in
allow_request now b = allow_in b.state now b

on_success : State → State
on_success half_open = closed
on_success s = s

pub record_success : CircuitBreaker → CircuitBreaker
unfolding on_success
record_success b = record b { state = on_success b.state; failure_count = 0; half_open_calls = 0 }

-- The state after a failure, from the state before and the new failure count.
on_failure : State → ℕ → ℕ → State
on_failure half_open count threshold = opened
on_failure s count threshold = if leb threshold count then opened else s

pub record_failure : ℕ → CircuitBreaker → CircuitBreaker
unfolding on_failure
record_failure now b = record b {
  state = on_failure b.state (b.failure_count + 1) b.failure_threshold;
  failure_count = b.failure_count + 1;
  last_failure_time = now;
}

-- A client's calls, each with the clock reading that it makes.
pub data Call : Type 0 where
  request : ℕ → Call
  success : Call
  failure : ℕ → Call

pub apply : Call → CircuitBreaker → CircuitBreaker
unfolding allow_request record_success record_failure
apply (request now) b = (allow_request now b).0
apply success b = record_success b
apply (failure now) b = record_failure now b

pub run : List Call → CircuitBreaker → CircuitBreaker
unfolding apply
run [] b = b
run (c ∷ cs) b = run cs (apply c b)

-- Requests at the given times with no outcome between them, and the answers.
pub requests : List ℕ → CircuitBreaker → CircuitBreaker × List Bool
unfolding allow_request
requests [] b = (b, [])
requests (t ∷ ts) b =
    let (b', answer) = allow_request t b in
    let (b'', answers) = requests ts b' in (b'', answer ∷ answers)
