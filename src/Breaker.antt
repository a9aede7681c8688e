-- ===== src/Breaker.antt =====
-- backend/infrastructure/resilience.py: CircuitBreaker. The breaker is a record; a method takes
-- the clock readings that its `datetime.now()` calls return, in microseconds.
pub mod Invariant
pub mod Recovery
use title_trust.Prelude.{
  ℕ, ◌+◌, ◌-◌, ◌/◌, ◌≡◌, Bool, true, false, not, ◌&&◌, Option, none, some, leb, if◌then◌else◌,
  seconds,
}

pub data CircuitState : Type 0 where
  closed open_ half_open : CircuitState

pub record CircuitBreakerConfig : Type 0 where
  pub failure_threshold : ℕ
  pub recovery_timeout_seconds : ℕ
  pub success_threshold : ℕ
  pub failure_window_seconds : ℕ

pub record CircuitBreakerMetrics : Type 0 where
  pub state : CircuitState
  pub failure_count : ℕ
  pub success_count : ℕ
  pub last_failure_time : Option ℕ
  pub last_state_change : ℕ
  pub total_calls : ℕ
  pub total_failures : ℕ
  pub total_successes : ℕ

-- `__init__`: the default metrics, made at time `now`.
unfoldable pub new : ℕ → CircuitBreakerMetrics
new now = record {
  state = closed;
  failure_count = 0;
  success_count = 0;
  last_failure_time = none;
  last_state_change = now;
  total_calls = 0;
  total_failures = 0;
  total_successes = 0;
}

-- What `func` did: it returned, or raised an exception that is excluded or not.
pub data Outcome {ℓ} (A E : Type ℓ) : Type ℓ where
  returned : A → Outcome A E
  raised : (excluded : Bool) → E → Outcome A E

-- What `call` does: the result of `func`, its exception again, or `CircuitBreakerOpenError` with
-- the seconds that its message names.
pub data CallResult {ℓ} (A E : Type ℓ) : Type ℓ where
  result : A → CallResult A E
  error : E → CallResult A E
  open_error : ℕ → CallResult A E

abbrev is_closed : CircuitState → Bool
is_closed closed = true
is_closed _ = false

abbrev pub is_open : CircuitState → Bool
is_open open_ = true
is_open _ = false

abbrev is_half_open : CircuitState → Bool
is_half_open half_open = true
is_half_open _ = false

reset : CircuitBreakerMetrics → CircuitBreakerMetrics
reset m = record m { failure_count = 0; success_count = 0; last_failure_time = none }

-- `_open`, `_close`
open_circuit : ℕ → CircuitBreakerMetrics → CircuitBreakerMetrics
open_circuit now m =
    if not (is_open m.state) then record m { state = open_; last_state_change = now } else m

close_circuit : ℕ → CircuitBreakerMetrics → CircuitBreakerMetrics
unfolding reset
close_circuit now m =
    if not (is_closed m.state)
    then record (reset (record m { state = closed })) { last_state_change = now }
    else m

-- `_should_attempt_reset`, `_reset_timeout_remaining`. A clock that went back gives a negative
-- `elapsed`; the sums on both sides keep the comparison right there, and the subtraction starts
-- from the sum.
should_attempt_reset : CircuitBreakerConfig → ℕ → CircuitBreakerMetrics → Bool
should_attempt_reset c now m = leb (m.last_state_change + seconds c.recovery_timeout_seconds) now

pub reset_timeout_remaining : CircuitBreakerConfig → ℕ → CircuitBreakerMetrics → ℕ
reset_timeout_remaining c now m =
    (m.last_state_change + seconds c.recovery_timeout_seconds - now) / 1_000_000

pub record_success : CircuitBreakerConfig → ℕ → CircuitBreakerMetrics → CircuitBreakerMetrics
unfolding close_circuit
record_success c now m =
    let m' = record m {
      success_count = m.success_count + 1;
      total_successes = m.total_successes + 1;
      total_calls = m.total_calls + 1;
    } in
    if is_half_open m'.state
    then (if leb c.success_threshold m'.success_count then close_circuit now m' else m')
    else (if is_closed m'.state then record m' { failure_count = 0 } else m')

pub record_failure : CircuitBreakerConfig → ℕ → Bool → CircuitBreakerMetrics → CircuitBreakerMetrics
unfolding open_circuit
record_failure c now excluded m =
    let m' = record m {
      failure_count = m.failure_count + 1;
      total_failures = m.total_failures + 1;
      total_calls = m.total_calls + 1;
      last_failure_time = some now;
    } in
    if excluded
    then m
    else (if is_half_open m'.state
        then open_circuit now m'
        else (if leb c.failure_threshold m'.failure_count then open_circuit now m' else m'))

-- The first half of `call`: whether `func` runs, and the metrics that it runs under.
pub admit : CircuitBreakerConfig → ℕ → CircuitBreakerMetrics → Bool × CircuitBreakerMetrics
unfolding should_attempt_reset
admit c now m =
    if is_open m.state
    then (if should_attempt_reset c now m
        then (true, record m { state = half_open; success_count = 0 })
        else (false, m))
    else (true, m)

-- The second half: what is recorded when `func` ends.
settle {ℓ} :
    {A E : Type ℓ}
    → CircuitBreakerConfig
    → ℕ
    → Outcome A E
    → CircuitBreakerMetrics
    → CallResult A E × CircuitBreakerMetrics
unfolding record_success record_failure
settle c now (returned a) m = (result a, record_success c now m)
settle c now (raised excluded e) m = (error e, record_failure c now excluded m)

-- `call` and `call_async`, with nothing else on this breaker between start and end: `func` is
-- what it does when it is run, `now` the time of the test and `later` the time when it ends.
unfoldable pub call {ℓ} :
    {A E : Type ℓ}
    → CircuitBreakerConfig
    → ℕ
    → ℕ
    → Outcome A E
    → CircuitBreakerMetrics
    → CallResult A E × CircuitBreakerMetrics
unfolding admit settle
call c now later func m =
    let (runs, m') = admit c now m in
    if runs then settle c later func m' else (open_error (reset_timeout_remaining c now m'), m')
