-- ===== src/Worker/Effects.antt =====
-- The state of a worker and the calls that it makes on the systems around it.
use title_trust.Prelude.{arith, ◌+◌, ◌≡◌, ℕ, Bool, String, Option, List, [], ◌∷◌, ◌++◌}
use title_trust.Text.{Text}
use title_trust.Breaker.{CircuitBreakerMetrics}
use title_trust.DeadLetter.{Payload, Severity, DeadLetterEvent}

-- Why a job is deferred: the worker's own test, or `CircuitBreakerOpenError`, whose message names
-- the seconds left.
pub data DeferReason : Type 0 where
  circuit_breaker_open : DeferReason
  breaker_error : ℕ → DeferReason

-- `_jobs.update(job_id, {"status": …})` with the fields that come with each status.
pub data JobUpdate : Type 0 where
  cancelled : (attempts : ℕ) → JobUpdate
  running : (attempts : ℕ) → JobUpdate
  completed : JobUpdate
  retrying : (attempts : ℕ) (error : Text) → JobUpdate
  dead_lettered : (error : Text) (poison_pill : Bool) → JobUpdate
  deferred : (reason : DeferReason) → JobUpdate

-- `_emit(JobEvent(…))`
pub data JobEvent : Type 0 where
  job_cancelled : (attempts : ℕ) → JobEvent
  job_started : (job_type : String) (attempts : ℕ) → JobEvent
  job_completed : (job_type : String) → JobEvent
  job_retrying : (attempts : ℕ) (error : Text) (retry_delay : ℕ) → JobEvent
  job_dead_lettered : (error : Text) (severity : Severity) (poison_pill : Bool) → JobEvent

pub data Effect : Type 0 where
  update_job : String → JobUpdate → Effect
  emit : String → JobEvent → Effect
  run_task : Payload → Effect
  enqueue : Payload → (priority : String) → Effect
  store_failed_job : DeadLetterEvent → Effect
  -- in units of 2 ^ -53 seconds
  sleep : ℕ → Effect

-- `_circuit_breakers`, the files on the worker's disk, and the calls made so far.
pub record Worker : Type 0 where
  pub forensic : CircuitBreakerMetrics
  pub geospatial : CircuitBreakerMetrics
  pub exists : String → Bool
  pub trace : List Effect

-- An exception of a task: a `TimeoutError` or another one.
pub record TaskError : Type 0 where
  pub is_timeout : Bool
  pub message : Text
  pub stack : Text

-- What surrounds one attempt at a job. `draw` is `random.random()` in units of 2 ^ -53.
pub record Env : Type 0 where
  pub is_cancelled : Bool
  pub queue_enabled : Bool
  pub now : ℕ
  pub later : ℕ
  pub draw : ℕ
  -- the traceback of the `ValueError` for an unknown type
  pub stack : Text
  -- the engine's answer, given the files that are there
  pub task : (String → Bool) → Option TaskError
  -- the exception of the update to COMPLETED, which the `try` holds too
  pub update_error : Option TaskError

abbrev pub record_effects : List Effect → Worker → Worker
record_effects es w = record w { trace = w.trace ++ es }

-- A number for each effect, summed.
abbrev pub total : (Effect → ℕ) → List Effect → ℕ
total f [] = 0
total f (e ∷ es) = f e + total f es

pub total-append :
    (f : Effect → ℕ) (xs ys : List Effect) → total f (xs ++ ys) ≡ total f xs + total f ys
total-append f [] ys = omega arith
total-append f (x ∷ xs) ys = omega (arith, total-append f xs ys)
