-- ===== src/Worker.antt =====
-- backend/workers/runtime.py: WorkerRuntime.process_job and what it calls. Firestore, Redis and
-- the realtime stream see the calls of `trace`, in order; what they and the clock, the random
-- numbers and the analysis engines answer is the environment `Env` of one attempt. An exception
-- of the update to COMPLETED, which the `try` holds, is the failure of the job. One of another call of
-- the job store or the queue leaves `process_job` and ends the worker, since `run_forever` raises it
-- again: it has then made the calls of `trace` in front of that one, and the rest of `trace` assumes
-- that the call is answered.
pub mod Effects
pub mod Rules
pub mod Termination
pub mod Budget
pub mod Stuck
pub mod Files
use title_trust.Prelude.{
  ℕ, zero, suc, ◌+◌, ◌*◌, ◌^◌, min, Bool, true, false, String, Option, none, some, List, [], ◌∷◌,
  ◌++◌, ltb, if◌then◌else◌, any, str_eq,
}
use title_trust.Text.{Text, codes}
use title_trust.Breaker.{
  CircuitBreakerConfig, CircuitBreakerMetrics, Outcome, returned, raised, CallResult, result, error,
  open_error, is_open, call, new,
}
use title_trust.DeadLetter.{Payload, DeadLetterEvent, is_poison_pill, get_severity}
use title_trust.Worker.Effects.{
  DeferReason, circuit_breaker_open, breaker_error, JobUpdate, cancelled, running, completed,
  retrying, dead_lettered, deferred, JobEvent, job_cancelled, job_started, job_completed,
  job_retrying, job_dead_lettered, Effect, update_job, emit, run_task, enqueue, store_failed_job,
  sleep, Worker, TaskError, Env, record_effects,
}

-- The configuration of both breakers, from `__init__`.
abbrev pub breaker_config : CircuitBreakerConfig
breaker_config = record {
  failure_threshold = 5;
  recovery_timeout_seconds = 120;
  success_threshold = 2;
  failure_window_seconds = 300;
}

unfoldable pub start : ℕ → (String → Bool) → Worker
start now files = record { forensic = new now; geospatial = new now; exists = files; trace = [] }

abbrev or_default {ℓ} : {A : Type ℓ} → Option A → A → A
or_default none d = d
or_default (some a) d = a

abbrev pub id_of : Payload → String
id_of p = or_default p.job_id "unknown"

abbrev pub type_of : Payload → String
type_of p = or_default p.job_type "unknown"

abbrev pub priority_of : Payload → String
priority_of p = or_default p.priority "default"

-- The keys of `_circuit_breakers` and of `_handlers`, which are the same.
pub data Kind : Type 0 where
  forensic geospatial : Kind

unfoldable pub kind_of : String → Option Kind
kind_of job_type =
    if str_eq job_type "forensic"
    then some forensic
    else (if str_eq job_type "geospatial" then some geospatial else none)

abbrev pub breaker : Kind → Worker → CircuitBreakerMetrics
breaker forensic w = w.forensic
breaker geospatial w = w.geospatial

abbrev pub with_breaker : Kind → CircuitBreakerMetrics → Worker → Worker
with_breaker forensic m w = record w { forensic = m }
with_breaker geospatial m w = record w { geospatial = m }

-- tasks/audit_tasks.py: `cleanup_files` removes the files that are there.
cleanup_files : List String → (String → Bool) → String → Bool
cleanup_files paths exists f = if any (str_eq f) paths then false else exists f

-- The `finally` of `_handle_forensic` and of `_handle_geospatial`.
pub cleanup : Kind → Payload → (String → Bool) → String → Bool
unfolding cleanup_files
cleanup forensic p exists = cleanup_files p.file_paths exists
cleanup geospatial p exists =
    if str_eq p.file_path "" then exists else cleanup_files (p.file_path ∷ []) exists

-- `_calculate_backoff`, in units of 2 ^ -53 seconds: `delay *= 0.5 + random.random()`.
unfoldable pub calculate_backoff : ℕ → ℕ → ℕ
calculate_backoff attempt draw = min (2 * 2 ^ attempt) 60 * (2 ^ 52 + draw)

-- `_defer_job`
pub defer_job : Env → Payload → DeferReason → Worker → Worker
defer_job e p reason w =
    record_effects
      (update_job (id_of p) (deferred reason)
        ∷ sleep (30 * 2 ^ 53)
        ∷ (if e.queue_enabled then enqueue p (priority_of p) ∷ [] else []))
      w

-- The error text and the stack trace that the two `except` clauses pass on.
abbrev pub error_text : TaskError → Text
error_text x = if x.is_timeout then codes "timeout: " ++ x.message else x.message

abbrev pub error_stack : TaskError → Option Text
error_stack x = if x.is_timeout then none else some x.stack

abbrev pub outcome : Option TaskError → Outcome (Unit {0}) TaskError
outcome none = returned tt
outcome (some x) = raised false x

abbrev pub started : Payload → ℕ → List Effect
started p attempts =
    update_job (id_of p) (running attempts) ∷ emit (id_of p) (job_started (type_of p) attempts) ∷ []

abbrev pub attempt_of : Payload → ℕ
attempt_of p = or_default p.attempts 0 + 1

module _ (max_retries : ℕ) where
  -- `_send_to_dead_letter`
  pub send_to_dead_letter : Payload → String → Text → Option Text → Bool → Worker → Worker
  send_to_dead_letter p job_type message stack poison_pill w =
      let event : DeadLetterEvent = record {
        job_id = id_of p;
        job_type = job_type;
        original_data = p;
        error_message = message;
        error_type = (get_severity message, job_type);
        attempt_count = or_default p.attempts 1;
        max_retries = max_retries;
        stack_trace = stack;
      } in
      record_effects
        (store_failed_job event
          ∷ update_job (id_of p) (dead_lettered message poison_pill)
          ∷ emit (id_of p) (job_dead_lettered message (get_severity message) poison_pill)
          ∷ [])
        w

  -- `_handle_job_failure`. `again` is the call of `process_job` that is made at once where the
  -- queue is disabled.
  pub handle_job_failure :
      (Payload → Worker → Option Worker)
      → Env
      → Payload
      → ℕ
      → Text
      → String
      → Option Text
      → Worker
      → Option Worker
  unfolding send_to_dead_letter
  handle_job_failure again e p attempts message job_type stack w =
      let delay = calculate_backoff attempts e.draw in
      let p' = record p { attempts = some attempts } in
      let w' =
        record_effects
          (update_job (id_of p) (retrying attempts message)
            ∷ emit (id_of p) (job_retrying attempts message delay)
            ∷ sleep delay
            ∷ [])
          w in
      let retried : Option Worker =
        if e.queue_enabled
        then some (record_effects (enqueue p' (priority_of p') ∷ []) w')
        else again p' w' in
      if is_poison_pill message p
      then some (send_to_dead_letter p job_type message stack true w)
      else (if ltb attempts max_retries
          then retried
          else some (send_to_dead_letter p job_type message stack false w))

  -- A job whose handler has returned: the update to COMPLETED, and what its exception leads to.
  complete :
      (Payload → Worker → Option Worker)
      → Env
      → Payload
      → ℕ
      → Worker
      → Option TaskError
      → Option Worker
  unfolding handle_job_failure
  complete again e p attempts w none = some (
      record_effects
        (run_task p
          ∷ update_job (id_of p) completed
          ∷ emit (id_of p) (job_completed (type_of p))
          ∷ [])
        w)
  complete again e p attempts w (some x) =
      handle_job_failure again e p attempts (error_text x) (type_of p) (error_stack x)
        (record_effects (run_task p ∷ []) w)

  -- The `try` of `process_job` once `circuit_breaker.call(handler, payload)` has ended.
  after_call :
      (Payload → Worker → Option Worker)
      → Env
      → Payload
      → ℕ
      → Kind
      → Worker
      → CallResult (Unit {0}) TaskError
      → Option Worker
  unfolding complete handle_job_failure cleanup
  after_call again e p attempts kind w (result a) =
      complete again e p attempts (record w { exists = cleanup kind p w.exists }) e.update_error
  after_call again e p attempts kind w (error x) =
      handle_job_failure again e p attempts (error_text x) (type_of p) (error_stack x)
        (record_effects (run_task p ∷ []) (record w { exists = cleanup kind p w.exists }))
  after_call again e p attempts kind w (open_error n) = some (defer_job e p (breaker_error n) w)

  -- `process_job` from the update to RUNNING on, for a job of a known type.
  run_job : (Payload → Worker → Option Worker) → Env → Payload → ℕ → Kind → Worker → Option Worker
  unfolding after_call
  run_job again e p attempts kind w =
      let (r, m) = call breaker_config e.now e.later (outcome (e.task w.exists)) (breaker kind w) in
      after_call again e p attempts kind (with_breaker kind m w) r

  -- The branches of `process_job` after the test for cancellation. An unknown type has no breaker
  -- and no handler: the `ValueError` is handled as a failure.
  dispatch :
      (Payload → Worker → Option Worker) → Env → Payload → ℕ → Option Kind → Worker → Option Worker
  unfolding run_job handle_job_failure
  dispatch again e p attempts none w =
      handle_job_failure again e p attempts (codes "Unknown job type: " ++ codes (type_of p))
        (type_of p) (some e.stack) (record_effects (started p attempts) w)
  dispatch again e p attempts (some kind) w =
      if is_open (breaker kind w).state
      then some (defer_job e p circuit_breaker_open w)
      else run_job again e p attempts kind (record_effects (started p attempts) w)

  -- One call of `process_job`, with the call that it may make of itself.
  pub process_once :
      (Payload → Worker → Option Worker) → (ℕ → Env) → Payload → Worker → Option Worker
  unfolding dispatch
  process_once again env p w =
      let attempts = attempt_of p in
      let e = env attempts in
      if e.is_cancelled
      then some (
          record_effects
            (update_job (id_of p) (cancelled attempts)
              ∷ emit (id_of p) (job_cancelled attempts)
              ∷ [])
            w)
      else dispatch again e p attempts (kind_of (type_of p)) w

  -- `process_job`: `none` means that the fuel ran out. The environment of an attempt is found by
  -- its number, which grows from call to nested call.
  pub process_job : ℕ → (ℕ → Env) → Payload → Worker → Option Worker
  process_job zero env p w = none
  process_job (suc fuel) env p w = process_once (process_job fuel env) env p w

  -- The jobs that `run_forever` pops, one after the other, with the environment of each. Enough
  -- fuel is given: `Termination.process_job-total`.
  pub serve : List ((ℕ → Env) × Payload) → Worker → Option Worker
  serve [] w = some w
  serve ((env, p) ∷ jobs) w = elim (process_job (max_retries + 1) env p w) [
    | none ↦ none
    | some w' ↦ serve jobs w'
  ]
