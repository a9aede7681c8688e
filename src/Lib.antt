-- ===== src/Lib.antt =====
-- TitleTrust's backend: the parts of it that decide whether a job is run, retried or given up,
-- whether a request is let through, which session tokens are valid, how an audit proceeds, and
-- what is kept of it.
--
-- The parts and their files
--   * Breaker: the circuit breaker of backend/infrastructure/resilience.py. `call` is split into
--     `admit`, before the function runs, and `settle`, after it, since calls can overlap.
--   * Backoff: the retry loop of `exponential_backoff` of the same file.
--   * Degradation: the fallbacks of backend/infrastructure/graceful_degradation.py.
--   * DeadLetter: the dead-letter event and the poison-pill detector of
--     backend/infrastructure/dead_letter_queue.py.
--   * Worker: `process_job` of backend/workers/runtime.py with its helpers and `cleanup_files` of
--     backend/tasks/audit_tasks.py. It runs each job under a breaker, and asks the detector
--     whether a failed one is worth another try. The calls that it makes on the job store, the
--     event stream, the queue and the clock are the list `trace` of `Worker.Effects`; their
--     answers are arguments. An exception of the update to COMPLETED is the failure of the job; one
--     of another call ends the worker, and is not followed further.
--   * RateLimit: the in-memory store of backend/infrastructure/rate_limit_store.py and
--     `enforce_rate_limit` of backend/middleware/rate_limit.py.
--   * Gemini: the rate limit and the cache of backend/core/gemini_api_manager.py.
--   * Window: lists of times and windows of time, which these two share.
--   * Tokens: backend/repositories/token_repository.py, with the types of
--     backend/domain/session_models.py. A time that Firestore returns has a time zone, and the clock
--     of the code has none.
--   * SessionSecurity: backend/services/session_security_service.py, on top of Tokens.
--   * Authz: the roles and permissions of backend/domain/authz.py and their use in
--     backend/core/authorization.py.
--   * Policy: backend/services/policy_service.py. What the policy repository returns when it is
--     asked is an argument.
--   * Realtime: backend/realtime/broadcaster.py without Redis, and the store in memory of
--     backend/realtime/store.py. Each operation is one step; the numbers that `publish` gives in
--     front of the lock, where calls run at once, are not modelled.
--   * Agent: the audit of backend/agent/marathon_loop.py. A part of a step is a term of the monad of
--     `Agent.Monad`, which holds the state and the session's document, and ends in a value, a
--     return or an exception: `Phases`, `Records` (step 5), `Decide` and `Execute` are the parts
--     of `run_single_step`, and `Step` puts them together. `Closed` and `Invariant` carry a
--     predicate of the state through every part. What the model, the searches, the storage and
--     the imagery answer, and what pydantic raises on a document, is the record `Env` of
--     `Agent.Tools`, another one for each step.
--   * Abuse: the engine of backend/security/abuse_detection.py with the session risk of
--     anomaly_detection.py and the store of threat_intelligence.py beside it, and `dispatch` of
--     backend/middleware/adaptive_protection.py. The digest of a request is an argument; scores are
--     whole sixteenths of a point.
--   * Devices: backend/services/device_session_service.py with its repository, and the check of signed
--     requests of backend/api/auth_router.py and backend/security/request_signing.py.
--   * Sessions: backend/services/session_service.py with its repository: the start of an audit, the
--     ticks, which run steps of Agent on the session's document, retries and the status. `Start` and
--     `Steps` hold the operations; `Files` has the two ways to start; `Access` the requests of the
--     routes of backend/api/audit_router.py, and `Occurrence` these with the bootstraps in the
--     background; `Stalled` is about the documents that the repository writes.
--   * Jobs: backend/services/background_job_service.py with its repository, which make the jobs that
--     Worker processes; `Jobs.Queue` has the attempts of backend/queues/redis_queue.py at a call.
--   * Secrets: the cache of secrets of backend/security/secret_manager.py.
--   * AuditLog: `append` of backend/repositories/audit_event_repository.py, on the record `Log` of what
--     the database does for it; `Memory` is one that meets the record.
--   * AuditExport: backend/services/audit_export_service.py, the signed exports of these events. The
--     key, the renderings in JSON and the digest are the records `Key` and `Encoding`.
--   * Firestore: the database, which is not part of the repository, as a record of its calls and
--     of what its documentation promises of them; `Memory` is one that meets the record.
--   * Text: the methods of Python's `str` that the code uses. Prelude: shared names and lemmas.
--   * Examples: the theorems at concrete inputs.
--
-- Conventions
--   Names are those of the code. Times are whole microseconds and are arguments, one for each
--   reading of the clock; a random float of [0, 1) is an argument in units of 2 ^ -53. An exception
--   that is caught, or that reaches the caller, is a `none` or a constructor of the result.
--   Python's integers have no bound, and neither have the numbers here; where the code subtracts,
--   a test before it or the use of the result makes the result that of subtraction on ℕ.
--   `process_job` calls itself where the queue is disabled, and is written on fuel:
--   WORKER_MAX_RETRIES + 1 is enough, which `Worker.Termination` proves and `serve` gives. The
--   fuel of `attempts_from` is the number of attempts of the code.
--
-- Not modelled
--   Logging and metrics; the Redis variants of the stores; the analysis engines, whose answers are
--   arguments; the HTTP routes, which pass arguments on, and the
--   older routes of backend/routers, which are not mounted; the timeout decorators;
--   the prompts, the regular expressions that read a deed and the coordinates in it; and the
--   Flutter client.
pub mod Prelude
pub mod Text
pub mod Breaker
pub mod Backoff
pub mod Degradation
pub mod DeadLetter
pub mod Worker
pub mod Window
pub mod RateLimit
pub mod Gemini
pub mod Firestore
pub mod Tokens
pub mod SessionSecurity
pub mod Authz
pub mod Policy
pub mod Realtime
pub mod Agent
pub mod Abuse
pub mod Devices
pub mod AuditLog
pub mod AuditExport
pub mod Sessions
pub mod Jobs
pub mod Secrets
pub mod Examples
