-- ===== src/Worker/Files.antt =====
-- The handlers remove a job's files when they end, also when they fail.
use title_trust.Prelude.{
  ℕ, suc, ◌<◌, ◌≡◌, refl, true, false, String, Option, some, List, [], ◌∷◌, ◌++◌, arith, any,
  str_eq, lt→ltb,
}
use title_trust.Text.{Text}
use title_trust.Breaker.{is_open, error, call, CircuitBreakerConfig, CircuitBreakerMetrics}
use title_trust.DeadLetter.{Payload, is_poison_pill}
use title_trust.Worker.Effects.{Effect, run_task, enqueue, Worker, Env, record_effects, TaskError}
use title_trust.Worker.Rules.{retried, retry_effects, ran}
use title_trust.Worker.{
  attempt_of, process_once, process_job, handle_job_failure, error_text, priority_of, after_call,
  run_job, dispatch, forensic, kind_of, type_of, started, breaker_config, outcome, cleanup,
}

call-raised :
    (c : CircuitBreakerConfig) (now later : ℕ) (x : TaskError) (m : CircuitBreakerMetrics)
    → is_open m.state ≡ false
    → (call c now later (outcome (some x)) m).0 ≡ error x
unfolding call
call-raised c now later x m h = ground arith

-- The worker after a forensic job that failed, up to the queue and with it.
failed : Env → Payload → Text → Worker → Worker
failed e p message w = record_effects (retry_effects e p (attempt_of p) message) (
    record_effects (run_task p ∷ [])
      (ran e p forensic (record_effects (started p (attempt_of p)) w)))

requeued : Env → Payload → Text → Worker → Worker
unfolding failed
requeued e p message w =
    record_effects (enqueue (retried p (attempt_of p)) (priority_of p) ∷ []) (failed e p message w)

process_once-requeued :
    (n : ℕ) (again : Payload → Worker → Option Worker) (env : ℕ → Env) (p : Payload) (w : Worker)
    (x : TaskError)
    → let e = env (attempt_of p) in
      e.is_cancelled ≡ false
      → e.queue_enabled ≡ true
      → kind_of (type_of p) ≡ some forensic
      → is_open w.forensic.state ≡ false
      → e.task w.exists ≡ some x
      → is_poison_pill (error_text x) p ≡ false
      → attempt_of p < n
      → process_once n again env p w ≡ some (requeued (env (attempt_of p)) p (error_text x) w)
unfolding process_once dispatch run_job after_call handle_job_failure requeued
process_once-requeued n again env p w x nc q k o t np lt = simp (
  nc,
  k,
  o,
  t,
  call-raised breaker_config (env (attempt_of p)).now (env (attempt_of p)).later x w.forensic o,
  np,
  lt→ltb _ _ lt,
  q,
)

exists-requeued :
    (e : Env) (p : Payload) (message : Text) (w : Worker) (f : String)
    → any (str_eq f) p.file_paths ≡ true
    → (requeued e p message w).exists f ≡ false
unfolding requeued cleanup
exists-requeued e p message w f h = rw h

-- A forensic job that is not cancelled, whose breaker is not open, which fails with an error that
-- is no poison pill before its last attempt, is queued again, with the same file paths and its
-- attempt counted, when each of those files has been removed from the worker's disk.
process_job-requeued :
    (n fuel : ℕ) (env : ℕ → Env) (p : Payload) (w : Worker) (x : TaskError)
    → let e = env (attempt_of p) in
      e.is_cancelled ≡ false
      → e.queue_enabled ≡ true
      → kind_of (type_of p) ≡ some forensic
      → is_open w.forensic.state ≡ false
      → e.task w.exists ≡ some x
      → is_poison_pill (error_text x) p ≡ false
      → attempt_of p < n
      → (w' : Worker) × (before : List Effect) × (process_job n (suc fuel) env p w ≡ some w')
        × (w'.trace ≡ before ++ enqueue (retried p (attempt_of p)) (priority_of p) ∷ [])
        × ((f : String) → any (str_eq f) p.file_paths ≡ true → w'.exists f ≡ false)
unfolding process_job requeued
process_job-requeued n fuel env p w x nc q k o t np lt = (
  requeued (env (attempt_of p)) p (error_text x) w,
  (failed (env (attempt_of p)) p (error_text x) w).trace,
  process_once-requeued n (process_job n fuel env) env p w x nc q k o t np lt,
  refl,
  exists-requeued (env (attempt_of p)) p (error_text x) w,
)
