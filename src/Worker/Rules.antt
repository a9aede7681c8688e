-- ===== src/Worker/Rules.antt =====
-- Proof rules for `process_job`: what holds of a worker before a job holds after it, if each way
-- in which the worker changes keeps it.
use title_trust.Prelude.{
  ℕ, ◌<◌, ◌≡◌, refl, Bool, true, false, String, Option, none, some, List, [], ◌∷◌, ◌++◌, arith, ◌≢◌,
  ltb, Bool-cases, inl, inr, ltb→lt,
}
use title_trust.Text.{Text, codes}
use title_trust.Breaker.{CallResult, result, error, open_error, is_open, call}
use title_trust.Breaker.Recovery.{call-open_error}
use title_trust.DeadLetter.{Payload, is_poison_pill}
use title_trust.Worker.Effects.{
  Effect, update_job, emit, run_task, enqueue, sleep, retrying, completed, cancelled, job_cancelled,
  circuit_breaker_open, job_completed, job_retrying, Worker, TaskError, Env, record_effects,
}
use title_trust.Worker.{
  breaker_config, Kind, forensic, geospatial, error_text, error_stack, kind_of, breaker,
  with_breaker, cleanup, calculate_backoff, defer_job, send_to_dead_letter, handle_job_failure,
  outcome, complete, after_call, run_job, started, attempt_of, dispatch, process_once, id_of,
  type_of, priority_of,
}

-- The payload of a retry, and the effects before it is queued or run again.
abbrev pub retried : Payload → ℕ → Payload
retried p attempts = record p { attempts = some attempts }

abbrev pub retry_effects : Env → Payload → ℕ → Text → List Effect
retry_effects e p attempts message =
    update_job (id_of p) (retrying attempts message)
    ∷ emit (id_of p) (job_retrying attempts message (calculate_backoff attempts e.draw))
    ∷ sleep (calculate_backoff attempts e.draw)
    ∷ []

-- The worker when the handler has ended: the breaker has recorded the call, the files are gone.
abbrev pub ran : Env → Payload → Kind → Worker → Worker
ran e p kind w =
    let w' =
      with_breaker kind
        (call breaker_config e.now e.later (outcome (e.task w.exists)) (breaker kind w)).1 w in
    record w' { exists = cleanup kind p w'.exists }

pub trace-ran :
    (e : Env) (p : Payload) (kind : Kind) (w : Worker) → (ran e p kind w).trace ≡ w.trace
trace-ran e p forensic w = refl
trace-ran e p geospatial w = refl

-- A breaker that is not open does not refuse.
not_refused :
    (e : Env) (kind : Kind) (es : List Effect) (w : Worker) (n : ℕ)
    → is_open (breaker kind w).state ≡ false
    → (call breaker_config e.now e.later
        (outcome (e.task w.exists))
        (breaker kind (record_effects es w))).0
      ≢ open_error n
not_refused e forensic es w n h r = ground (
  arith,
  (call-open_error breaker_config e.now e.later (outcome (e.task w.exists)) w.forensic).1 n r,
)
not_refused e geospatial es w n h r = ground (
  arith,
  (call-open_error breaker_config e.now e.later (outcome (e.task w.exists)) w.geospatial).1 n r,
)

-- A statement `D` about the worker that comes back, if one does.
module _ (max_retries : ℕ) (D : Option Worker → Type 0)
    (again : Payload → Worker → Option Worker) where
  pub handle_job_failure-cases :
      (e : Env) (p : Payload) (attempts : ℕ) (message : Text) (job_type : String)
      (stack : Option Text) (w : Worker)
      → ((poison : Bool)
          → D (some (send_to_dead_letter max_retries p job_type message stack poison w)))
      → (attempts < max_retries
          → e.queue_enabled ≡ true
          → D (
              some (
                record_effects
                  (enqueue (retried p attempts) (priority_of p) ∷ [])
                  (record_effects (retry_effects e p attempts message) w))))
      → (attempts < max_retries
          → e.queue_enabled ≡ false
          → D (again (retried p attempts) (record_effects (retry_effects e p attempts message) w)))
      → D (handle_job_failure max_retries again e p attempts message job_type stack w)
  unfolding handle_job_failure
  handle_job_failure-cases e p attempts message job_type stack w dead queued now =
      elim (Bool-cases (is_poison_pill message p)) [
        | inl poison ↦ rw poison (dead true)
        | inr healthy ↦ rw healthy (elim (Bool-cases (ltb attempts max_retries)) [
          | inl more ↦ rw more (elim (Bool-cases e.queue_enabled) [
            | inl on ↦ rw on (queued (ltb→lt _ _ more) on)
            | inr off ↦ rw off (now (ltb→lt _ _ more) off)
          ])
          | inr last ↦ rw last (dead false)
        ])
      ]

  complete-cases :
      (e : Env) (p : Payload) (attempts : ℕ) (w : Worker) (o : Option TaskError)
      → D (
          some (
            record_effects
              (run_task p
                ∷ update_job (id_of p) completed
                ∷ emit (id_of p) (job_completed (type_of p))
                ∷ [])
              w))
      → ((message : Text) (stack : Option Text)
          → D (
              handle_job_failure max_retries again e p attempts message
                (type_of p)
                stack
                (record_effects (run_task p ∷ []) w)))
      → D (complete max_retries again e p attempts w o)
  unfolding complete
  complete-cases e p attempts w none done failed = done
  complete-cases e p attempts w (some x) done failed = failed (error_text x) (error_stack x)

  after_call-cases :
      (e : Env) (p : Payload) (attempts : ℕ) (kind : Kind) (w : Worker)
      (r : CallResult (Unit {0}) TaskError)
      → ((n : ℕ) → r ≢ open_error n)
      → D (
          some (
            record_effects
              (run_task p
                ∷ update_job (id_of p) completed
                ∷ emit (id_of p) (job_completed (type_of p))
                ∷ [])
              (record w { exists = cleanup kind p w.exists })))
      → ((message : Text) (stack : Option Text)
          → D (
              handle_job_failure max_retries again e p attempts message
                (type_of p)
                stack
                (record_effects (run_task p ∷ []) (record w { exists = cleanup kind p w.exists }))))
      → D (after_call max_retries again e p attempts kind w r)
  unfolding after_call
  after_call-cases e p attempts kind w (result a) ne done failed =
      complete-cases e p attempts (record w { exists = cleanup kind p w.exists }) e.update_error
        done failed
  after_call-cases e p attempts kind w (error x) ne done failed =
      failed (error_text x) (error_stack x)
  after_call-cases e p attempts kind w (open_error n) ne done failed = absurd (ne n refl)

  dispatch-cases :
      (e : Env) (p : Payload) (attempts : ℕ) (k : Option Kind) (w : Worker)
      → let w₁ = record_effects (started p attempts) w in
        ((kind : Kind)
          → is_open (breaker kind w).state ≡ true
          → D (some (defer_job e p circuit_breaker_open w)))
        → ((kind : Kind)
            → k ≡ some kind
            → is_open (breaker kind w).state ≡ false
            → D (
                some (
                  record_effects
                    (run_task p
                      ∷ update_job (id_of p) completed
                      ∷ emit (id_of p) (job_completed (type_of p))
                      ∷ [])
                    (ran e p kind w₁))))
        → ((kind : Kind) (message : Text) (stack : Option Text)
            → k ≡ some kind
            → is_open (breaker kind w).state ≡ false
            → D (
                handle_job_failure max_retries again e p attempts message
                  (type_of p)
                  stack
                  (record_effects (run_task p ∷ []) (ran e p kind w₁))))
        → ((message : Text) (stack : Option Text)
            → D (handle_job_failure max_retries again e p attempts message (type_of p) stack w₁))
        → D (dispatch max_retries again e p attempts k w)
  unfolding dispatch run_job
  dispatch-cases e p attempts none w defer complete fail unknown =
      unknown (codes "Unknown job type: " ++ codes (type_of p)) (some e.stack)
  dispatch-cases e p attempts (some kind) w defer complete fail unknown =
      elim (Bool-cases (is_open (breaker kind w).state)) [
        | inl shut ↦ rw shut (defer kind shut)
        | inr runs ↦ rw runs (
            let (r, m) =
              call breaker_config e.now e.later (outcome (e.task w.exists))
                (breaker kind (record_effects (started p attempts) w)) in
            after_call-cases e p attempts kind
              (with_breaker kind m (record_effects (started p attempts) w)) r
              (λ n. not_refused e kind (started p attempts) w n runs) (complete kind refl runs)
              (λ message stack. fail kind message stack refl runs))
      ]

  -- The branches of one call of `process_job`. Where the worker has found the breaker not open,
  -- `call` does not refuse.
  pub process_once-cases :
      (env : ℕ → Env) (p : Payload) (w : Worker)
      → let e = env (attempt_of p) in
        let w₁ = record_effects (started p (attempt_of p)) w in
        (e.is_cancelled ≡ true
          → D (
              some (
                record_effects
                  (update_job (id_of p) (cancelled (attempt_of p))
                    ∷ emit (id_of p) (job_cancelled (attempt_of p))
                    ∷ [])
                  w)))
        → ((kind : Kind)
            → is_open (breaker kind w).state ≡ true
            → D (some (defer_job e p circuit_breaker_open w)))
        → ((kind : Kind)
            → kind_of (type_of p) ≡ some kind
            → is_open (breaker kind w).state ≡ false
            → D (
                some (
                  record_effects
                    (run_task p
                      ∷ update_job (id_of p) completed
                      ∷ emit (id_of p) (job_completed (type_of p))
                      ∷ [])
                    (ran e p kind w₁))))
        → ((kind : Kind) (message : Text) (stack : Option Text)
            → kind_of (type_of p) ≡ some kind
            → is_open (breaker kind w).state ≡ false
            → D (
                handle_job_failure max_retries again e p
                  (attempt_of p)
                  message
                  (type_of p)
                  stack
                  (record_effects (run_task p ∷ []) (ran e p kind w₁))))
        → ((message : Text) (stack : Option Text)
            → D (
                handle_job_failure max_retries again e p
                  (attempt_of p)
                  message
                  (type_of p)
                  stack
                  w₁))
        → D (process_once max_retries again env p w)
  unfolding process_once
  process_once-cases env p w cancel defer complete fail unknown =
      elim (Bool-cases (env (attempt_of p)).is_cancelled) [
        | inl stop ↦ simp stop (cancel stop)
        | inr go ↦ simp go (
            dispatch-cases (env (attempt_of p)) p (attempt_of p) (kind_of (type_of p)) w defer
              complete fail unknown)
      ]
