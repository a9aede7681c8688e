-- ===== src/Worker/Termination.antt =====
-- `process_job` calls itself where the queue is disabled. It always comes back.
use title_trust.Prelude.{ℕ, zero, suc, ◌+◌, ◌<◌, ◌≡◌, refl, true, Option, some, arith, is_some}
use title_trust.DeadLetter.{Payload}
use title_trust.Worker.Effects.{Worker, Env}
use title_trust.Worker.Rules.{retried, handle_job_failure-cases, process_once-cases}
use title_trust.Worker.{attempt_of, process_once, process_job}

-- One call comes back if the call that it makes of itself, at a later attempt, does.
process_once-is_some :
    (max_retries : ℕ) (again : Payload → Worker → Option Worker) (env : ℕ → Env) (p : Payload)
    (w : Worker)
    → ((w' : Worker)
        → attempt_of p < max_retries
        → is_some (again (retried p (attempt_of p)) w') ≡ true)
    → is_some (process_once max_retries again env p w) ≡ true
process_once-is_some max_retries again env p w ih =
    process_once-cases max_retries (λ o. is_some o ≡ true) again env p w (λ _. refl) (λ _ _. refl)
      (λ _ _ _. refl)
      (λ kind message stack _ _.
        handle_job_failure-cases max_retries (λ o. is_some o ≡ true) again _ p _ message _ stack _
          (λ _. refl) (λ _ _. refl) (λ more _. ih _ more))
      (λ message stack.
        handle_job_failure-cases max_retries (λ o. is_some o ≡ true) again _ p _ message _ stack _
          (λ _. refl) (λ _ _. refl) (λ more _. ih _ more))

process_job-is_some :
    (max_retries fuel : ℕ) (env : ℕ → Env) (p : Payload) (w : Worker)
    → 0 < fuel
    → max_retries < fuel + attempt_of p
    → is_some (process_job max_retries fuel env p w) ≡ true
unfolding process_job
process_job-is_some max_retries zero env p w h k = absurd (omega arith)
process_job-is_some max_retries (suc fuel) env p w h k =
    process_once-is_some max_retries (process_job max_retries fuel env) env p w (λ w' more.
      process_job-is_some max_retries fuel env (retried p (attempt_of p)) w' (omega arith)
        (omega arith))

-- `process_job` comes back for every job, worker and environment: one unit of fuel and one for
-- each retry that is left are enough.
pub process_job-total :
    (max_retries fuel : ℕ) (env : ℕ → Env) (p : Payload) (w : Worker)
    → 0 < fuel
    → max_retries < fuel + attempt_of p
    → (w' : Worker) × (process_job max_retries fuel env p w ≡ some w')
process_job-total max_retries fuel env p w h k =
    ground (arith, process_job-is_some max_retries fuel env p w)
