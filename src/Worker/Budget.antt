-- ===== src/Worker/Budget.antt =====
-- How often a job can run: retries are limited, however often it is deferred in between.
use title_trust.Prelude.{
  ℕ, zero, suc, ◌+◌, ◌-◌, ◌≤◌, ◌<◌, ◌≡◌, Bool, String, Option, some, none, arith, max, Bool-cases,
  inl, inr,
}
use title_trust.Text.{Text}
use title_trust.DeadLetter.{Payload}
use title_trust.Worker.Effects.{
  total, total-append, Effect, run_task, enqueue, Worker, Env, circuit_breaker_open,
}
use title_trust.Worker.Rules.{trace-ran, retried, handle_job_failure-cases, process_once-cases}
use title_trust.Worker.{
  attempt_of, process_once, process_job, defer_job, send_to_dead_letter, handle_job_failure,
}

-- The runs of a job that its payload leaves: one, or as many as attempts up to `max_retries`.
abbrev pub budget : ℕ → Payload → ℕ
budget max_retries p = max 1 (max_retries + 1 - attempt_of p)

-- A run counts once, a payload that is queued again as the runs that it leaves.
abbrev run_weight : ℕ → Effect → ℕ
run_weight max_retries (run_task p) = 1
run_weight max_retries (enqueue p priority) = budget max_retries p
run_weight max_retries _ = 0

abbrev pub runs : ℕ → Worker → ℕ
runs max_retries w = total (run_weight max_retries) w.trace

abbrev Within : ℕ → ℕ → Option Worker → Type 0
Within max_retries b none = Unit
Within max_retries b (some w) = runs max_retries w ≤ b

module _ (n : ℕ) (again : Payload → Worker → Option Worker) where
  send_to_dead_letter-runs :
      (p : Payload) (job_type : String) (message : Text) (stack : Option Text) (poison : Bool)
      (w : Worker)
      → runs n (send_to_dead_letter n p job_type message stack poison w) ≡ runs n w
  unfolding send_to_dead_letter
  send_to_dead_letter-runs p job_type message stack poison w =
      omega (arith, total-append (run_weight n) w.trace)

  defer_job-runs :
      (e : Env) (p : Payload) (w : Worker)
      → runs n (defer_job e p circuit_breaker_open w) ≤ runs n w + budget n p
  unfolding defer_job
  defer_job-runs e p w = elim (Bool-cases e.queue_enabled) [
    | inl on ↦ simp (on, total-append) (omega arith)
    | inr off ↦ simp (off, total-append) (omega arith)
  ]

  handle_job_failure-runs :
      (e : Env) (p : Payload) (message : Text) (job_type : String) (stack : Option Text)
      (w : Worker) (b : ℕ)
      → runs n w ≤ b
      → (attempt_of p < n → runs n w + budget n (retried p (attempt_of p)) ≤ b)
      → ((w' : Worker)
          → attempt_of p < n
          → runs n w' ≤ runs n w
          → Within n b (again (retried p (attempt_of p)) w'))
      → Within n b (handle_job_failure n again e p (attempt_of p) message job_type stack w)
  handle_job_failure-runs e p message job_type stack w b h k ih =
      handle_job_failure-cases n (Within n b) again e p (attempt_of p) message job_type stack w
        (λ poison. rw send_to_dead_letter-runs h)
        (λ more _. simp total-append (omega (arith, k more)))
        (λ more _. ih _ more (simp total-append (omega arith)))

  process_once-runs :
      (env : ℕ → Env) (p : Payload) (w : Worker)
      → ((w' : Worker)
          → attempt_of p < n
          → runs n w' + budget n (retried p (attempt_of p)) ≤ runs n w + budget n p
          → Within n (runs n w + budget n p) (again (retried p (attempt_of p)) w'))
      → Within n (runs n w + budget n p) (process_once n again env p w)
  process_once-runs env p w ih =
      process_once-cases n (Within n (runs n w + budget n p)) again env p w
        (λ _. simp total-append (omega arith)) (λ kind _. defer_job-runs (env (attempt_of p)) p w)
        (λ kind _ _. simp (total-append, trace-ran) (omega arith))
        (λ kind message stack _ _.
          handle_job_failure-runs (env (attempt_of p)) p message _ stack _ (runs n w + budget n p)
            (simp (total-append, trace-ran) (omega arith))
            (λ more. simp (total-append, trace-ran) (omega arith))
            (λ w' more h. ih w' more (omega (arith, simp (total-append, trace-ran) at h))))
        (λ message stack.
          handle_job_failure-runs (env (attempt_of p)) p message _ stack _ (runs n w + budget n p)
            (simp total-append (omega arith)) (λ more. simp total-append (omega arith))
            (λ w' more h. ih w' more (omega (arith, simp total-append at h))))

Within-mono : (n : ℕ) {b b' : ℕ} (o : Option Worker) → b ≤ b' → Within n b o → Within n b' o
Within-mono n none h k = tt
Within-mono n (some w) h k = omega arith

process_job-runs :
    (n fuel : ℕ) (env : ℕ → Env) (p : Payload) (w : Worker)
    → Within n (runs n w + budget n p) (process_job n fuel env p w)
unfolding process_job
process_job-runs n zero env p w = tt
process_job-runs n (suc fuel) env p w =
    process_once-runs n (process_job n fuel env) env p w (λ w' more h.
      Within-mono n (process_job n fuel env (retried p (attempt_of p)) w') h
        (process_job-runs n fuel env (retried p (attempt_of p)) w'))

-- Whatever the engines, the clock and the queue answer: the runs that a call of `process_job`
-- makes, and those that the payloads it queues again still leave, are together at most one, or
-- the attempts that the job had left up to `max_retries` if that is more.
pub process_job-runs-le :
    (n fuel : ℕ) (env : ℕ → Env) (p : Payload) (w : Worker) {w' : Worker}
    → process_job n fuel env p w ≡ some w'
    → runs n w' ≤ runs n w + budget n p
process_job-runs-le n fuel env p w e = rw e at (process_job-runs n fuel env p w)
