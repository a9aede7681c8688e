-- ===== src/Worker/Stuck.antt =====
-- A breaker of the worker that is open stays open: `process_job` tests for the open state before
-- it makes the `call` that alone would let a probe through after the recovery timeout.
use title_trust.Prelude.{
  ℕ, zero, suc, ◌+◌, ◌≡◌, refl, true, false, String, Option, some, none, List, [], ◌∷◌, arith,
  Bool-cases, inl, inr,
}
use title_trust.Text.{Text}
use title_trust.Breaker.{CircuitBreakerMetrics, open_, is_open}
use title_trust.DeadLetter.{Payload}
use title_trust.Worker.Effects.{
  total, total-append, Effect, run_task, Worker, Env, record_effects, circuit_breaker_open,
}
use title_trust.Worker.Termination.{process_job-total}
use title_trust.Worker.Rules.{retry_effects, handle_job_failure-cases, process_once-cases, ran}
use title_trust.Worker.{
  attempt_of, breaker, process_once, process_job, serve, defer_job, send_to_dead_letter,
  handle_job_failure, Kind, forensic, geospatial, kind_of, type_of, started,
}

abbrev pub is_forensic : Option Kind → ℕ
is_forensic (some forensic) = 1
is_forensic _ = 0

-- How often a forensic analysis was run.
abbrev pub forensic_run : Effect → ℕ
forensic_run (run_task p) = is_forensic (kind_of (type_of p))
forensic_run _ = 0

-- The forensic breaker is `m` and `k` forensic analyses were run.
abbrev Frozen : CircuitBreakerMetrics → ℕ → Worker → Type 0
Frozen m k w = (w.forensic ≡ m) × (total forensic_run w.trace ≡ k)

abbrev Frozen? : CircuitBreakerMetrics → ℕ → Option Worker → Type 0
Frozen? m k none = Unit
Frozen? m k (some w) = Frozen m k w

module _ (n : ℕ) (m : CircuitBreakerMetrics) (k : ℕ) (again : Payload → Worker → Option Worker)
    (ih : (p : Payload) (w : Worker) → Frozen m k w → Frozen? m k (again p w)) where
  quiet-Frozen :
      (es : List Effect) (w : Worker)
      → total forensic_run es ≡ 0
      → Frozen m k w
      → Frozen m k (record_effects es w)
  quiet-Frozen es w z h = (h.0, simp total-append (omega (arith, h.1)))

  handle_job_failure-Frozen :
      (e : Env) (p : Payload) (attempts : ℕ) (message : Text) (job_type : String)
      (stack : Option Text) (w : Worker)
      → Frozen m k w
      → Frozen? m k (handle_job_failure n again e p attempts message job_type stack w)
  unfolding send_to_dead_letter
  handle_job_failure-Frozen e p attempts message job_type stack w h =
      let h' = quiet-Frozen (retry_effects e p attempts message) w refl h in
      handle_job_failure-cases n (Frozen? m k) again e p attempts message job_type stack w
        (λ _. quiet-Frozen _ w refl h)
        (λ _ _. quiet-Frozen _ (record_effects (retry_effects e p attempts message) w) refl h')
        (λ _ _. ih _ _ h')

  defer_job-Frozen :
      (e : Env) (p : Payload) (w : Worker)
      → Frozen m k w
      → Frozen m k (defer_job e p circuit_breaker_open w)
  unfolding defer_job
  defer_job-Frozen e p w h = elim (Bool-cases e.queue_enabled) [
    | inl on ↦ simp on (quiet-Frozen _ w refl h)
    | inr off ↦ simp off (quiet-Frozen _ w refl h)
  ]

  -- A run is one of the other kind, whose breaker is not open.
  run-Frozen :
      (e : Env) (p : Payload) (kind : Kind) (es : List Effect) (w : Worker)
      → is_open m.state ≡ true
      → total forensic_run es ≡ 0
      → kind_of (type_of p) ≡ some kind
      → is_open (breaker kind w).state ≡ false
      → Frozen m k w
      → Frozen m k (
          record_effects
            (run_task p ∷ es)
            (ran e p kind (record_effects (started p (attempt_of p)) w)))
  run-Frozen e p forensic es w o z t runs h = absurd (ground (arith, h.0))
  run-Frozen e p geospatial es w o z t runs h = (h.0, simp (total-append, t) (omega (arith, h.1)))

  process_once-Frozen :
      (env : ℕ → Env) (p : Payload) (w : Worker)
      → is_open m.state ≡ true
      → Frozen m k w
      → Frozen? m k (process_once n again env p w)
  process_once-Frozen env p w o h =
      process_once-cases n (Frozen? m k) again env p w (λ _. quiet-Frozen _ w refl h)
        (λ kind _. defer_job-Frozen (env (attempt_of p)) p w h)
        (λ kind t runs. run-Frozen (env (attempt_of p)) p kind _ w o refl t runs h)
        (λ kind message stack t runs.
          handle_job_failure-Frozen (env (attempt_of p)) p _ message _ stack _
            (run-Frozen (env (attempt_of p)) p kind [] w o refl t runs h))
        (λ message stack.
          handle_job_failure-Frozen (env (attempt_of p)) p _ message _ stack _
            (quiet-Frozen (started p (attempt_of p)) w refl h))

process_job-Frozen :
    (n : ℕ) (m : CircuitBreakerMetrics) (k fuel : ℕ) (env : ℕ → Env) (p : Payload) (w : Worker)
    → is_open m.state ≡ true
    → Frozen m k w
    → Frozen? m k (process_job n fuel env p w)
unfolding process_job
process_job-Frozen n m k zero env p w o h = tt
process_job-Frozen n m k (suc fuel) env p w o h =
    process_once-Frozen n m k (process_job n fuel env)
      (λ p' w'. process_job-Frozen n m k fuel env p' w' o) env p w o h

serve-Frozen :
    (n : ℕ) (m : CircuitBreakerMetrics) (k : ℕ) (jobs : List ((ℕ → Env) × Payload)) (w : Worker)
    → is_open m.state ≡ true
    → Frozen m k w
    → (w' : Worker) × (serve n jobs w ≡ some w') × Frozen m k w'
unfolding serve
serve-Frozen n m k [] w o h = (w, refl, h)
serve-Frozen n m k ((env, p) ∷ jobs) w o h =
    let (w₁, e) = process_job-total n (n + 1) env p w (omega arith) (omega arith) in
    let frozen : Frozen m k w₁ = rw e at (process_job-Frozen n m k (n + 1) env p w o h) in
    rw (e, serve) (serve-Frozen n m k jobs w₁ o frozen)

-- While the forensic breaker is open, the worker serves any list of jobs, at any times and however
-- the engines answer, without one run of a forensic analysis and without a change of that
-- breaker: no recovery timeout ends this.
pub serve-open :
    (n : ℕ) (jobs : List ((ℕ → Env) × Payload)) (w : Worker)
    → w.forensic.state ≡ open_
    → (w' : Worker) × (serve n jobs w ≡ some w')
      × (w'.forensic ≡ w.forensic)
      × (total forensic_run w'.trace ≡ total forensic_run w.trace)
serve-open n jobs w o =
    let (w', e, h) =
      serve-Frozen n w.forensic (total forensic_run w.trace) jobs w (rw o) (refl, refl) in
    (w', e, h.0, h.1)
