-- ===== src/Examples/Jobs.antt =====
-- A worker with a forensic job, with and without an open breaker.
use title_trust.Prelude.{ℕ, ◌+◌, ◌≤◌, ◌≡◌, refl, arith, true, false, some, none, List, [], ◌∷◌}
use title_trust.Text.{contains, lower}
use title_trust.Breaker.{CircuitBreakerMetrics, closed, open_}
use title_trust.DeadLetter.{Payload, is_poison_pill}
use title_trust.Worker.Effects.{Env, Worker, TaskError, total}
use title_trust.Worker.{process_job, serve, forensic, kind_of, type_of, error_text}
use title_trust.Worker.Termination.{process_job-total}
use title_trust.Worker.Budget.{runs, budget, process_job-runs-le}
use title_trust.Worker.Stuck.{forensic_run, serve-open}

abbrev job : Payload
job = record {
  job_id = some "j1";
  job_type = some "forensic";
  attempts = none;
  priority = none;
  file_paths = "a.pdf" ∷ [];
  file_path = "";
  file_size = 10;
  file_type = [];
}

abbrev failure : TaskError
failure = record { is_timeout = true; message = []; stack = [] }

abbrev env : ℕ → Env
env n = record {
  is_cancelled = false;
  queue_enabled = true;
  now = n;
  later = n + 1;
  draw = 0;
  stack = [];
  task = λ exists. some failure;
  update_error = none;
}

abbrev metrics : CircuitBreakerMetrics
metrics = record {
  state = closed;
  failure_count = 0;
  success_count = 0;
  last_failure_time = none;
  last_state_change = 0;
  total_calls = 0;
  total_failures = 0;
  total_successes = 0;
}

abbrev worker : Worker
worker = record { forensic = metrics; geospatial = metrics; exists = λ f. true; trace = [] }

abbrev stuck : Worker
stuck = record worker { forensic = record metrics { state = open_ } }

process_job-total_example : (w' : Worker) × (process_job 3 4 env job worker ≡ some w')
process_job-total_example = process_job-total 3 4 env job worker (omega arith) (omega arith)

came_back : (w' : Worker) × (process_job 3 4 env job worker ≡ some w')
came_back = process_job-total 3 4 env job worker (omega arith) (omega arith)

process_job-runs-le_example : runs 3 came_back.0 ≤ runs 3 worker + budget 3 job
process_job-runs-le_example = process_job-runs-le 3 4 env job worker came_back.1

abbrev jobs : List ((ℕ → Env) × Payload)
jobs = (env, job) ∷ (env, job) ∷ []

serve-open_example :
    (w' : Worker) × (serve 3 jobs stuck ≡ some w')
    × (w'.forensic ≡ stuck.forensic)
    × (total forensic_run w'.trace ≡ total forensic_run stuck.trace)
serve-open_example = serve-open 3 jobs stuck refl

is_forensic : kind_of (type_of job) ≡ some forensic
unfolding kind_of
is_forensic = refl

not_poison : is_poison_pill (error_text failure) job ≡ false
unfolding is_poison_pill contains lower
not_poison = refl
