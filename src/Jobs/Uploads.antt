-- ===== src/Jobs/Uploads.antt =====
-- backend/services/background_job_service.py: the files of a request for a forensic job.
use title_trust.Prelude.{
  ℕ, ◌≡◌, refl, ap, ◌∙◌, Bool, true, false, ◌&&◌, String, some, List, [], ◌∷◌, ◌++◌, suc, replicate,
  if◌then◌else◌, arith,
}
use title_trust.Jobs.{
  Job, JobService, JobAnswer, accepted, rejected, raised, Upload, allowed_doc_suffixes, validate,
  persist_all, QueueMode, event_raises, inline, redis_takes, redis_raises, Asker, enqueue_saved,
  enqueue_forensic, job_queued,
}

abbrev is_inline : QueueMode → Bool
is_inline inline = true
is_inline _ = false

abbrev calls_raise : QueueMode → Bool
calls_raise event_raises = true
calls_raise (redis_raises n) = true
calls_raise _ = false

-- How often the job stands in the queue.
abbrev pub copies : QueueMode → ℕ
copies (redis_takes n) = suc n
copies (redis_raises n) = n
copies _ = 0

abbrev is_valid_file : Upload → Bool
is_valid_file u = validate allowed_doc_suffixes u

abbrev pub all_valid : List Upload → Bool
all_valid [] = true
all_valid (u ∷ us) = is_valid_file u && all_valid us

-- The paths of the files in front of the first that is not valid.
abbrev pub leading_paths : List Upload → List String
leading_paths [] = []
leading_paths (u ∷ us) = if is_valid_file u then u.path ∷ leading_paths us else []

persist_all-leading :
    (files : List Upload) → persist_all files ≡ (all_valid files, leading_paths files)
unfolding persist_all
persist_all-leading [] = refl
persist_all-leading (u ∷ us) = ground (arith, persist_all-leading us)

-- A request with a file that is not valid is rejected and makes no job, but the files in front of it
-- have been saved and stay.
pub enqueue_forensic-rejected :
    (mode : QueueMode) (id : String) (a : Asker) (files : List Upload) (v : JobService)
    → all_valid files ≡ false
    → enqueue_forensic mode id a files v
      ≡ (rejected 400, record v { saved = v.saved ++ leading_paths files })
unfolding enqueue_forensic
enqueue_forensic-rejected mode id a files v h =
    ap (enqueue_saved mode id a v)
      (persist_all-leading files ∙ ap (λ b. (b, leading_paths files)) h)

-- Where a job goes: to the background once, or to the queue at least once; and where a call raises,
-- to the queue as often as it was pushed in front of that, or nowhere.
pub record IsHandedOn (mode : QueueMode) (j : Job) (v : JobService) (r : JobAnswer × JobService)
    : Type 0 where
  pub answer : r.0 ≡ (if calls_raise mode then raised else accepted j.job_id job_queued j.job_type)
  pub background :
      r.1.background_tasks
      ≡ (if is_inline mode then v.background_tasks ++ j ∷ [] else v.background_tasks)
  pub queue : r.1.queue ≡ v.queue ++ replicate (copies mode) j
  pub job : r.1.jobs j.job_id ≡ some j
