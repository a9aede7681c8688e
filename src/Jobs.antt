-- ===== src/Jobs.antt =====
-- backend/services/background_job_service.py and backend/repositories/job_repository.py: the jobs of
-- uploaded files, from the request to the queue. Ids and paths of temporary files are arguments, and
-- so is what the audit log and the queue do with a job. The other calls of the database are taken to
-- answer.
pub mod Queue
pub mod Uploads
use title_trust.Prelude.{
  ℕ, ◌+◌, Bool, true, false, ◌&&◌, String, str_eq, Option, none, some, List, [], ◌∷◌, ◌++◌, ◌*◌,
  any, leb, replicate, if◌then◌else◌,
}
use title_trust.Text.{Text, codes, text_eq, lower}
use title_trust.Sessions.Files.{extension}

-- The status of a job that is written here; the worker writes others.
pub data JobStatus : Type 0 where
  job_queued job_cancelled : JobStatus

-- The document of a job, which is also the payload that is queued.
pub record Job : Type 0 where
  pub job_id : String
  pub job_type : String
  pub status : JobStatus
  pub user_id : String
  pub organization_id : String
  pub file_paths : List String
  pub attempts : ℕ
  pub correlation_id : Option String
  pub priority : String

pub data JobLogEntry : Type 0 where
  queued_event : String → ℕ → JobLogEntry
  cancel_requested : JobLogEntry

pub record JobService : Type 0 where
  pub jobs : String → Option Job
  -- the temporary files that have been written
  pub saved : List String
  pub audit_events : List (String × JobLogEntry × String)
  pub background_tasks : List Job
  pub queue : List Job
  -- the jobs for which the queue has been asked to set a marker
  pub markers : List String

pub data JobAnswer : Type 0 where
  accepted : String → JobStatus → String → JobAnswer
  rejected : ℕ → JobAnswer
  raised : JobAnswer

-- A file of a request, with the path at which it is saved.
pub record Upload : Type 0 where
  pub filename : Text
  pub size : ℕ
  pub path : String

abbrev max_file_size : ℕ
max_file_size = 50 * (1_024 * 1_024)

abbrev pub allowed_doc_suffixes : List Text
allowed_doc_suffixes = codes ".pdf" ∷ codes ".png" ∷ codes ".jpg" ∷ codes ".jpeg" ∷ []

abbrev allowed_media_suffixes : List Text
allowed_media_suffixes =
    codes ".pdf" ∷ codes ".png" ∷ codes ".jpg" ∷ codes ".jpeg" ∷ codes ".mp4" ∷ codes ".mov" ∷ []

-- `_validate`, which answers 400 for another file type and for more than 50 MB.
unfoldable pub validate : List Text → Upload → Bool
validate allowed u =
    any (text_eq (lower (extension u.filename))) allowed && leb u.size max_file_size

-- `_validate` and `_persist_upload` of one file after another: whether all were valid, and the paths
-- of those that were saved.
pub persist_all : List Upload → Bool × List String
unfolding validate
persist_all [] = (true, [])
persist_all (u ∷ us) =
    let (all_valid, paths) = persist_all us in
    if validate allowed_doc_suffixes u then (all_valid, u.path ∷ paths) else (false, [])

abbrev put_job : Job → JobService → JobService
put_job j v = record v { jobs = λ id. if str_eq j.job_id id then some j else v.jobs id }

abbrev log_event : String → JobLogEntry → String → JobService → JobService
log_event id e actor v = record v { audit_events = v.audit_events ++ (id, e, actor) ∷ [] }

-- What the calls behind the write of the job do. The append of the event raises; or it does not, and
-- the queue is not in use, answers, or raises. `RedisQueue` makes its call again where a reply is
-- lost, so that it may have pushed the job `n` times more, or `n` times before it raises.
pub data QueueMode : Type 0 where
  event_raises inline : QueueMode
  redis_takes redis_raises : ℕ → QueueMode

abbrev accept : Job → JobAnswer
accept j = accepted j.job_id job_queued j.job_type

-- `_dispatch`, and the answer
pub dispatch_job : QueueMode → Job → JobService → JobAnswer × JobService
dispatch_job inline j v = (accept j, record v { background_tasks = v.background_tasks ++ j ∷ [] })
dispatch_job (redis_takes n) j v = (accept j, record v { queue = v.queue ++ j ∷ replicate n j })
dispatch_job (redis_raises n) j v = (raised, record v { queue = v.queue ++ replicate n j })
dispatch_job event_raises j v = (raised, v)

-- `_emit`, which may raise and is not caught: then `dispatch_job` only passes the exception on.
unfoldable pub emit_queued : QueueMode → Job → ℕ → JobService → JobService
emit_queued event_raises j files v = v
emit_queued _ j files v = log_event j.job_id (queued_event j.job_type files) j.user_id v

-- `JobRepository.create`, which raises where the id is taken, and what follows.
abbrev pub create_job : QueueMode → Job → ℕ → JobService → Option Job → JobAnswer × JobService
unfolding dispatch_job emit_queued
create_job mode j files v none = dispatch_job mode j (emit_queued mode j files (put_job j v))
create_job mode j files v (some taken) = (raised, v)

-- Who asks for a job.
pub record Asker : Type 0 where
  pub user_id : String
  pub organization_id : String
  pub correlation_id : Option String

abbrev pub new_job : String → String → Asker → List String → Job
new_job id kind a paths = record {
  job_id = id;
  job_type = kind;
  status = job_queued;
  user_id = a.user_id;
  organization_id = a.organization_id;
  file_paths = paths;
  attempts = 0;
  correlation_id = a.correlation_id;
  priority = "high";
}

abbrev pub count_files : List String → ℕ
count_files [] = 0
count_files (p ∷ ps) = 1 + count_files ps

abbrev pub enqueue_saved :
    QueueMode → String → Asker → JobService → Bool × List String → JobAnswer × JobService
unfolding create_job
enqueue_saved mode id a v (false, paths) = (rejected 400, record v { saved = v.saved ++ paths })
enqueue_saved mode id a v (true, paths) =
    create_job mode (new_job id "forensic" a paths) (count_files paths)
      (record v { saved = v.saved ++ paths }) (v.jobs id)

-- `enqueue_forensic`
pub enqueue_forensic :
    QueueMode → String → Asker → List Upload → JobService → JobAnswer × JobService
unfolding enqueue_saved persist_all
enqueue_forensic mode id a files v = enqueue_saved mode id a v (persist_all files)

-- `enqueue_geospatial`, whose place is left out.
unfoldable enqueue_geospatial :
    QueueMode → String → Asker → Upload → JobService → JobAnswer × JobService
unfolding create_job validate
enqueue_geospatial mode id a file v =
    if validate allowed_media_suffixes file
    then create_job mode (new_job id "geospatial" a (file.path ∷ [])) 1
        (record v { saved = v.saved ++ file.path ∷ [] }) (v.jobs id)
    else (rejected 400, v)

abbrev cancel_found : String → String → JobService → Option Job → JobAnswer × JobService
cancel_found id user v none = (rejected 404, v)
cancel_found id user v (some j) =
    if str_eq j.user_id user
    then (
      accepted id job_cancelled j.job_type,
      log_event id cancel_requested user
          (record (put_job (record j { job_id = id; status = job_cancelled }) v) {
            markers = v.markers ++ id ∷ [];
          }),
    )
    else (rejected 403, v)

-- `cancel_job`
unfoldable cancel_job : String → String → JobService → JobAnswer × JobService
unfolding cancel_found
cancel_job id user v = cancel_found id user v (v.jobs id)
