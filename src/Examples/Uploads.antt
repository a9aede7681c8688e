-- ===== src/Examples/Uploads.antt =====
-- A request for a forensic job with a deed and a film, which is not a document, and one with a deed.
use title_trust.Prelude.{◌≡◌, refl, true, false, none, [], ◌∷◌, ℕ, leb, if◌then◌else◌}
use title_trust.Text.{codes, lower}
use title_trust.Sessions.Files.{extension}
use title_trust.Jobs.{JobService, Upload, Asker, redis_takes, rejected, enqueue_forensic, validate}
use title_trust.Jobs.Uploads.{all_valid, leading_paths, enqueue_forensic-rejected}
use title_trust.Jobs.Queue.{CallAttempt, transient, done, IsRun, execute_call, execute_call-IsRun}

abbrev no_jobs : JobService
no_jobs = record {
  jobs = λ id. none;
  saved = [];
  audit_events = [];
  background_tasks = [];
  queue = [];
  markers = [];
}

abbrev deed : Upload
deed = record { filename = codes "Deed.pdf"; size = 1_000; path = "/tmp/a.pdf" }

abbrev film : Upload
film = record { filename = codes "walk.mp4"; size = 1_000; path = "/tmp/b.mp4" }

abbrev asker : Asker
asker = record { user_id = "u1"; organization_id = "org"; correlation_id = none }

not_all_valid : all_valid (deed ∷ film ∷ []) ≡ false
unfolding validate extension lower
not_all_valid = refl

enqueue_forensic-rejected_example :
    enqueue_forensic (redis_takes 0) "j1" asker (deed ∷ film ∷ []) no_jobs
    ≡ (rejected 400, record no_jobs { saved = leading_paths (deed ∷ film ∷ []) })
enqueue_forensic-rejected_example =
    enqueue_forensic-rejected (redis_takes 0) "j1" asker (deed ∷ film ∷ []) no_jobs not_all_valid

-- A server that answers the third attempt.
abbrev late : ℕ → CallAttempt ℕ
late k = record {
  connects = true;
  reply = if leb 3 k then done 7 else transient;
  reconnects = true;
}

execute_call-IsRun_example : IsRun late 3 1 (execute_call late false)
execute_call-IsRun_example = execute_call-IsRun late false
