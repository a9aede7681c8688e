-- ===== src/Examples/Services.antt =====
-- Two users, their audits and their keys.
use title_trust.Prelude.{
  ◌≡◌, ◌≢◌, refl, ap, true, String, str_eq, none, some, List, [], ◌∷◌, ◌++◌, if◌then◌else◌,
}
use mathlib.Core.Bool.{true≢false}
use title_trust.Text.{codes, lower}
use title_trust.Agent.{queued, running, default_config}
use title_trust.Agent.Step.{run_single_step, step_on, load_error}
use title_trust.Sessions.{Session, SessionService, Answer, answered, crashed, put_session}
use title_trust.Sessions.Start.{
  new_session, initial_world, status_or_queued, create_session_from_source, announce_keyed,
  announce, existing_idempotent_session,
}
use title_trust.Sessions.Steps.{tick, retry, can_retry, bootstrap, after_bootstrap, after_tick}
use title_trust.Sessions.Files.{StartRequest, start_marathon, is_supported, extension}
use title_trust.Sessions.Access.{
  Request, start_request, tick_request, status_request, retry_request, perform, perform_all,
  perform_all-foreign,
}
use title_trust.Sessions.Idempotency.{start_marathon-again, start_marathon-key_taken}
use title_trust.Sessions.Occurrence.{Happening, requested, bootstrapped, occur, occur_all}
use title_trust.Sessions.Stalled.{IsStalled, occur_all-IsStalled}
use title_trust.Examples.Audits.{env}

abbrev no_sessions : SessionService
no_sessions = record {
  sessions = λ id. none;
  idempotency = λ k. none;
  audit_events = [];
  background_tasks = [];
  ticks = [];
}

abbrev request : String → String → StartRequest
request user key = record {
  user_id = user;
  organization_id = "org";
  idempotency_key = some key;
  filename = codes "deed.PDF";
  source = some (codes "gs://deed");
}

-- After the first start of a user.
abbrev started_once : SessionService
started_once = record {
  sessions = λ j. if str_eq "s1" j then some (new_session "u1" "org" (codes "gs://deed")) else none;
  idempotency = λ k. if str_eq "k" k then some ("s1", "u1") else none;
  audit_events =
      ("s1", title_trust.Sessions.started (codes "deed.PDF") (codes "gs://deed"), "u1") ∷ [];
  background_tasks = ("s1", "u1") ∷ [];
  ticks = [];
}

start_run :
    start_marathon "s1" (request "u1" "k") no_sessions ≡ (answered ("s1", queued), started_once)
unfolding start_marathon existing_idempotent_session is_supported extension
    create_session_from_source announce_keyed announce lower
start_run = refl

abbrev strangers : List Request
strangers =
    tick_request default_config env "s1" "u2"
    ∷ retry_request "s1" "u2"
    ∷ start_request "s1" (request "u2" "k")
    ∷ status_request "s1" "u2"
    ∷ []

strange : ◌≢◌ {A = String} "u1" "u2"
strange e = true≢false (ap (str_eq "u1") e)

perform_all-foreign_example :
    (perform_all strangers started_once).sessions "s1"
    ≡ some (new_session "u1" "org" (codes "gs://deed"))
perform_all-foreign_example =
    perform_all-foreign "s1" strangers started_once (new_session "u1" "org" (codes "gs://deed"))
      refl (strange, (strange, (strange, (strange, tt))))

start_marathon-again_example :
    start_marathon "s2" (request "u1" "k") (perform_all strangers started_once) ≡ (
      answered ("s1", status_or_queued ((perform_all strangers started_once).sessions "s1")),
      perform_all strangers started_once,
    )
start_marathon-again_example =
    start_marathon-again "k" "s1" "s2" (request "u1" "k") (request "u1" "k") no_sessions
      started_once ("s1", queued) strangers refl refl refl refl refl start_run

deed_supported : is_supported (codes "deed.PDF") ≡ true
unfolding is_supported extension lower
deed_supported = refl

start_marathon-key_taken_example :
    start_marathon "s2" (request "u2" "k") started_once
    ≡ (crashed, put_session "s2" (new_session "u2" "org" (codes "gs://deed")) started_once)
start_marathon-key_taken_example =
    start_marathon-key_taken "k" "s2" (request "u2" "k") started_once (codes "gs://deed") "u1" "s1"
      refl refl refl strange deed_supported refl refl

abbrev steps : List Happening
steps =
    requested (start_request "s1" (request "u1" "k"))
    ∷ bootstrapped default_config env "s1" "u1"
    ∷ requested (retry_request "s1" "u1")
    ∷ requested (tick_request default_config env "s1" "u1")
    ∷ []

-- The session after its start, a bootstrap, a retry and a tick.
abbrev left_running : Session
left_running = record (new_session "u1" "org" (codes "gs://deed")) {
  error = some (codes "Bootstrap failed: " ++ codes "Input should be a valid number");
  world = record (initial_world (codes "gs://deed")) {
    doc = record (initial_world (codes "gs://deed")).doc { status = running; retry_count = 1 };
  };
}

steps_run : (occur_all steps no_sessions).sessions "s1" ≡ some left_running
unfolding occur_all occur perform start_marathon existing_idempotent_session is_supported extension
    create_session_from_source announce_keyed announce lower bootstrap after_bootstrap tick retry
    can_retry run_single_step step_on load_error after_tick
steps_run = refl

occur_all-IsStalled_example : IsStalled left_running.world
occur_all-IsStalled_example =
    occur_all-IsStalled steps no_sessions "s1" left_running (λ j. refl)
      (tt, ((_, refl), (tt, ((_, refl), tt)))) steps_run
