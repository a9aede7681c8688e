-- ===== src/Sessions/Steps.antt =====
-- backend/services/session_service.py: the steps of a session, its status and its retries.
use title_trust.Prelude.{
  ℕ, ◌+◌, Bool, true, false, String, str_eq, Option, none, some, List, ◌++◌, if◌then◌else◌,
}
use title_trust.Text.{Text, codes}
use title_trust.Agent.{
  AgentState, running, failed, waiting_for_user, queued, AgentConfig, Check, Finding,
}
use title_trust.Agent.Monad.{World, server_timestamp, Exit, ok, reply, access_denied, raised}
use title_trust.Agent.Tools.{Env}
use title_trust.Agent.Step.{run_single_step}
use title_trust.Sessions.{
  Session, SessionService, Answer, refused, answered, crashed, bootstrap_completed, tick_completed,
  bootstrap_failed, retry_requested, put_session, append_event, schedule,
}

-- The session of a user, or the answers 404 and 403.
abbrev pub own_session :
    {A : Type 0}
    → String
    → SessionService
    → Option Session
    → (Session → Answer A × SessionService)
    → Answer A × SessionService
own_session user v none f = (refused 404, v)
own_session user v (some s) f = if str_eq s.user_id user then f s else (refused 403, v)

-- A tick is scheduled while the session runs.
unfoldable pub schedule_if_running : String → AgentState → ℕ → SessionService → SessionService
schedule_if_running id running n v = schedule id n v
schedule_if_running id _ n v = v

-- The session after the step that MarathonLoop has run on it.
abbrev pub stepped : String → Session → World → SessionService → SessionService
stepped id s w v = put_session id (record s { world = w }) v

unfoldable pub after_tick :
    String → String → SessionService → Exit (Unit {0}) → Answer AgentState × SessionService
unfolding schedule_if_running
after_tick id user v (reply status n) = (
  answered status,
  schedule_if_running id status n (append_event id (tick_completed status n) user v),
)
after_tick id user v _ = (crashed, v)

-- `tick`
unfoldable pub tick :
    AgentConfig → Env → String → String → SessionService → Answer AgentState × SessionService
unfolding after_tick run_single_step
tick c e id user v =
    own_session user v (v.sessions id) (λ s.
      let (exit, w) = run_single_step c e s.world in after_tick id user (stepped id s w v) exit)

-- `update(session_id, {"status": "FAILED", "error": …})`
abbrev fail_with : Text → Session → Session
fail_with t s = record s {
  error = some (codes "Bootstrap failed: " ++ t);
  world = record s.world {
    doc = record s.world.doc { status = failed };
    last_update = server_timestamp;
  };
}

abbrev fail_bootstrap : String → String → Session → Text → SessionService → SessionService
fail_bootstrap id user s t v =
    append_event id (bootstrap_failed t) user (put_session id (fail_with t s) v)

unfoldable pub after_bootstrap :
    String → String → Session → SessionService → Exit (Unit {0}) → SessionService
unfolding schedule_if_running
after_bootstrap id user s v (reply status n) =
    schedule_if_running id status n (append_event id (bootstrap_completed status n) user v)
after_bootstrap id user s v (ok _) = v
after_bootstrap id user s v (access_denied t) = fail_bootstrap id user s t v
after_bootstrap id user s v (raised t) = fail_bootstrap id user s t v

abbrev pub bootstrap_found :
    AgentConfig → Env → String → String → SessionService → Option Session → SessionService
unfolding after_bootstrap run_single_step
bootstrap_found c e id user v none = v
bootstrap_found c e id user v (some s) =
    let (exit, w) = run_single_step c e s.world in
    after_bootstrap id user (record s { world = w }) (stepped id s w v) exit

-- `bootstrap`
unfoldable pub bootstrap : AgentConfig → Env → String → String → SessionService → SessionService
unfolding bootstrap_found
bootstrap c e id user v = bootstrap_found c e id user v (v.sessions id)

-- What `get_status` shows of a session.
pub record Status : Type 0 where
  pub session_id : String
  pub status : AgentState
  pub progress : Check → Bool
  pub total_steps : ℕ
  pub last_thought : Option Text
  pub error : Option Text
  pub findings : List Finding
  pub audit_conclusion : Option Text

abbrev shown : String → Session → Status
shown id s = record {
  session_id = id;
  status = s.world.doc.status;
  progress = s.world.doc.progress_checklist;
  total_steps = s.world.doc.total_steps;
  last_thought = s.world.doc.last_thought;
  error = s.error;
  findings = s.world.doc.findings;
  audit_conclusion = s.world.audit_conclusion;
}

unfoldable pub get_status : String → String → SessionService → Answer Status × SessionService
get_status id user v = own_session user v (v.sessions id) (λ s. (answered (shown id s), v))

unfoldable pub can_retry : AgentState → Bool
can_retry failed = true
can_retry waiting_for_user = true
can_retry queued = true
can_retry _ = false

abbrev pub retried : Session → Session
retried s = record s {
  world = record s.world {
    doc = record s.world.doc { status = running; retry_count = s.world.doc.retry_count + 1 };
    last_update = server_timestamp;
  };
}

-- `retry`
unfoldable pub retry : String → String → SessionService → Answer String × SessionService
unfolding can_retry
retry id user v = own_session user v (v.sessions id) (λ s.
    if can_retry s.world.doc.status
    then (
      answered "RETRYING",
      schedule id 1 (
          append_event id (retry_requested (s.world.doc.retry_count + 1)) user
            (put_session id (retried s) v)),
    )
    else (refused 400, v))
