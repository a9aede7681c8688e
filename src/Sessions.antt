-- ===== src/Sessions.antt =====
-- backend/services/session_service.py and backend/repositories/session_repository.py: the audit
-- sessions of users, and the steps of MarathonLoop that are run on them. The database and the task
-- queue are taken to answer; ids are arguments.
pub mod Start
pub mod Steps
pub mod Files
pub mod Access
pub mod Idempotency
pub mod Occurrence
pub mod Stalled
use title_trust.Prelude.{
  ℕ, ◌+◌, Bool, true, false, not, String, str_eq, Option, none, some, List, [], ◌∷◌, ◌++◌,
  if◌then◌else◌,
}
use title_trust.Text.{Text, codes}
use title_trust.Agent.Memory.{received_object}
use title_trust.Agent.{
  AgentState, idle, running, sleeping, completed, flagged, failed, waiting_for_user, queued,
  MarathonState, AgentConfig, new_state, Check, Finding,
}
use title_trust.Agent.Monad.{World, Exit, ok, reply, access_denied, raised}
use title_trust.Agent.Tools.{Env}
use title_trust.Agent.Step.{run_single_step}

-- The document of a session. What MarathonLoop and the sync service keep in it is the `world`.
pub record Session : Type 0 where
  pub user_id : String
  pub organization_id : String
  pub error : Option Text
  pub world : World

-- What is appended to the audit events of a session.
pub data AuditEntry : Type 0 where
  started : Text → Text → AuditEntry
  bootstrap_completed tick_completed : AgentState → ℕ → AuditEntry
  bootstrap_failed : Text → AuditEntry
  retry_requested : ℕ → AuditEntry

pub record SessionService : Type 0 where
  pub sessions : String → Option Session
  -- the idempotency keys, with a session and its user
  pub idempotency : String → Option (String × String)
  -- what has been appended: session, entry, actor
  pub audit_events : List (String × AuditEntry × String)
  -- the calls of `bootstrap` in the background, and the ticks that have been scheduled
  pub background_tasks : List (String × String)
  pub ticks : List (String × ℕ)

-- An HTTP status with the error, a result, or an exception that reaches the client as status 500.
pub data Answer (A : Type 0) : Type 0 where
  refused : ℕ → Answer A
  answered : A → Answer A
  crashed : Answer A

abbrev pub is_empty : String → Bool
is_empty s = str_eq s ""

-- SessionRepository: `update`, with what it merges; a document that is missing is not written here,
-- because the service reads it first.
abbrev pub put_session : String → Session → SessionService → SessionService
put_session id s v = record v { sessions = λ j. if str_eq id j then some s else v.sessions j }

abbrev pub append_event : String → AuditEntry → String → SessionService → SessionService
append_event id e actor v = record v { audit_events = v.audit_events ++ (id, e, actor) ∷ [] }

abbrev pub schedule : String → ℕ → SessionService → SessionService
schedule id seconds v = record v { ticks = v.ticks ++ (id, seconds) ∷ [] }
