-- ===== src/Agent.antt =====
-- backend/agent/marathon_loop.py: the state of an audit and the decisions of MarathonLoop. The
-- modules below it hold the operations and the loop; what the Gemini interface answers, the regular
-- expressions that read a deed, and the digests are arguments.
pub mod Memory
pub mod Monad
pub mod Checks
pub mod Tools
pub mod Records
pub mod Decide
pub mod Phases
pub mod Execute
pub mod Step
pub mod Closed
pub mod Invariant
pub mod Evidence
pub mod Verdict
pub mod Continuity
use title_trust.Prelude.{ℕ, Bool, true, false, String, Option, none, some, List, []}
use title_trust.Text.{Text}
use title_trust.Agent.Memory.{Note}

pub data AgentState : Type 0 where
  idle running sleeping completed flagged failed waiting_for_user queued : AgentState

-- The keys of `progress_checklist` and of `verification_evidence`.
pub data Check : Type 0 where
  image_analyzed title_searched physical_boundary_verified additional_records_checked : Check
  zoning_checked historical_chain_checked owner_verified location_checked : Check

pub data Tool : Type 0 where
  analyze_image google_search inspect_satellite finish_audit wait_user escalate_error : Tool
  other_tool : Text → Tool

-- An artifact of `verification_evidence`; `evidence_backed_flags` repeats it.
pub record Artifact : Type 0 where
  pub provider : String
  pub trace_id : Text
  pub sha256 : Text

pub data Severity : Type 0 where
  high medium low : Severity

pub data RiskCode : Type 0 where
  legal_dispute_detected conversion_status_unverified : RiskCode

pub record Finding : Type 0 where
  pub category : String
  pub severity : Option Severity
  pub description : Text
  pub evidence : Text
  pub risk_code : Option RiskCode

pub record Action : Type 0 where
  pub tool : Tool
  pub input_hash : Text

pub record MarathonState : Type 0 where
  pub status : AgentState
  pub memory : List Note
  pub current_lat_lng : Option Text
  pub retry_count : ℕ
  pub empty_response_count : ℕ
  pub last_thought : Option Text
  pub image_uri : Option Text
  pub total_steps : ℕ
  pub error_history : List Text
  pub verification_evidence : Check → Option Artifact
  pub findings : List Finding
  pub action_history : List Action
  pub progress_checklist : Check → Bool

-- A decision of the model. A negative number of minutes is not modelled.
pub record AgentDecision : Type 0 where
  pub thought_process : Text
  pub next_tool : Tool
  pub tool_input : Text
  pub requires_sleep : Bool
  pub sleep_duration_minutes : ℕ

pub record AgentConfig : Type 0 where
  pub max_retries : ℕ
  pub step_delay_seconds : ℕ
  pub empty_response_max_retries : ℕ
  pub image_analysis_enabled : Bool

abbrev pub default_config : AgentConfig
default_config = record {
  max_retries = 3;
  step_delay_seconds = 2;
  empty_response_max_retries = 2;
  image_analysis_enabled = true;
}

-- A session that has just been made.
abbrev pub new_state : Option Text → MarathonState
new_state image_uri = record {
  status = idle;
  memory = [];
  current_lat_lng = none;
  retry_count = 0;
  empty_response_count = 0;
  last_thought = none;
  image_uri = image_uri;
  total_steps = 0;
  error_history = [];
  verification_evidence = λ c. none;
  findings = [];
  action_history = [];
  progress_checklist = λ c. false;
}
