-- ===== src/Agent/Step.antt =====
-- backend/agent/marathon_loop.py: `run_single_step`, and the steps of a worker one after another.
use title_trust.Prelude.{
  ℕ, ◌+◌, ◌*◌, Bool, true, false, ◌&&◌, ◌||◌, Option, none, some, List, [], ◌∷◌, ◌++◌, leb, ltb,
  take, if◌then◌else◌,
}
use title_trust.Text.{Text, codes, lower, contains, join}
use title_trust.Agent.Memory.{
  auto_concluded, budget_exhausted, needs_clarification, retries_failed, thought, access_error,
  errors_failed,
}
use title_trust.Agent.{
  AgentState, idle, running, completed, flagged, failed, waiting_for_user, queued, MarathonState,
  Finding, Check, image_analyzed, title_searched, physical_boundary_verified,
  additional_records_checked, zoning_checked, historical_chain_checked, Action, google_search,
  AgentConfig, AgentDecision,
}
use title_trust.Agent.Monad.{
  M, World, Exit, raised, Stamp, missing, seconds, server_timestamp, ◌>>=◌, ◌>>◌, if_some, skip,
  get, update, remember, set_status, save, finish, finish_now, attempt, sync, nothing, push,
}
use title_trust.Agent.Checks.{has_verified_check, check_name, same_tool}
use title_trust.Agent.Tools.{Env}
use title_trust.Agent.Decide.{generate_decision}
use title_trust.Agent.Phases.{image_phase, title_phase, boundary_phase, records_phase, is_recorded}
use title_trust.Agent.Execute.{execute}

abbrev pub max_steps : ℕ
max_steps = 15

-- The checks without which the last step does not conclude.
unfoldable pub budget_checks_complete : MarathonState → Bool
budget_checks_complete s =
    has_verified_check image_analyzed s
    && (has_verified_check physical_boundary_verified s
        && (has_verified_check additional_records_checked s
            && (has_verified_check zoning_checked s
                && has_verified_check historical_chain_checked s)))

abbrev auto_verdict : Text
auto_verdict =
    codes "Audit completed with available evidence after exhausting the maximum step budget. "
    ++ codes "Step 4 and Step 5 mandatory checks were completed before conclusion."

abbrev pub auto_findings : List Finding
auto_findings =
    record {
      category = "Auto-Concluded Audit";
      severity = none;
      description = auto_verdict;
      evidence =
          codes "See investigation logs. Maximum steps reached after mandatory verification.";
      risk_code = none;
    }
    ∷ []

abbrev unless_done : MarathonState → Check → List Text
unless_done s c = if s.progress_checklist c then [] else codes (check_name c) ∷ []

-- The names of the mandatory checks that the checklist has not.
unfoldable pub missing_checks : MarathonState → List Text
missing_checks s =
    unless_done s physical_boundary_verified
    ++ (unless_done s additional_records_checked
        ++ (unless_done s zoning_checked ++ unless_done s historical_chain_checked))

abbrev stopped_verdict : MarathonState → Text
stopped_verdict s =
    codes
      "The audit stopped before mandatory Kenyan verification steps were completed. Outstanding checks: "
    ++ (join (codes ", ") (missing_checks s) ++ codes ".")

unfoldable pub auto_conclude : M (Unit {0})
unfolding sync
auto_conclude =
    set_status completed
    >> remember (auto_concluded auto_verdict)
    >> update (λ s. record s { findings = auto_findings })
    >> sync (record {
      status = some completed;
      percent = some 100;
      findings = auto_findings;
      conclusion = some auto_verdict;
    })

unfoldable pub stop_for_user : M (Unit {0})
unfolding sync
stop_for_user =
    set_status waiting_for_user
    >> (get >>= (λ s. remember (budget_exhausted (stopped_verdict s))))
    >> sync (record nothing { status = some waiting_for_user })

-- The last step: what is done when the step budget is spent.
unfoldable pub spend_budget : M (Unit {0})
unfolding auto_conclude stop_for_user
spend_budget =
    (get >>= (λ s. if budget_checks_complete s then auto_conclude else stop_for_user))
    >> save
    >> finish_now

abbrev pub has_ended : AgentState → Bool
has_ended completed = true
has_ended flagged = true
has_ended failed = true
has_ended _ = false

abbrev pub is_waiting_to_start : AgentState → Bool
is_waiting_to_start queued = true
is_waiting_to_start idle = true
is_waiting_to_start _ = false

unfoldable pub start : M (Unit {0})
start = get >>= (λ s. if is_waiting_to_start s.status then set_status running >> save else skip)

-- Too many answers that could not be read.
unfoldable pub give_up : M (Unit {0})
unfolding sync
give_up = do
  set_status waiting_for_user
  remember needs_clarification
  save
  sync (record nothing { status = some waiting_for_user })
  finish_now

abbrev searches_done : List Action → ℕ
searches_done [] = 0
searches_done (a ∷ l) =
    let rest = searches_done l in if same_tool a.tool google_search then rest + 1 else rest

-- Whether the model is given the prompt that asks it to conclude.
unfoldable pub should_conclude : MarathonState → Bool
should_conclude s =
    (s.progress_checklist title_searched
      && (s.progress_checklist physical_boundary_verified
          && (is_recorded s
              && (s.progress_checklist historical_chain_checked
                  && (s.progress_checklist zoning_checked
                      && (leb 1 (searches_done s.action_history) && leb 4 s.total_steps))))))
    || (leb 4 (searches_done s.action_history)
        && (s.progress_checklist physical_boundary_verified && s.progress_checklist zoning_checked))

abbrev is_running : AgentState → Bool
is_running running = true
is_running _ = false

unfoldable pub no_decision : AgentConfig → M (Unit {0})
no_decision c =
    update (λ s. record s { retry_count = s.retry_count + 1 })
    >> (get >>= (λ s.
        if leb c.max_retries s.retry_count
        then set_status failed >> remember retries_failed
        else skip))
    >> save
    >> (get >>= (λ s. finish s.status (if is_running s.status then 2 else 0)))

abbrev is_alarming : Text → Bool
is_alarming t = contains (codes "discrepancy") (lower t) || contains (codes "fraud") (lower t)

unfoldable pub follow : AgentConfig → Env → AgentDecision → M (Unit {0})
unfolding execute sync push
follow c e d =
    update (λ s. record s {
      last_thought = some d.thought_process;
      memory = s.memory ++ thought d.thought_process ∷ [];
    })
    >> sync (record nothing { status = some running })
    >> push (is_alarming d.thought_process && e.has_owner) "Alert: Possible Discrepancy"
    >> execute e d.next_tool d.tool_input
    >> update (λ s. record s { retry_count = 0 })
    >> save
    >> (get >>= (λ s.
        finish s.status
          (if d.requires_sleep then d.sleep_duration_minutes * 60 else c.step_delay_seconds)))

-- Phases 2 to 6.
unfoldable pub decide_and_act : AgentConfig → Env → M (Unit {0})
unfolding generate_decision no_decision follow
decide_and_act c e = get >>= (λ s.
    generate_decision c e (should_conclude s) >>= (λ o. if_some o (follow c e) (no_decision c)))

-- What the `try` holds.
unfoldable pub attempt_step : AgentConfig → Env → M (Unit {0})
unfolding image_phase title_phase boundary_phase records_phase decide_and_act
attempt_step c e =
    image_phase c e
    >> (get >>= (λ s.
        let context = e.context s.memory in
        title_phase e context
        >> boundary_phase e context
        >> records_phase e context
        >> decide_and_act c e))

-- The handler of SourceDocumentAccessError.
unfoldable pub on_access_error : Text → M (Unit {0})
unfolding sync
on_access_error t =
    set_status failed
    >> remember (access_error t)
    >> sync (record nothing { status = some failed })
    >> save
    >> finish_now

-- The handler of the other exceptions. The time before the text is left out.
unfoldable pub on_error : AgentConfig → Text → M (Unit {0})
unfolding sync
on_error c t =
    update (λ s. record s {
      error_history = s.error_history ++ take 200 t ∷ [];
      retry_count = s.retry_count + 1;
    })
    >> (get >>= (λ s.
        if ltb c.max_retries s.retry_count
        then set_status failed
          >> remember (errors_failed s.retry_count)
          >> sync (record nothing { status = some failed })
        else skip))
    >> save
    >> (get >>= (λ s. finish s.status 5))

-- The `try` with its handlers.
unfoldable pub guarded_step : AgentConfig → Env → M (Unit {0})
unfolding attempt_step on_access_error on_error attempt
guarded_step c e = attempt on_access_error (on_error c) (attempt_step c e)

-- The tests before the `try`.
unfoldable pub dispatch : AgentConfig → Env → M (Unit {0})
unfolding spend_budget give_up guarded_step
dispatch c e = get >>= (λ s.
    if leb max_steps s.total_steps
    then spend_budget
    else (if has_ended s.status
        then finish_now
        else (if leb c.empty_response_max_retries s.empty_response_count
            then give_up
            else guarded_step c e)))

-- `load_state`: what `MarathonState(**data)` raises. A session without a document starts as
-- `new_state`, and where `last_update` is missing it has its default.
unfoldable pub load_error : Env → Stamp → Option Text
load_error e missing = none
load_error e (seconds n) = e.float_error (seconds n)
load_error e server_timestamp = e.float_error server_timestamp

-- The state that is loaded, with its step counted.
abbrev pub loaded : MarathonState → MarathonState
loaded doc = record doc { total_steps = doc.total_steps + 1 }

-- The state is loaded in front of the `try`: an exception leaves the step.
unfoldable pub step_on : AgentConfig → Env → World → Option Text → Exit (Unit {0}) × World
unfolding dispatch
step_on c e w none = (start >> dispatch c e) (record w { state = loaded w.doc })
step_on c e w (some t) = (raised t, w)

-- `run_single_step`: what it returns stands in the exit.
unfoldable pub run_single_step : AgentConfig → Env → M (Unit {0})
unfolding step_on load_error
run_single_step c e w = step_on c e w (load_error e w.last_update)

-- One step after another, each in surroundings of its own.
unfoldable pub run_steps : AgentConfig → List Env → World → World
unfolding run_single_step
run_steps c [] w = w
run_steps c (e ∷ es) w = run_steps c es (run_single_step c e w).1
