-- ===== src/Agent/Execute.antt =====
-- backend/agent/marathon_loop.py: phase 4 of `run_single_step`, the tools of a decision.
use title_trust.Prelude.{
  ℕ, ◌-◌, Bool, true, false, ◌&&◌, ◌||◌, Option, none, some, List, [], ◌∷◌, ◌++◌, any, length, leb,
  take, if◌then◌else◌,
}
use title_trust.Text.{Text, codes, decimal}
use title_trust.Agent.Memory.{
  reanalysis, no_image, duplicate_search, moving_on, search_results, search_error, satellite_check,
  boundary_inspection, satellite_error, final_verdict, waiting_for, critical_issue,
}
use title_trust.Agent.{
  AgentState, running, flagged, completed, failed, waiting_for_user, MarathonState, Finding,
  Severity, high, title_searched, physical_boundary_verified, location_checked, Tool, analyze_image,
  google_search, inspect_satellite, finish_audit, wait_user, escalate_error, other_tool,
}
use title_trust.Agent.Monad.{
  M, ◌>>=◌, ◌>>◌, if_some, either, skip, get, update, remember, set_status, save, finish, raise,
  attempt, sync, nothing, push,
}
use title_trust.Agent.Checks.{register_evidence, mark, last, add_action, has_performed_action}
use title_trust.Agent.Tools.{
  Env, Inspection, perform_research, has_provenance, contains_any, present,
}
use title_trust.Agent.Tools.{analyze_image as ask_vision}
use title_trust.Agent.Records.{artifact, search_provider}
use title_trust.Agent.Phases.{flag_session, vision_provider}
use title_trust.Agent.Decide.{compose_final_conclusion}

-- `except Exception as e`, which holds for both kinds.
abbrev except_any : (Text → M (Unit {0})) → M (Unit {0}) → M (Unit {0})
unfolding attempt
except_any handler = attempt handler handler

-- `truncate_memory_item`
unfoldable pub truncate_memory_item : ℕ → Text → Text
truncate_memory_item max_chars item =
    if leb (length item) max_chars
    then item
    else take max_chars item
      ++ (codes "... [truncated " ++ (decimal (length item - max_chars) ++ codes " chars]"))

-- The tool `analyze_image`.
unfoldable pub reanalyze : Env → M (Unit {0})
unfolding ask_vision
reanalyze e = get >>= (λ s.
    if_some (present s.image_uri)
      (λ uri.
        ask_vision e uri
        >>= (λ (r, success). if success then remember (reanalysis r.text) else skip))
      (remember no_image))

abbrev title_words : List Text
title_words = codes "title" ∷ codes "owner" ∷ codes "gazette" ∷ codes "land" ∷ []

-- The `try` of a search that was not made before.
unfoldable pub search_anew : Env → Text → M (Unit {0})
unfolding register_evidence
search_anew e query =
    let (r, success) = perform_research e query in
    (if contains_any query title_words && has_provenance success r
      then register_evidence title_searched (artifact search_provider r.trace_id r.sha256)
      else skip)
    >> remember (search_results query (truncate_memory_item 800 r.text))
    >> update (add_action google_search (e.hash8 query))
    >> save

unfoldable pub skip_duplicate : Text → M (Unit {0})
skip_duplicate query =
    remember (duplicate_search query)
    >> (get >>= (λ s. if s.progress_checklist title_searched then remember moving_on else skip))
    >> save
    >> finish running 1

-- The tool `google_search`.
unfoldable pub run_search : Env → Text → M (Unit {0})
unfolding search_anew skip_duplicate attempt
run_search e query = get >>= (λ s.
    if has_performed_action google_search (e.hash8 query) s
    then skip_duplicate query
    else except_any (λ t. remember (search_error t) >> save) (search_anew e query))

-- What follows an inspection by the tool.
unfoldable pub note_inspection : Inspection → M (Unit {0})
unfolding flag_session register_evidence
note_inspection i =
    remember (boundary_inspection i.result.text)
    >> update (mark location_checked true)
    >> (if has_provenance i.succeeded i.result
        then register_evidence physical_boundary_verified
            (artifact vision_provider i.result.trace_id i.result.sha256)
        else skip)
    >> (if i.is_high then flag_session i.reasoning else skip)

unfoldable pub inspect_at : Env → Text → Text → M (Unit {0})
unfolding note_inspection
inspect_at e lat lng =
    update (λ s. record s { current_lat_lng = some (e.coordinate_text lat lng) })
    >> remember (satellite_check (e.coordinate_text lat lng))
    >> (get >>= (λ s.
        either (e.inspect lat lng (last 8 s.memory) (e.context s.memory).expected_land_use) raise
          note_inspection))

-- The `try` of the tool `inspect_satellite`.
unfoldable pub try_inspection : Env → Text → M (Unit {0})
unfolding inspect_at
try_inspection e input = either (e.coordinates input) raise (λ (lat, lng). inspect_at e lat lng)

abbrev pub is_high_severity : Option Severity → Bool
is_high_severity (some high) = true
is_high_severity _ = false

abbrev pub is_high_finding : Finding → Bool
is_high_finding f = is_high_severity f.severity

abbrev pub is_flagged : AgentState → Bool
is_flagged flagged = true
is_flagged _ = false

unfoldable pub verdict_status : MarathonState → AgentState
verdict_status s =
    if is_flagged s.status || any is_high_finding s.findings then flagged else completed

-- `state.findings or [...]`
unfoldable pub report_findings : Text → List Finding → List Finding
report_findings conclusion [] =
    record {
      category = "Audit Verdict";
      severity = none;
      description = conclusion;
      evidence = codes "See detailed investigation logs for full analysis lineage.";
      risk_code = none;
    }
    ∷ []
report_findings conclusion (f ∷ fs) = f ∷ fs

-- The tool `finish_audit`.
unfoldable pub finish_with : Env → Text → M (Unit {0})
unfolding sync push
finish_with e input = get >>= (λ s.
    let conclusion = compose_final_conclusion s input in
    set_status (verdict_status s)
    >> remember (final_verdict conclusion)
    >> sync (record {
      status = some (verdict_status s);
      percent = some 100;
      findings = report_findings conclusion s.findings;
      conclusion = present (some conclusion);
    })
    >> push e.has_owner "Audit Complete")

unfoldable pub execute : Env → Tool → Text → M (Unit {0})
unfolding reanalyze run_search attempt try_inspection finish_with sync push
execute e analyze_image input = reanalyze e
execute e google_search input = run_search e input
execute e inspect_satellite input =
    except_any (λ t. remember (satellite_error t)) (try_inspection e input)
execute e finish_audit input = finish_with e input
execute e wait_user input =
    set_status waiting_for_user
    >> remember (waiting_for input)
    >> sync (record nothing { status = some waiting_for_user })
execute e escalate_error input =
    set_status failed
    >> remember (critical_issue input)
    >> sync (record nothing { status = some failed })
    >> push e.has_owner "Audit Escalated"
execute e (other_tool name) input = skip
