-- ===== src/Agent/Phases.antt =====
-- backend/agent/marathon_loop.py: the parts of `run_single_step` before the decision: the first
-- analysis of the document, the boundary (step 4) and the records (step 5). Each part makes the step
-- return, or goes on where its condition does not hold.
use title_trust.Prelude.{
  ℕ, Bool, true, false, ◌&&◌, not, String, Option, none, some, ◌++◌, if◌then◌else◌,
}
use title_trust.Text.{Text, codes}
use title_trust.Agent.Memory.{
  image_analysis, image_without_provenance, image_failed, title_validation, manual_pin, boundary,
  boundary_without_provenance, high_flag, has_analysis,
}
use title_trust.Agent.{
  AgentState, running, flagged, waiting_for_user, MarathonState, high, image_analyzed,
  physical_boundary_verified, additional_records_checked, location_checked, AgentConfig,
}
use title_trust.Agent.Monad.{
  M, ◌>>=◌, ◌>>◌, if_some, either, skip, get, update, remember, set_status, save, finish,
  finish_now, raise, sync, nothing,
}
use title_trust.Agent.Checks.{register_evidence, mark, last}
use title_trust.Agent.Tools.{
  Env, Context, Result, Inspection, analyze_image, has_provenance, present,
}
use title_trust.Agent.Records.{record_finding, artifact, run_step5_record_checks}

abbrev pub is_recorded : MarathonState → Bool
is_recorded s = s.progress_checklist additional_records_checked

abbrev pub vision_provider : String
vision_provider = "gemini_vision"

-- What is done with the result of the first analysis.
unfoldable pub take_analysis : Result × Bool → M (Unit {0})
unfolding register_evidence
take_analysis (r, true) =
    remember (image_analysis r.text)
    >> (if has_provenance true r
        then register_evidence image_analyzed (artifact vision_provider r.trace_id r.sha256)
        else remember image_without_provenance)
take_analysis (r, false) = remember (image_failed r.text)

-- Phase 1, for a document that is there.
unfoldable pub analyze_document : Env → Text → M (Unit {0})
unfolding take_analysis analyze_image sync
analyze_document e uri = do
  sync (record nothing { status = some running })
  (r, success) ← analyze_image e uri
  take_analysis (r, success)
  set_status running
  if success then skip else update (mark image_analyzed false)
  save
  finish running 1

unfoldable pub image_phase : AgentConfig → Env → M (Unit {0})
unfolding analyze_document
image_phase c e = get >>= (λ s.
    if_some (present s.image_uri)
      (λ uri.
        if c.image_analysis_enabled && not (has_analysis s.memory)
        then analyze_document e uri
        else skip)
      skip)

-- The note on the form of the title, where there is one.
unfoldable pub title_phase : Env → Context → M (Unit {0})
title_phase e context =
    if_some (present context.title_number)
      (λ title. remember (title_validation (e.validation title))) skip

-- `_enter_waiting_for_manual_pin`
unfoldable pub enter_waiting_for_manual_pin : Text → M (Unit {0})
unfolding sync
enter_waiting_for_manual_pin reason = do
  set_status waiting_for_user
  remember (manual_pin reason)
  sync (record nothing { status = some waiting_for_user })
  save
  finish_now

abbrev discrepancy : Text
discrepancy =
    codes
      "Physical boundary verification detected a high-severity discrepancy between the deed and observed occupation."

-- `_flag_session`, with the description that both callers give.
unfoldable pub flag_session : Text → M (Unit {0})
unfolding sync
flag_session evidence = do
  set_status flagged
  record_finding (record {
    category = "Physical Boundary Verification";
    severity = some high;
    description = discrepancy;
    evidence = evidence;
    risk_code = none;
  })
  remember (high_flag discrepancy)
  s ← get
  sync (record nothing {
    status = some flagged;
    findings = s.findings;
    conclusion = some discrepancy;
  })
  save
  finish_now

-- The end of step 4, with what the inspection returned.
unfoldable pub take_inspection : Inspection → M (Unit {0})
unfolding flag_session register_evidence
take_inspection i =
    if has_provenance i.succeeded i.result
    then register_evidence physical_boundary_verified
        (artifact vision_provider i.result.trace_id i.result.sha256)
      >> save
      >> (if i.is_high then flag_session i.reasoning else finish running 1)
    else remember boundary_without_provenance >> save >> finish running 1

unfoldable pub inspect_boundary : Env → Context → Text → Text → M (Unit {0})
unfolding take_inspection
inspect_boundary e context lat lng = get >>= (λ s.
    either (e.inspect lat lng (last 8 s.memory) context.expected_land_use) raise (λ i.
      update (λ s'. record s' { current_lat_lng = some (e.coordinate_text lat lng) })
      >> remember (boundary i.result.text)
      >> update (mark location_checked true)
      >> take_inspection i))

abbrev no_coordinates : Text
no_coordinates =
    codes "Step 4 requires coordinates or a RIM reference; none were extracted from the deed."

unfoldable pub boundary_step : Env → Context → M (Unit {0})
unfolding enter_waiting_for_manual_pin inspect_boundary
boundary_step e context =
    if_some (present context.coordinate_error)
      (λ t. enter_waiting_for_manual_pin (codes "Step 4 coordinate parsing failed: " ++ t))
      (if_some (present context.lat)
        (λ lat.
          if_some (present context.lng) (λ lng. inspect_boundary e context lat lng)
            (enter_waiting_for_manual_pin no_coordinates))
        (enter_waiting_for_manual_pin no_coordinates))

unfoldable pub boundary_phase : Env → Context → M (Unit {0})
unfolding boundary_step
boundary_phase e context = get >>= (λ s.
    if s.progress_checklist image_analyzed && not (s.progress_checklist physical_boundary_verified)
    then boundary_step e context
    else skip)

-- What the records return is what the step returns, if they return anything.
unfoldable pub answer_records : Option (AgentState × ℕ) → M (Unit {0})
answer_records none = finish running 1
answer_records (some (s, n)) = finish s n

unfoldable pub records_phase : Env → Context → M (Unit {0})
unfolding run_step5_record_checks answer_records
records_phase e context = get >>= (λ s.
    if s.progress_checklist physical_boundary_verified && not (is_recorded s)
    then run_step5_record_checks e context >>= (λ r. save >> answer_records r)
    else skip)
