-- ===== src/Agent/Invariant.antt =====
-- What each part of `run_single_step` before the decision keeps, for every frame. The tools, the step
-- and the records (step 5), which alone register the chain of owners, are in the modules below.
pub mod Tools
pub mod Records
pub mod Step
use title_trust.Prelude.{
  ℕ, ◌≡◌, refl, sym, ◌∙◌, ap, Bool, true, false, ◌&&◌, not, Option, none, some, List, [], ◌∷◌, ◌++◌,
  ◌⊎◌, inl, inr,
}
use title_trust.Text.{Text}
use title_trust.Agent.{
  MarathonState, AgentConfig, AgentState, AgentDecision, Finding, Check, image_analyzed,
  title_searched, physical_boundary_verified, historical_chain_checked, location_checked, Artifact,
  Tool, analyze_image, google_search, inspect_satellite, finish_audit, wait_user, escalate_error,
  other_tool,
}
use title_trust.Agent.Monad.{
  M, World, Exit, ok, reply, access_denied, raised, ◌>>=◌, ◌>>◌, get, update, save, finish,
}
use title_trust.Agent.Checks.{registered, register_evidence, mark, add_action, is_valid, same_check}
use title_trust.Agent.Tools.{
  Env, Context, Result, take_vision, Inspection, VisionAnswer, answered, not_found,
  permission_denied, unavailable, vision_error, present, ModelAnswer, parsed, unparsed,
  model_raised,
}
use title_trust.Agent.Tools.{analyze_image as ask_vision}
use title_trust.Agent.Records.{record_finding}
use title_trust.Agent.Decide.{take_answer, generate_decision}
use title_trust.Agent.Phases.{
  take_analysis, analyze_document, image_phase, title_phase, enter_waiting_for_manual_pin,
  flag_session, take_inspection, inspect_boundary, boundary_step, boundary_phase, answer_records,
  records_phase,
}
use title_trust.Agent.Execute.{
  reanalyze, run_search, search_anew, skip_duplicate, note_inspection, inspect_at, try_inspection,
  finish_with, execute,
}
use title_trust.Agent.Closed.{
  Frame, Keeps, Saved, Keeps-update, Keeps-register, Saved-Keeps, Keeps-quiet, keeps_rules,
}

module _ {P Q : MarathonState → Type 0} (fr : Frame P Q) where
  pub Keeps-register_other :
      (c : Check) (a : Artifact)
      → same_check c historical_chain_checked ≡ false
      → Keeps P Q (register_evidence c a)
  Keeps-register_other c a h = Keeps-register c a (λ s v p. fr.register c a s h v p)

  Keeps-mark_image : Keeps P Q (update (mark image_analyzed false))
  Keeps-mark_image = Keeps-update _ fr.mark_image

  pub Keeps-mark_location : Keeps P Q (update (mark location_checked true))
  Keeps-mark_location = Keeps-update _ fr.mark_location

  pub Keeps-record_finding : (f : Finding) → Keeps P Q (record_finding f)
  unfolding record_finding
  Keeps-record_finding f = search keeps_rules

  pub Keeps-add_action : (t : Tool) (h : Text) → Keeps P Q (update (add_action t h))
  unfolding add_action
  Keeps-add_action t h = search keeps_rules

  Keeps-take_vision : (e : Env) (uri : Text) (v : VisionAnswer) → Keeps P Q (take_vision e uri v)
  unfolding take_vision
  Keeps-take_vision e uri (answered t) = search keeps_rules
  Keeps-take_vision e uri not_found = search keeps_rules
  Keeps-take_vision e uri permission_denied = search keeps_rules
  Keeps-take_vision e uri unavailable = search keeps_rules
  Keeps-take_vision e uri (vision_error t) = search keeps_rules

  pub Keeps-ask_vision : (e : Env) (uri : Text) → Keeps P Q (ask_vision e uri)
  unfolding ask_vision
  Keeps-ask_vision e uri = Keeps-take_vision e uri (e.vision uri)

  Keeps-take_analysis : (r : Result × Bool) → Keeps P Q (take_analysis r)
  unfolding take_analysis
  Keeps-take_analysis (r, true) = search (keeps_rules, Keeps-register_other)
  Keeps-take_analysis (r, false) = search keeps_rules

  Keeps-analyze_document : (e : Env) (uri : Text) → Keeps P Q (analyze_document e uri)
  unfolding analyze_document
  Keeps-analyze_document e uri =
      search (keeps_rules, Keeps-ask_vision, Keeps-take_analysis, Keeps-mark_image) depth 12

  pub Keeps-image_phase : (c : AgentConfig) (e : Env) → Keeps P Q (image_phase c e)
  unfolding image_phase
  Keeps-image_phase c e = search (keeps_rules, Keeps-analyze_document)

  pub Keeps-title_phase : (e : Env) (k : Context) → Keeps P Q (title_phase e k)
  unfolding title_phase
  Keeps-title_phase e k = search keeps_rules

  Keeps-manual_pin : (t : Text) → Keeps P Q (enter_waiting_for_manual_pin t)
  unfolding enter_waiting_for_manual_pin
  Keeps-manual_pin t = search keeps_rules depth 8

  pub Keeps-flag_session : (t : Text) → Keeps P Q (flag_session t)
  unfolding flag_session
  Keeps-flag_session t = search (keeps_rules, Keeps-record_finding) depth 10

  Saved-flag_session : (t : Text) → Saved P Q (flag_session t)
  Saved-flag_session t = Saved-Keeps _ fr (Keeps-flag_session t)

  Keeps-take_inspection : (i : Inspection) → Keeps P Q (take_inspection i)
  unfolding take_inspection
  Keeps-take_inspection i = search (keeps_rules, Keeps-register_other, Saved-flag_session) depth 8

  Keeps-boundary_step : (e : Env) (k : Context) → Keeps P Q (boundary_step e k)
  unfolding boundary_step inspect_boundary
  Keeps-boundary_step e k =
      search (keeps_rules, Keeps-manual_pin, Keeps-mark_location, Keeps-take_inspection) depth 12

  pub Keeps-boundary_phase : (e : Env) (k : Context) → Keeps P Q (boundary_phase e k)
  unfolding boundary_phase
  Keeps-boundary_phase e k = search (keeps_rules, Keeps-boundary_step)

  pub Saved-answer_records : (o : Option (AgentState × ℕ)) → Saved P Q (answer_records o)
  unfolding answer_records
  Saved-answer_records none = search keeps_rules
  Saved-answer_records (some (s, n)) = search keeps_rules
