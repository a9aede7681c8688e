-- ===== src/Agent/Invariant/Tools.antt =====
-- What the tools of a decision and the asking of the model keep, for every frame.
use title_trust.Prelude.{Bool}
use title_trust.Text.{Text}
use title_trust.Agent.{
  MarathonState, AgentConfig, Tool, analyze_image, google_search, inspect_satellite, finish_audit,
  wait_user, escalate_error, other_tool,
}
use title_trust.Agent.Tools.{Env, Inspection, ModelAnswer, parsed, unparsed, model_raised}
use title_trust.Agent.Decide.{take_answer, generate_decision}
use title_trust.Agent.Execute.{
  reanalyze, run_search, search_anew, skip_duplicate, note_inspection, inspect_at, try_inspection,
  finish_with, execute,
}
use title_trust.Agent.Closed.{Frame, Keeps, keeps_rules}
use title_trust.Agent.Invariant.{
  Keeps-register_other, Keeps-mark_location, Keeps-add_action, Keeps-ask_vision, Keeps-flag_session,
}

module _ {P Q : MarathonState → Type 0} (fr : Frame P Q) where
  Keeps-reanalyze : (e : Env) → Keeps P Q (reanalyze e)
  unfolding reanalyze
  Keeps-reanalyze e = search (keeps_rules, Keeps-ask_vision) depth 8

  Keeps-run_search : (e : Env) (query : Text) → Keeps P Q (run_search e query)
  unfolding run_search search_anew skip_duplicate
  Keeps-run_search e query = search (keeps_rules, Keeps-add_action, Keeps-register_other) depth 12

  Keeps-note_inspection : (i : Inspection) → Keeps P Q (note_inspection i)
  unfolding note_inspection
  Keeps-note_inspection i =
      search (keeps_rules, Keeps-mark_location, Keeps-register_other, Keeps-flag_session) depth 10

  Keeps-try_inspection : (e : Env) (input : Text) → Keeps P Q (try_inspection e input)
  unfolding try_inspection inspect_at
  Keeps-try_inspection e input = search (keeps_rules, Keeps-note_inspection) depth 12

  Keeps-finish_with : (e : Env) (input : Text) → Keeps P Q (finish_with e input)
  unfolding finish_with
  Keeps-finish_with e input = search keeps_rules depth 12

  pub Keeps-execute : (e : Env) (t : Tool) (input : Text) → Keeps P Q (execute e t input)
  unfolding execute
  Keeps-execute e analyze_image input = Keeps-reanalyze e
  Keeps-execute e google_search input = Keeps-run_search e input
  Keeps-execute e inspect_satellite input = search (keeps_rules, Keeps-try_inspection)
  Keeps-execute e finish_audit input = Keeps-finish_with e input
  Keeps-execute e wait_user input = search keeps_rules
  Keeps-execute e escalate_error input = search keeps_rules
  Keeps-execute e (other_tool name) input = search keeps_rules

  Keeps-take_answer : (c : AgentConfig) (a : ModelAnswer) → Keeps P Q (take_answer c a)
  unfolding take_answer
  Keeps-take_answer c (parsed d) = search keeps_rules
  Keeps-take_answer c unparsed = search keeps_rules
  Keeps-take_answer c model_raised = search keeps_rules

  pub Keeps-generate_decision :
      (c : AgentConfig) (e : Env) (b : Bool) → Keeps P Q (generate_decision c e b)
  unfolding generate_decision
  Keeps-generate_decision c e b = search (keeps_rules, Keeps-take_answer)
