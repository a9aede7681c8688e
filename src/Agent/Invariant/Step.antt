-- ===== src/Agent/Invariant/Step.antt =====
-- What a whole step keeps, for every frame whose records keep it, from a document on which it acts.
use title_trust.Prelude.{◌≡◌, refl, Bool, true, false, Option, none, some, if◌then◌else◌, leb, ◌+◌}
use title_trust.Text.{Text}
use title_trust.Agent.{MarathonState, AgentConfig, running, AgentDecision}
use title_trust.Agent.Monad.{World, server_timestamp, ◌>>=◌, ◌>>◌, get, update, save}
use title_trust.Agent.Tools.{Env, Context}
use title_trust.Agent.Phases.{records_phase}
use title_trust.Agent.Closed.{Frame, Keeps, keeps_rules}
use title_trust.Agent.Invariant.{Keeps-image_phase, Keeps-title_phase, Keeps-boundary_phase}
use title_trust.Agent.Invariant.Tools.{Keeps-execute, Keeps-generate_decision}
use title_trust.Agent.Monad.{set_status, skip, pass_on}
use title_trust.Agent.Step.{
  auto_conclude, stop_for_user, spend_budget, give_up, no_decision, follow, decide_and_act, start,
  attempt_step, on_access_error, on_error, guarded_step, dispatch, step_on, load_error,
  run_single_step, has_ended, max_steps, loaded,
}
use title_trust.Agent.Closed.{After, After-if, Saved-finish_now}

module _ {P Q : MarathonState → Type 0} (fr : Frame P Q) where
  Keeps-spend_budget : Keeps P Q spend_budget
  unfolding spend_budget auto_conclude stop_for_user
  Keeps-spend_budget = search keeps_rules depth 14

  Keeps-give_up : Keeps P Q give_up
  unfolding give_up
  Keeps-give_up = search keeps_rules depth 12

  Keeps-no_decision : (c : AgentConfig) → Keeps P Q (no_decision c)
  unfolding no_decision
  Keeps-no_decision c = search keeps_rules depth 12

  Keeps-follow : (c : AgentConfig) (e : Env) (d : AgentDecision) → Keeps P Q (follow c e d)
  unfolding follow
  Keeps-follow c e d = search (keeps_rules, Keeps-execute) depth 14

  Keeps-decide_and_act : (c : AgentConfig) (e : Env) → Keeps P Q (decide_and_act c e)
  unfolding decide_and_act
  Keeps-decide_and_act c e =
      search (keeps_rules, Keeps-generate_decision, Keeps-no_decision, Keeps-follow)

  Keeps-on_access_error : (t : Text) → Keeps P Q (on_access_error t)
  unfolding on_access_error
  Keeps-on_access_error t = search keeps_rules depth 12

  Keeps-on_error : (c : AgentConfig) (t : Text) → Keeps P Q (on_error c t)
  unfolding on_error
  Keeps-on_error c t = search keeps_rules depth 14

  module _ (records : (e : Env) (k : Context) → Keeps P Q (records_phase e k)) where
    Keeps-attempt_step : (c : AgentConfig) (e : Env) → Keeps P Q (attempt_step c e)
    unfolding attempt_step
    Keeps-attempt_step c e =
        search
          (
            keeps_rules, records, Keeps-image_phase, Keeps-title_phase, Keeps-boundary_phase,
            Keeps-decide_and_act,
          )
          depth 10

    Keeps-guarded_step : (c : AgentConfig) (e : Env) → Keeps P Q (guarded_step c e)
    unfolding guarded_step
    Keeps-guarded_step c e =
        search (keeps_rules, Keeps-attempt_step, Keeps-on_access_error, Keeps-on_error)

    -- A step on a document that it may change; where it has ended, the document is taken to have `P`.
    After-dispatch :
        (c : AgentConfig) (e : Env) (w : World)
        → P w.state
        → Q w.doc
        → (leb max_steps w.state.total_steps ≡ false → has_ended w.state.status ≡ true → P w.doc)
        → After P Q (dispatch c e w)
    unfolding dispatch ◌>>=◌ get pass_on
    After-dispatch c e w p q h =
        After-if P Q _ _ _ w (λ _. Keeps-spend_budget.at w p q)
          (λ small.
            After-if P Q _ _ _ w (λ ended. (Saved-finish_now fr).at w p (h small ended))
              (λ _.
                After-if P Q (leb c.empty_response_max_retries w.state.empty_response_count) give_up
                  (guarded_step c e) w (λ _. Keeps-give_up.at w p q)
                  (λ _. (Keeps-guarded_step c e).at w p q)))

    After-start :
        (c : AgentConfig) (e : Env) (w : World) (b : Bool)
        → P w.state
        → Q w.doc
        → (leb max_steps w.state.total_steps ≡ false → has_ended w.state.status ≡ true → P w.doc)
        → After P Q (((if b then set_status running >> save else skip) >> dispatch c e) w)
    unfolding ◌>>=◌ pass_on set_status update save skip
    After-start c e w true p q h =
        let s = record w.state { status = running } in
        let p' = fr.reads.at w.state s refl refl refl p in
        After-dispatch c e (record w { state = s; doc = s; last_update = server_timestamp }) p'
          (fr.widen s p') (λ _ _. p')
    After-start c e w false p q h = After-dispatch c e w p q h

    doc-step_on :
        (c : AgentConfig) (e : Env) (w : World) (o : Option Text)
        → P (loaded w.doc)
        → Q w.doc
        → (leb max_steps (w.doc.total_steps + 1) ≡ false → has_ended w.doc.status ≡ true → P w.doc)
        → Q (step_on c e w o).1.doc
    unfolding step_on start ◌>>=◌ get pass_on After
    doc-step_on c e w none p q h = (After-start c e (record w { state = loaded w.doc }) _ p q h).1
    doc-step_on c e w (some t) p q h = q

    -- Also where the document does not load, and stays as it is.
    pub doc-run_single_step :
        (c : AgentConfig) (e : Env) (w : World)
        → P (loaded w.doc)
        → Q w.doc
        → (leb max_steps (w.doc.total_steps + 1) ≡ false → has_ended w.doc.status ≡ true → P w.doc)
        → Q (run_single_step c e w).1.doc
    unfolding run_single_step
    doc-run_single_step c e w p q h = doc-step_on c e w (load_error e w.last_update) p q h
