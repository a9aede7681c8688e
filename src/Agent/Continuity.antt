-- ===== src/Agent/Continuity.antt =====
-- backend/agent/marathon_loop.py: the chain of owners is registered by step 5 alone, which is not run
-- again once the other records are registered.
use title_trust.Prelude.{
  ◌≡◌, refl, ◌∙◌, ap, Bool, true, false, not, ◌&&◌, none, some, List, [], ◌∷◌, if◌then◌else◌, arith,
}
use title_trust.Agent.{
  MarathonState, AgentConfig, Check, image_analyzed, Artifact, additional_records_checked,
  historical_chain_checked, title_searched, physical_boundary_verified, zoning_checked,
}
use title_trust.Agent.Monad.{World, M, skip}
use title_trust.Agent.Checks.{same_check, registered, is_valid, mark, has_verified_check}
use title_trust.Agent.Tools.{Env, Context}
use title_trust.Agent.Decide.{mandatory_checks_complete}
use title_trust.Agent.Phases.{records_phase, is_recorded}
use title_trust.Agent.Step.{run_single_step, run_steps, budget_checks_complete}
use title_trust.Agent.Closed.{Reads, Frame, Keeps, Keeps-get, Keeps-skip}
use title_trust.Agent.Invariant.Step.{doc-run_single_step}

-- The records are registered and the chain of owners is not.
unfoldable pub IsBroken : MarathonState → Type 0
IsBroken s =
    (is_recorded s ≡ true)
    × (s.progress_checklist historical_chain_checked ≡ false)
    × (s.verification_evidence historical_chain_checked ≡ none)

IsBroken-Reads : Reads IsBroken
unfolding IsBroken
IsBroken-Reads = record {
  at = λ s t checks evidence _ (r, h, v). (
    ap (λ f. f additional_records_checked) checks ∙ r,
    ap (λ f. f historical_chain_checked) checks ∙ h,
    ap (λ f. f historical_chain_checked) evidence ∙ v,
  );
}

same_or : (b x : Bool) → x ≡ true → (if b then true else x) ≡ true
same_or true x h = refl
same_or false x h = h

IsBroken-registered :
    (c : Check) (a : Artifact) (s : MarathonState)
    → same_check c historical_chain_checked ≡ false
    → is_valid a ≡ true
    → IsBroken s
    → IsBroken (registered c a s)
unfolding IsBroken registered
IsBroken-registered c a s other valid (r, h, v) = (
  same_or (same_check c additional_records_checked) _ r,
  ap (λ b. if b then true else s.progress_checklist historical_chain_checked) other ∙ h,
  ap (λ b. if b then some a else s.verification_evidence historical_chain_checked) other ∙ v,
)

IsBroken-Frame : Frame IsBroken IsBroken
unfolding IsBroken mark
IsBroken-Frame = record {
  reads = IsBroken-Reads;
  reads_doc = IsBroken-Reads;
  widen = λ s b. b;
  mark_image = λ s b. b;
  mark_location = λ s b. b;
  register = IsBroken-registered;
}

skip_if :
    (b r : Bool) (m : M (Unit {0}))
    → r ≡ true
    → Keeps IsBroken IsBroken (if b && not r then m else skip)
skip_if true true m h = Keeps-skip
skip_if true false m h = ground arith
skip_if false r m h = Keeps-skip

IsBroken-records_phase : (e : Env) (k : Context) → Keeps IsBroken IsBroken (records_phase e k)
unfolding records_phase IsBroken
IsBroken-records_phase e k = Keeps-get _ (λ s (r, _, _). skip_if _ _ _ r)

run_single_step-IsBroken :
    (c : AgentConfig) (e : Env) (w : World)
    → IsBroken w.doc
    → IsBroken (run_single_step c e w).1.doc
unfolding IsBroken
run_single_step-IsBroken c e w b =
    doc-run_single_step IsBroken-Frame IsBroken-records_phase c e w b b (λ _ _. b)

no_artifact :
    (s : MarathonState) → IsBroken s → has_verified_check historical_chain_checked s ≡ false
unfolding IsBroken has_verified_check
no_artifact s (_, _, v) = rw (v, has_verified_check)

run_steps-keeps_IsBroken :
    (c : AgentConfig) (es : List Env) (w : World) → IsBroken w.doc → IsBroken (run_steps c es w).doc
unfolding run_steps
run_steps-keeps_IsBroken c [] w b = b
run_steps-keeps_IsBroken c (e ∷ es) w b =
    run_steps-keeps_IsBroken c es (run_single_step c e w).1 (run_single_step-IsBroken c e w b)

last_false : (a b c d x : Bool) → x ≡ false → (a && (b && (c && (d && x)))) ≡ false
last_false a b c d x h = ground arith

incomplete :
    (s : MarathonState)
    → IsBroken s
    → (budget_checks_complete s ≡ false) × (mandatory_checks_complete s ≡ false)
unfolding budget_checks_complete mandatory_checks_complete
incomplete s b =
    let image = has_verified_check image_analyzed s in
    let title = has_verified_check title_searched s in
    let boundary = has_verified_check physical_boundary_verified s in
    let records = has_verified_check additional_records_checked s in
    let zoning = has_verified_check zoning_checked s in
    let n = no_artifact s b in
    (last_false image boundary records zoning _ n, last_false title boundary records zoning _ n)

-- Once the records are registered and the chain of owners is not, no number of steps, whatever the
-- model and the searches answer, registers the chain of owners; so neither of the two lists of
-- mandatory checks is ever complete.
pub run_steps-IsBroken :
    (c : AgentConfig) (es : List Env) (w : World)
    → IsBroken w.doc
    → IsBroken (run_steps c es w).doc
      × (budget_checks_complete (run_steps c es w).doc ≡ false)
      × (mandatory_checks_complete (run_steps c es w).doc ≡ false)
run_steps-IsBroken c es w b =
    let after = run_steps-keeps_IsBroken c es w b in
    let (budget, mandatory) = incomplete _ after in (after, budget, mandatory)
