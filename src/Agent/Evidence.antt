-- ===== src/Agent/Evidence.antt =====
-- backend/agent/marathon_loop.py: no check is in the checklist without evidence for it.
use title_trust.Prelude.{
  ◌≡◌, refl, sym, ◌∙◌, ap, Bool, true, false, Option, some, List, [], ◌∷◌, if◌then◌else◌, arith,
}
use title_trust.Agent.{
  MarathonState, AgentConfig, Check, image_analyzed, location_checked, Artifact,
}
use title_trust.Agent.Monad.{World}
use title_trust.Agent.Checks.{same_check, registered, is_valid, mark}
use title_trust.Agent.Tools.{Env}
use title_trust.Agent.Step.{run_single_step, run_steps}
use title_trust.Agent.Closed.{Reads, Frame}
use title_trust.Agent.Invariant.Records.{Keeps-records_phase}
use title_trust.Agent.Invariant.Step.{doc-run_single_step}

-- An artifact with a valid trace and a valid digest.
IsBacked : Option Artifact → Type 0
IsBacked o = (a : Artifact) × (o ≡ some a) × (is_valid a ≡ true)

-- Every check that is in the checklist has evidence. `location_checked` is set without any.
unfoldable pub HasEvidence : MarathonState → Type 0
unfolding IsBacked
HasEvidence s =
    (c : Check)
    → same_check location_checked c ≡ false
    → s.progress_checklist c ≡ true
    → IsBacked (s.verification_evidence c)

cleared : (b x : Bool) → (if b then false else x) ≡ true → x ≡ true
cleared true x h = ground arith
cleared false x h = h

unset : (b x : Bool) → b ≡ false → (if b then true else x) ≡ true → x ≡ true
unset true x n h = ground arith
unset false x n h = h

IsBacked-by :
    (b x : Bool) (a : Artifact) (o : Option Artifact)
    → is_valid a ≡ true
    → (x ≡ true → IsBacked o)
    → (if b then true else x) ≡ true
    → IsBacked (if b then some a else o)
unfolding IsBacked
IsBacked-by true x a o v k h = (a, refl, v)
IsBacked-by false x a o v k h = k h

HasEvidence-Reads : Reads HasEvidence
unfolding HasEvidence
HasEvidence-Reads = record {
  at = λ s t checks evidence _ has c h k.
      let (a, found, valid) = has c h (ap (λ f. f c) (sym checks) ∙ k) in
      (a, ap (λ f. f c) evidence ∙ found, valid);
}

HasEvidence-mark_image :
    (s : MarathonState) → HasEvidence s → HasEvidence (mark image_analyzed false s)
unfolding HasEvidence mark
HasEvidence-mark_image s has c h k = has c h (cleared (same_check image_analyzed c) _ k)

HasEvidence-mark_location :
    (s : MarathonState) → HasEvidence s → HasEvidence (mark location_checked true s)
unfolding HasEvidence mark
HasEvidence-mark_location s has c h k = has c h (unset (same_check location_checked c) _ h k)

HasEvidence-registered :
    (c : Check) (a : Artifact) (s : MarathonState)
    → is_valid a ≡ true
    → HasEvidence s
    → HasEvidence (registered c a s)
unfolding HasEvidence registered
HasEvidence-registered c a s v has d h k = IsBacked-by (same_check c d) _ a _ v (has d h) k

HasEvidence-Frame : Frame HasEvidence HasEvidence
HasEvidence-Frame = record {
  reads = HasEvidence-Reads;
  reads_doc = HasEvidence-Reads;
  widen = λ s has. has;
  mark_image = HasEvidence-mark_image;
  mark_location = HasEvidence-mark_location;
  register = λ c a s _. HasEvidence-registered c a s;
}

run_single_step-HasEvidence :
    (c : AgentConfig) (e : Env) (w : World)
    → HasEvidence w.doc
    → HasEvidence (run_single_step c e w).1.doc
unfolding HasEvidence
run_single_step-HasEvidence c e w has =
    doc-run_single_step HasEvidence-Frame
      (Keeps-records_phase HasEvidence-Frame HasEvidence-registered) c e w has has (λ _ _. has)

-- Whatever the model, the searches and the inspections answer, and whichever errors they raise, after
-- any number of steps each check of the stored checklist, but the location, has an artifact whose
-- trace and digest are valid, if that held at the start.
pub run_steps-HasEvidence :
    (c : AgentConfig) (es : List Env) (w : World)
    → HasEvidence w.doc
    → HasEvidence (run_steps c es w).doc
unfolding run_steps
run_steps-HasEvidence c [] w has = has
run_steps-HasEvidence c (e ∷ es) w has =
    run_steps-HasEvidence c es (run_single_step c e w).1 (run_single_step-HasEvidence c e w has)
