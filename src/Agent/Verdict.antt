-- ===== src/Agent/Verdict.antt =====
-- backend/agent/marathon_loop.py: what a decision to finish the audit stores.
use title_trust.Prelude.{
  ◌≡◌, ◌≢◌, refl, sym, ap, ◌∙◌, Bool-cases, Option, ◌⊎◌, inl, inr, Bool, true, false, some, none,
  List, [], ◌∷◌, any, All, Any, arith,
}
use mathlib.Core.Bool.{true≢false}
use title_trust.Agent.{
  AgentState, idle, running, sleeping, completed, flagged, failed, waiting_for_user, queued,
  AgentConfig, MarathonState, AgentDecision, finish_audit, Finding, Severity, high, medium, low,
}
use title_trust.Agent.Monad.{
  World, pass_on, ◌>>=◌, get, update, remember, set_status, save, finish, sync, push,
}
use title_trust.Agent.Tools.{Env}
use title_trust.Agent.Execute.{
  execute, finish_with, verdict_status, is_flagged, is_high_severity, is_high_finding,
}
use title_trust.Agent.Step.{follow}

abbrev pub IsHigh : Finding → Type 0
IsHigh f = f.severity ≡ some high

-- The verdict `x` on a session with a status and findings.
abbrev pub IsVerdict : AgentState → AgentState → List Finding → Type 0
IsVerdict x status findings =
    ((x ≡ flagged) × ((status ≡ flagged) ⊎ Any IsHigh findings))
    ⊎ ((x ≡ completed) × (status ≢ flagged) × All (λ f. ¬ IsHigh f) findings)

is_flagged-flagged : (x : AgentState) → is_flagged x ≡ true → x ≡ flagged
is_flagged-flagged flagged h = refl
is_flagged-flagged idle h = cc
is_flagged-flagged running h = cc
is_flagged-flagged sleeping h = cc
is_flagged-flagged completed h = cc
is_flagged-flagged failed h = cc
is_flagged-flagged waiting_for_user h = cc
is_flagged-flagged queued h = cc

is_high_severity-some : (o : Option Severity) → is_high_severity o ≡ true → o ≡ some high
is_high_severity-some (some high) h = refl
is_high_severity-some (some medium) h = cc
is_high_severity-some (some low) h = cc
is_high_severity-some none h = cc

-- What a test that is false excludes.
excluded : {A : Type 0} (test : A → Bool) (x y : A) → test x ≡ false → test y ≡ true → x ≢ y
excluded test x y fails holds same = true≢false (sym holds ∙ sym (ap test same) ∙ fails)

any-Any : (l : List Finding) → any is_high_finding l ≡ true → Any IsHigh l
any-Any [] h = cc
any-Any (f ∷ l) h = elim (Bool-cases (is_high_finding f)) [
  | inl holds ↦ inl (is_high_severity-some f.severity holds)
  | inr fails ↦ inr (any-Any l (ground (arith, h, fails)))
]

none-All : (l : List Finding) → any is_high_finding l ≡ false → All (λ f. ¬ IsHigh f) l
none-All [] h = tt
none-All (f ∷ l) h = (
  excluded is_high_severity f.severity (some high) (ground (arith, h)) refl,
  none-All l (ground (arith, h)),
)

IsVerdict-verdict_status : (s : MarathonState) → IsVerdict (verdict_status s) s.status s.findings
unfolding verdict_status
IsVerdict-verdict_status s = elim (Bool-cases (is_flagged s.status)) [
  | inl holds ↦ inl (ground (arith, holds), inl (is_flagged-flagged s.status holds))
  | inr fails ↦ elim (Bool-cases (any is_high_finding s.findings)) [
    | inl high_ ↦ inl (ground (arith, fails, high_), inr (any-Any s.findings high_))
    | inr low_ ↦ inr (
      ground (arith, fails, low_),
      excluded is_flagged s.status flagged fails refl,
      none-All s.findings low_,
    )
  ]
]

-- Whatever has been verified, a decision to finish stores FLAGGED if the session is flagged or has a
-- finding of high severity and COMPLETED if neither holds, all of the audit, and the findings that
-- the state has; the finding on the verdict, which is written where there are none, is not among
-- them.
pub follow-finish_audit :
    (c : AgentConfig) (e : Env) (d : AgentDecision) (w : World)
    → let after = (follow c e (record d { next_tool = finish_audit }) w).1 in
      IsVerdict after.doc.status w.state.status w.state.findings
      × (after.doc.findings ≡ w.state.findings)
      × (after.doc.progress_checklist ≡ w.state.progress_checklist)
      × (after.percent_complete ≡ 100)
unfolding follow execute finish_with ◌>>=◌ pass_on get set_status update remember save finish sync
    push verdict_status
follow-finish_audit c e d w = (IsVerdict-verdict_status w.state, refl, refl, refl)
