-- ===== src/Agent/Decide.antt =====
-- backend/agent/marathon_loop.py: `generate_decision`, and the conclusion of an audit.
use title_trust.Prelude.{
  ℕ, suc, ◌+◌, ◌==◌, Bool, true, false, ◌&&◌, ◌||◌, String, Option, none, some, List, [], ◌∷◌, ◌++◌,
  ltb, leb, if◌then◌else◌,
}
use title_trust.Text.{Text, codes, contains, lower}
use title_trust.Agent.{
  MarathonState, Finding, Severity, high, medium, low, legal_dispute_detected,
  conversion_status_unverified, title_searched, physical_boundary_verified,
  additional_records_checked, zoning_checked, historical_chain_checked, Tool, finish_audit,
  wait_user, Action, AgentDecision, AgentConfig,
}
use title_trust.Agent.Monad.{M, ◌>>=◌, ◌>>◌, pure, update, get}
use title_trust.Agent.Checks.{has_verified_check, same_tool, last}
use title_trust.Agent.Tools.{Env, ModelAnswer, parsed, unparsed, model_raised}

-- A finding with no severity counts as low.
abbrev order_of : Option Severity → ℕ
order_of none = 2
order_of (some high) = 0
order_of (some medium) = 1
order_of (some low) = 2

abbrev insert : Finding → List Finding → List Finding
insert f [] = f ∷ []
insert f (g ∷ l) =
    let rest = insert f l in
    if leb (order_of f.severity) (order_of g.severity) then f ∷ g ∷ l else g ∷ rest

-- `sorted(state.findings, key=…)`, which keeps the order of equals.
sort_findings : List Finding → List Finding
sort_findings [] = []
sort_findings (f ∷ l) = insert f (sort_findings l)

-- The first finding that satisfies a test, with its place: `is not` tells places apart.
abbrev find_from : ℕ → (Finding → Bool) → List Finding → Option (ℕ × Finding)
find_from n p [] = none
find_from n p (f ∷ l) = let rest = find_from (suc n) p l in if p f then some (n, f) else rest

abbrev is_encroachment : Finding → Bool
is_encroachment f =
    contains (codes "encroach") (lower f.description)
    || contains (codes "encroach") (lower f.evidence)

abbrev is_conversion : Finding → Bool
is_conversion f = elim f.risk_code [
  | none ↦ false
  | some legal_dispute_detected ↦ false
  | some conversion_status_unverified ↦ true
]

abbrev first_of : List Finding → Option (ℕ × Finding)
first_of [] = none
first_of (f ∷ l) = some (0, f)

abbrev or_else {ℓ} : {A : Type ℓ} → Option A → Option A → Option A
or_else none b = b
or_else (some a) b = some a

abbrev additional_risk : ℕ → Option (ℕ × Finding) → Text
additional_risk lead none = []
additional_risk lead (some (n, f)) =
    if n == lead
    then []
    else codes " Additional risk: " ++ (f.description ++ (codes " Evidence: " ++ f.evidence))

-- `_compose_final_conclusion`
unfoldable pub compose_final_conclusion : MarathonState → Text → Text
unfolding sort_findings
compose_final_conclusion s model_summary =
    let findings = sort_findings s.findings in
    elim (or_else (find_from 0 is_encroachment findings) (first_of findings)) [
      | none ↦ model_summary
      | some (n, f) ↦
          codes "Primary risk: "
          ++ (f.description
              ++ (codes " Evidence: "
                  ++ (f.evidence
                      ++ (additional_risk n (find_from 0 is_conversion findings)
                          ++ (codes " Supporting synthesis: " ++ model_summary)))))
    ]

-- The checks without which an audit is not concluded by force.
unfoldable pub mandatory_checks_complete : MarathonState → Bool
mandatory_checks_complete s =
    has_verified_check title_searched s
    && (has_verified_check physical_boundary_verified s
        && (has_verified_check additional_records_checked s
            && (has_verified_check zoning_checked s
                && has_verified_check historical_chain_checked s)))

-- `len(set(tools_used)) == 1` of the last three tools.
abbrev same_tools : List Action → Bool
same_tools (a ∷ b ∷ c ∷ []) = same_tool b.tool a.tool && same_tool c.tool a.tool
same_tools _ = false

-- The test for a loop. Of fewer than three actions the last three are fewer.
is_stuck : MarathonState → Bool
is_stuck s = same_tools (last 3 s.action_history)

abbrev forced : Tool → String → String → AgentDecision
forced tool why input = record {
  thought_process = codes why;
  next_tool = tool;
  tool_input = codes input;
  requires_sleep = false;
  sleep_duration_minutes = 0;
}

unfoldable pub forced_decision : MarathonState → AgentDecision
forced_decision s =
    if mandatory_checks_complete s
    then forced finish_audit "Auto-completing: Stuck in search loop but have sufficient data"
        "Audit completed with available evidence. (Forced due to repetitive loop)"
    else forced wait_user "Auto-escalating: Stuck without progress"
        "Agent is stuck in a loop - need guidance"

-- What the answer of the model comes to. The event for the screen is left out.
unfoldable pub take_answer : AgentConfig → ModelAnswer → M (Option AgentDecision)
take_answer c (parsed d) = update (λ s. record s { empty_response_count = 0 }) >> pure (some d)
take_answer c unparsed = get >>= (λ s.
    if ltb s.empty_response_count c.empty_response_max_retries
    then update (λ s'. record s' { empty_response_count = s'.empty_response_count + 1 })
      >> pure none
    else pure none)
take_answer c model_raised = pure none

-- `generate_decision`; `concluding` says which prompt is used.
unfoldable pub generate_decision : AgentConfig → Env → Bool → M (Option AgentDecision)
unfolding is_stuck take_answer
generate_decision c e concluding = get >>= (λ s.
    if is_stuck s then pure (some (forced_decision s)) else take_answer c (e.model concluding s))
