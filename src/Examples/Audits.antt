-- ===== src/Examples/Audits.antt =====
-- An audit whose last query, on the chain of owners, fails after the other records are registered.
use title_trust.Prelude.{
  ◌≡◌, refl, arith, inl, inr, true, false, some, none, Option, [], ◌∷◌, ◌++◌, if◌then◌else◌,
}
use title_trust.Text.{Text, codes, contains}
use title_trust.Agent.{
  additional_records_checked, MarathonState, running, default_config, new_state, AgentDecision,
  finish_audit, Finding, high,
}
use title_trust.Agent.Checks.{same_check}
use title_trust.Agent.Monad.{World, Stamp, missing, seconds, server_timestamp}
use title_trust.Agent.Tools.{
  Env, Context, Inspection, answered, found, search_raised, SearchAnswer, parsed,
}
use title_trust.Agent.Step.{run_steps, follow, budget_checks_complete}
use title_trust.Agent.Decide.{mandatory_checks_complete}
use title_trust.Agent.Evidence.{HasEvidence, run_steps-HasEvidence}
use title_trust.Agent.Continuity.{IsBroken, run_steps-IsBroken}
use title_trust.Agent.Verdict.{IsVerdict, follow-finish_audit}

abbrev pub digest : Text
digest = codes "0123456789abcdef0123456789abcdef0123456789abcdef0123456789abcdef"

abbrev pub context : Context
context = record {
  title_number = some (codes "KISUMU/KASULE/8781");
  owner_name = none;
  county = none;
  lat = some (codes "-1.2");
  lng = some (codes "36.8");
  coordinate_error = none;
  expected_land_use = none;
}

-- The inspection finds nothing wrong.
abbrev pub inspection : Inspection
inspection = record {
  succeeded = true;
  result = record { text = codes "clear"; trace_id = codes "vision-0123"; sha256 = digest };
  is_high = false;
  reasoning = [];
}

abbrev give_in : AgentDecision
give_in = record {
  thought_process = codes "Done";
  next_tool = finish_audit;
  tool_input = codes "Looks fine";
  requires_sleep = false;
  sleep_duration_minutes = 0;
}

-- The query on the chain of owners is the one that fails.
abbrev pub answer : Text → SearchAnswer
answer query =
    if contains (codes "previous owner chain") query
    then search_raised (codes "timeout")
    else found (some (codes "listed"))

-- A number is taken for a float, and a datetime is not.
abbrev pub needs_number : Stamp → Option Text
needs_number missing = none
needs_number (seconds n) = none
needs_number server_timestamp = some (codes "Input should be a valid number")

abbrev pub env : Env
env = record {
  float_error = needs_number;
  has_owner = true;
  hash8 = λ t. t;
  hash_payload = λ ts. digest;
  hex12 = λ t. codes "0123456789ab";
  vision = λ uri. answered (codes "deed");
  search = answer;
  inspect = λ lat lng notes use_. inr inspection;
  context = λ notes. context;
  validation = λ t. codes "VALID_FORMAT";
  coordinates = λ t. inl (codes "none");
  coordinate_text = λ lat lng. lat ++ lng;
  model = λ concluding s. parsed give_in;
}

abbrev world : MarathonState → World
world doc = record {
  state = doc;
  doc = doc;
  last_update = missing;
  audit_conclusion = none;
  percent_complete = 0;
  pushed = [];
}

abbrev fresh : World
fresh = world (new_state (some (codes "gs://deeds/1.pdf")))

fresh-HasEvidence : HasEvidence fresh.doc
unfolding HasEvidence
fresh-HasEvidence c h k = ground arith

run_steps-HasEvidence_example :
    HasEvidence (run_steps default_config (env ∷ env ∷ env ∷ []) fresh).doc
run_steps-HasEvidence_example =
    run_steps-HasEvidence default_config (env ∷ env ∷ env ∷ []) fresh fresh-HasEvidence

-- A session whose records are registered and whose chain of owners is not, with a document that loads.
abbrev unchained : World
unchained = world (record (new_state none) {
  status = running;
  total_steps = 3;
  verification_evidence = λ c.
      if same_check c additional_records_checked
      then some (record {
        provider = "gemini_google_search";
        trace_id = codes "search-0123";
        sha256 = digest;
      })
      else none;
  progress_checklist = λ c. same_check c additional_records_checked;
})

unchained-IsBroken : IsBroken unchained.doc
unfolding IsBroken
unchained-IsBroken = (refl, refl, refl)

run_steps-IsBroken_example :
    IsBroken (run_steps default_config (env ∷ env ∷ []) unchained).doc
    × (budget_checks_complete (run_steps default_config (env ∷ env ∷ []) unchained).doc ≡ false)
    × (mandatory_checks_complete (run_steps default_config (env ∷ env ∷ []) unchained).doc ≡ false)
run_steps-IsBroken_example =
    run_steps-IsBroken default_config (env ∷ env ∷ []) unchained unchained-IsBroken

abbrev risk : Finding
risk = record {
  category = "Physical Boundary Verification";
  severity = some high;
  description = codes "The neighbour's fence stands on the parcel";
  evidence = codes "satellite";
  risk_code = none;
}

follow-finish_audit_example :
    let after = (follow default_config env (record give_in { next_tool = finish_audit }) fresh).1 in
    IsVerdict after.doc.status fresh.state.status fresh.state.findings
    × (after.doc.findings ≡ fresh.state.findings)
    × (after.doc.progress_checklist ≡ fresh.state.progress_checklist)
    × (after.percent_complete ≡ 100)
follow-finish_audit_example = follow-finish_audit default_config env give_in fresh
