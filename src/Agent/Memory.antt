-- ===== src/Agent/Memory.antt =====
-- The entries of an audit's `memory`. Each constructor is one message of the code with the parts
-- that it fills in; `text_of` is the message without its leading symbol.
use title_trust.Prelude.{ℕ, Bool, List, ◌∷◌, ◌++◌, any}
use title_trust.Text.{Text, codes, contains, decimal}

pub data Note : Type 0 where
  received_object : Text → Note
  image_analysis : Text → Note
  image_without_provenance : Note
  image_failed : Text → Note
  title_validation : Text → Note
  manual_pin : Text → Note
  boundary : Text → Note
  boundary_without_provenance : Note
  query_failed : Text → Note
  additional_records : Text → Note
  continuity_failed : Text → Note
  continuity_trace : Text → Note
  legal_dispute : Note
  high_flag : Text → Note
  auto_concluded : Text → Note
  budget_exhausted : Text → Note
  needs_clarification : Note
  thought : Text → Note
  reanalysis : Text → Note
  no_image : Note
  duplicate_search : Text → Note
  moving_on : Note
  search_results : Text → Text → Note
  search_error : Text → Note
  satellite_check : Text → Note
  boundary_inspection : Text → Note
  satellite_error : Text → Note
  final_verdict : Text → Note
  waiting_for : Text → Note
  critical_issue : Text → Note
  retries_failed : Note
  access_error : Text → Note
  errors_failed : ℕ → Note

unfoldable pub text_of : Note → Text
text_of (received_object t) = codes "Received initial object: " ++ t
text_of (image_analysis t) = codes "Image Analysis: " ++ t
text_of image_without_provenance =
    codes "Image analysis lacked provenance and could not mark the step complete."
text_of (image_failed t) = codes "Image Analysis Failed: " ++ t
text_of (title_validation t) = codes "Title Syntax Validation: " ++ t
text_of (manual_pin t) =
    codes
      "A manual parcel location pin is required before physical boundary verification can continue. "
    ++ t
text_of (boundary t) = codes "Step 4 Boundary Verification: " ++ t
text_of boundary_without_provenance =
    codes "Step 4 boundary verification did not return valid provenance."
text_of (query_failed t) = codes "Step 5 query failed without verifiable evidence: " ++ t
text_of (additional_records t) = codes "Step 5 Additional Records:" ++ (10 ∷ t)
text_of (continuity_failed t) =
    codes "Historical continuity verification failed without evidence: " ++ t
text_of (continuity_trace t) = codes "Historical Continuity Trace:" ++ (10 ∷ t)
text_of legal_dispute =
    codes "LEGAL_DISPUTE_DETECTED: Gazette or registry records indicate the parcel is disputed."
text_of (high_flag t) = codes "HIGH SEVERITY FLAG: " ++ t
text_of (auto_concluded t) = codes "AUTO-CONCLUDED (Step 15): " ++ t
text_of (budget_exhausted t) = codes "STEP BUDGET EXHAUSTED: " ++ t
text_of needs_clarification = codes "Agent needs clarification - unable to proceed autonomously"
text_of (thought t) = t
text_of (reanalysis t) = t
text_of no_image = codes "No image to analyze"
text_of (duplicate_search t) = codes "Skipping duplicate search: " ++ t
text_of moving_on = codes "Moving to conclusion based on gathered evidence"
text_of (search_results q t) = codes "Search Results for '" ++ (q ++ (codes "':" ++ (10 ∷ t)))
text_of (search_error t) = codes "Search Error: " ++ t
text_of (satellite_check t) = codes "Satellite check: " ++ t
text_of (boundary_inspection t) = codes "Boundary Inspection Result: " ++ t
text_of (satellite_error t) = codes "Satellite error: " ++ t
text_of (final_verdict t) = codes "FINAL VERDICT: " ++ t
text_of (waiting_for t) = codes "Waiting for user: " ++ t
text_of (critical_issue t) = codes "Critical Issue: " ++ t
text_of retries_failed = codes "Failed after multiple retry attempts"
text_of (access_error t) = t
text_of (errors_failed n) = codes "Failed after " ++ (decimal n ++ codes " errors")

-- `any("Image Analysis:" in mem for mem in state.memory)`
unfoldable pub has_analysis : List Note → Bool
unfolding text_of
has_analysis memory = any (λ n. contains (codes "Image Analysis:") (text_of n)) memory
