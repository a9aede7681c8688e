-- ===== src/Agent/Checks.antt =====
-- backend/agent/marathon_loop.py: the methods of MarathonState.
use title_trust.Prelude.{
  ℕ, ◌-◌, ◌==◌, Bool, true, false, ◌&&◌, ◌||◌, String, none, some, List, [], ◌∷◌, ◌++◌, any, length,
  drop, leb, if◌then◌else◌,
}
use title_trust.Text.{Text, codes, text_eq}
use title_trust.Agent.{
  MarathonState, Check, image_analyzed, title_searched, physical_boundary_verified,
  additional_records_checked, zoning_checked, historical_chain_checked, owner_verified,
  location_checked, Tool, analyze_image, google_search, inspect_satellite, finish_audit, wait_user,
  escalate_error, other_tool, Artifact,
}
use title_trust.Agent.Monad.{M, update, raise}

abbrev pub check_name : Check → String
check_name image_analyzed = "image_analyzed"
check_name title_searched = "title_searched"
check_name physical_boundary_verified = "physical_boundary_verified"
check_name additional_records_checked = "additional_records_checked"
check_name zoning_checked = "zoning_checked"
check_name historical_chain_checked = "historical_chain_checked"
check_name owner_verified = "owner_verified"
check_name location_checked = "location_checked"

abbrev pub number : Check → ℕ
number image_analyzed = 0
number title_searched = 1
number physical_boundary_verified = 2
number additional_records_checked = 3
number zoning_checked = 4
number historical_chain_checked = 5
number owner_verified = 6
number location_checked = 7

abbrev pub same_check : Check → Check → Bool
same_check c d = number c == number d

-- Tools are texts in the code; these are equal where those are.
abbrev pub same_tool : Tool → Tool → Bool
same_tool analyze_image analyze_image = true
same_tool google_search google_search = true
same_tool inspect_satellite inspect_satellite = true
same_tool finish_audit finish_audit = true
same_tool wait_user wait_user = true
same_tool escalate_error escalate_error = true
same_tool (other_tool s) (other_tool t) = text_eq s t
same_tool _ _ = false

-- `l[-n:]`
abbrev pub last {ℓ} : {A : Type ℓ} → ℕ → List A → List A
last n l = drop (length l - n) l

unfoldable pub has_performed_action : Tool → Text → MarathonState → Bool
has_performed_action tool input_hash s =
    any (λ a. same_tool a.tool tool && text_eq a.input_hash input_hash) (last 5 s.action_history)

-- `add_action`, which is given the digest of the input.
unfoldable pub add_action : Tool → Text → MarathonState → MarathonState
add_action tool input_hash s = record s {
  action_history = s.action_history ++ record { tool = tool; input_hash = input_hash } ∷ [];
}

abbrev is_hex : ℕ → Bool
is_hex c = (leb b'0' c && leb c b'9') || ((leb b'a' c && leb c b'f') || (leb b'A' c && leb c b'F'))

abbrev all_hex : Text → Bool
all_hex [] = true
all_hex (c ∷ t) = is_hex c && all_hex t

unfoldable pub is_valid_sha256 : Text → Bool
is_valid_sha256 value = length value == 64 && all_hex value

abbrev is_space : ℕ → Bool
is_space c = c == 32 || ((leb 9 c && leb c 13) || (leb 28 c && leb c 31))

abbrev strip_left : Text → Text
strip_left [] = []
strip_left (c ∷ t) = let rest = strip_left t in if is_space c then rest else c ∷ t

abbrev strip_right : Text → Text
strip_right [] = []
strip_right (c ∷ t) =
    let rest = strip_right t in
    elim rest [ [] ↦ if is_space c then [] else c ∷ [] | d ∷ r ↦ c ∷ d ∷ r ]

unfoldable pub is_valid_trace_id : Text → Bool
is_valid_trace_id value = leb 8 (length (strip_right (strip_left value)))

-- What `register_evidence` writes.
unfoldable pub registered : Check → Artifact → MarathonState → MarathonState
registered c a s = record s {
  verification_evidence = λ d. if same_check c d then some a else s.verification_evidence d;
  progress_checklist = λ d. if same_check c d then true else s.progress_checklist d;
}

unfoldable pub is_valid : Artifact → Bool
unfolding is_valid_trace_id is_valid_sha256
is_valid a = is_valid_trace_id a.trace_id && is_valid_sha256 a.sha256

-- `register_evidence`, with its ValueError. The event for the screen is left out.
unfoldable pub register_evidence : Check → Artifact → M (Unit {0})
unfolding registered is_valid
register_evidence c a =
    if is_valid a
    then update (registered c a)
    else raise (
        codes "Evidence for "
        ++ (codes (check_name c) ++ codes " is missing a valid trace_id or sha256"))

abbrev is_present : Text → Bool
is_present [] = false
is_present _ = true

unfoldable pub has_verified_check : Check → MarathonState → Bool
has_verified_check c s = elim (s.verification_evidence c) [
  | none ↦ false
  | some a ↦ is_present a.trace_id && is_present a.sha256
]

-- `state.progress_checklist[c] = b`
unfoldable pub mark : Check → Bool → MarathonState → MarathonState
mark c b s = record s {
  progress_checklist = λ d. if same_check c d then b else s.progress_checklist d;
}
