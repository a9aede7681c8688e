-- ===== src/Agent/Tools.antt =====
-- backend/agent/marathon_loop.py: what the loop asks of the Gemini interface and of the modules
-- beside it, and `analyze_image` and `perform_research`, which make results of the answers.
use title_trust.Prelude.{
  Bool, true, false, String, Option, none, some, List, [], ◌∷◌, ◌++◌, ◌⊎◌, take, any, if◌then◌else◌,
}
use title_trust.Text.{Text, codes, contains, lower}
use title_trust.Agent.Memory.{Note}
use title_trust.Agent.{MarathonState, AgentDecision}
use title_trust.Agent.Monad.{M, Stamp, pure, deny}

-- The answer on a document, or the exception of the storage or of the interface.
pub data VisionAnswer : Type 0 where
  answered : Text → VisionAnswer
  not_found permission_denied unavailable : VisionAnswer
  vision_error : Text → VisionAnswer

pub data SearchAnswer : Type 0 where
  found : Option Text → SearchAnswer
  search_raised : Text → SearchAnswer

-- A result with its provenance.
pub record Result : Type 0 where
  pub text : Text
  pub trace_id : Text
  pub sha256 : Text

-- What `inspect_physical_boundaries` returns. `is_high` is a discrepancy of high severity.
pub record Inspection : Type 0 where
  pub succeeded : Bool
  pub result : Result
  pub is_high : Bool
  pub reasoning : Text

-- `_extract_case_context`
pub record Context : Type 0 where
  pub title_number : Option Text
  pub owner_name : Option Text
  pub county : Option Text
  pub lat : Option Text
  pub lng : Option Text
  pub coordinate_error : Option Text
  pub expected_land_use : Option Text

pub data ModelAnswer : Type 0 where
  parsed : AgentDecision → ModelAnswer
  unparsed : ModelAnswer
  model_raised : ModelAnswer

-- What surrounds one step. Digests are of what is written to be digested; `hex12` are the random
-- digits of the trace of a query or a document; a text from `inspect` is its exception, and one from
-- `coordinates` its error.
pub record Env : Type 0 where
  -- what pydantic raises on a value for `last_update`, a field that is declared a float
  pub float_error : Stamp → Option Text
  pub has_owner : Bool
  pub hash8 : Text → Text
  pub hash_payload : List Text → Text
  pub hex12 : Text → Text
  pub vision : Text → VisionAnswer
  pub search : Text → SearchAnswer
  pub inspect : Text → Text → List Note → Option Text → Text ⊎ Inspection
  pub context : List Note → Context
  pub validation : Text → Text
  pub coordinates : Text → Text ⊎ (Text × Text)
  pub coordinate_text : Text → Text → Text
  -- the model's answer to the prompt that asks it to conclude, or to the other one
  pub model : Bool → MarathonState → ModelAnswer

-- `_new_trace_id`
unfoldable pub new_trace_id : Env → String → Text → Text
new_trace_id e prefix asked = codes prefix ++ (codes "-" ++ e.hex12 asked)

abbrev vision_result : Env → Text → Text → Result
unfolding new_trace_id
vision_result e uri t = record {
  text = t;
  trace_id = new_trace_id e "vision" uri;
  sha256 = e.hash_payload (uri ∷ t ∷ []);
}

unfoldable pub take_vision : Env → Text → VisionAnswer → M (Result × Bool)
unfolding vision_result
take_vision e uri (answered t) = pure (vision_result e uri t, true)
take_vision e uri not_found =
    deny
      (codes "The uploaded document could not be found in cloud storage. Please upload it again.")
take_vision e uri permission_denied =
    deny (codes "The uploaded document could not be accessed due to a storage permission error.")
take_vision e uri unavailable = deny (
    codes "The uploaded document could not be read from cloud storage right now. Please try again.")
take_vision e uri (vision_error t) = pure (record { text = t; trace_id = []; sha256 = [] }, false)

-- `analyze_image`: the result or the error text.
unfoldable pub analyze_image : Env → Text → M (Result × Bool)
unfolding take_vision
analyze_image e uri = take_vision e uri (e.vision uri)

abbrev pub or_default : Option Text → Text → Text
or_default none d = d
or_default (some t) d = t

-- An optional text that is missing or empty is false.
abbrev pub present : Option Text → Option Text
present none = none
present (some []) = none
present (some (c ∷ t)) = some (c ∷ t)

abbrev search_result : Env → Text → Text → Result
unfolding new_trace_id
search_result e query t = record {
  text = take 10_000 t;
  trace_id = new_trace_id e "search" query;
  sha256 = e.hash_payload (query ∷ take 10_000 t ∷ []);
}

-- `perform_research`: the result, and whether its status is success.
unfoldable pub perform_research : Env → Text → Result × Bool
unfolding search_result
perform_research e query = elim (e.search query) [
  | found t ↦ (
    search_result e query (or_default (present t) (codes "No specific text results found.")),
    true,
  )
  | search_raised t ↦
      (record { text = codes "Search Error: " ++ t; trace_id = []; sha256 = [] }, false)
]

abbrev is_present : Text → Bool
is_present [] = false
is_present _ = true

-- `status == "success"` with a trace and a digest.
abbrev pub has_provenance : Bool → Result → Bool
has_provenance success r =
    if success then (if is_present r.trace_id then is_present r.sha256 else false) else false

-- `_contains_any`
unfoldable pub contains_any : Text → List Text → Bool
contains_any t keywords = any (λ k. contains k (lower t)) keywords
