-- ===== src/DeadLetter.antt =====
-- backend/infrastructure/dead_letter_queue.py: the dead-letter event and PoisonPillDetector.
use title_trust.Prelude.{
  ℕ, ◌*◌, Bool, true, false, ◌&&◌, ◌||◌, not, String, Option, List, [], ◌∷◌, any, ltb,
  if◌then◌else◌,
}
use title_trust.Text.{Text, codes, lower, contains, text_eq}

-- The parts of a job's payload that the worker reads. A key that is missing is `none`, or the
-- value that every read of it falls back to.
pub record Payload : Type 0 where
  pub job_id : Option String
  pub job_type : Option String
  pub attempts : Option ℕ
  pub priority : Option String
  pub file_paths : List String
  pub file_path : String
  pub file_size : ℕ
  pub file_type : Text

pub data Severity : Type 0 where
  permanent transient unknown : Severity

pub record DeadLetterEvent : Type 0 where
  pub job_id : String
  pub job_type : String
  pub original_data : Payload
  pub error_message : Text
  pub error_type : Severity × String
  pub attempt_count : ℕ
  pub max_retries : ℕ
  pub stack_trace : Option Text

abbrev known_poison_patterns : List Text
known_poison_patterns =
    codes "corrupted_image" ∷ codes "oversized_file" ∷ codes "unsupported_format" ∷ []

abbrev supported_types : List Text
supported_types = codes "pdf" ∷ codes "jpg" ∷ codes "jpeg" ∷ codes "png" ∷ []

abbrev transient_indicators : List Text
transient_indicators =
    codes "timeout" ∷ codes "rate_limit" ∷ codes "connection" ∷ codes "temporary" ∷ []

abbrev permanent_indicators : List Text
permanent_indicators =
    codes "corrupted" ∷ codes "unsupported" ∷ codes "invalid_format" ∷ codes "permission" ∷ []

abbrev is_empty : Text → Bool
is_empty [] = true
is_empty _ = false

-- `is_poison_pill`. The last test is `file_type and file_type not in supported_types`.
unfoldable pub is_poison_pill : Text → Payload → Bool
is_poison_pill error_type job_data =
    any (λ pattern. contains pattern (lower error_type)) known_poison_patterns
    || ltb (100 * 1024 * 1024) job_data.file_size
    || (let file_type = lower job_data.file_type in
        not (is_empty file_type) && not (any (text_eq file_type) supported_types))

-- `get_severity`: permanent indicators come first.
unfoldable pub get_severity : Text → Severity
get_severity error_type =
    let error_lower = lower error_type in
    if any (λ indicator. contains indicator error_lower) permanent_indicators
    then permanent
    else (if any (λ indicator. contains indicator error_lower) transient_indicators
        then transient
        else unknown)
