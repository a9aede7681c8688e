-- ===== src/Sessions/Files.antt =====
-- backend/services/session_service.py: the two ways to start an audit, for an uploaded file and for
-- one that is stored, and the file types that are taken. What the storage answers is an argument.
use title_trust.Prelude.{Bool, String, Option, none, some, List, [], ◌∷◌, ◌==◌, any, if◌then◌else◌}
use title_trust.Text.{Text, codes, text_eq, lower}
use title_trust.Sessions.{SessionService, Answer, refused, answered, crashed}
use title_trust.Sessions.Start.{
  StartAnswer, existing_idempotent_session, create_session_from_source,
}

-- What stands behind the last slash of `s`; `name` is what stands behind the last one so far.
abbrev base_name : Text → Text → Text
base_name name [] = name
base_name name (c ∷ s) = if c == b'/' then base_name s s else base_name name s

abbrev without_dots : Text → Text
without_dots [] = []
without_dots (c ∷ s) = if c == b'.' then without_dots s else c ∷ s

abbrev from_last_dot : Text → Option Text
from_last_dot [] = none
from_last_dot (c ∷ s) = elim (from_last_dot s) [
  | some t ↦ some t
  | none ↦ if c == b'.' then some (c ∷ s) else none
]

abbrev or_none_of : Option Text → Text
or_none_of none = []
or_none_of (some t) = t

-- `os.path.splitext(filename)[1]`: from the last dot on, where it does not lead the name.
unfoldable pub extension : Text → Text
extension s = or_none_of (from_last_dot (without_dots (base_name s s)))

abbrev supported_suffixes : List Text
supported_suffixes =
    codes ".pdf" ∷ codes ".png" ∷ codes ".jpg" ∷ codes ".jpeg" ∷ codes ".mp4" ∷ codes ".mov" ∷ []

-- `_validate_supported_suffix`, which answers 400 where the type is not supported.
unfoldable pub is_supported : Text → Bool
unfolding extension
is_supported filename = any (text_eq (lower (extension filename))) supported_suffixes

-- What a request to start an audit brings.
pub record StartRequest : Type 0 where
  pub user_id : String
  pub organization_id : String
  pub idempotency_key : Option String
  -- the name of the file; where it is empty, `upload` is kept for it
  pub filename : Text
  -- the path of the object in the storage; `none` where the upload raised
  pub source : Option Text

abbrev pub name_or_upload : Text → Text
name_or_upload [] = codes "upload"
name_or_upload (c ∷ s) = c ∷ s

abbrev pub create_uploaded :
    String → StartRequest → SessionService → Option Text → Answer StartAnswer × SessionService
create_uploaded id r v none = (crashed, v)
create_uploaded id r v (some path) =
    create_session_from_source r.idempotency_key id r.user_id r.organization_id
      (name_or_upload r.filename) path v

abbrev pub start_new :
    String
    → StartRequest
    → SessionService
    → Option StartAnswer
    → Answer StartAnswer × SessionService
start_new id r v (some a) = (answered a, v)
start_new id r v none =
    if is_supported r.filename then create_uploaded id r v r.source else (refused 400, v)

-- `start_marathon`, and `start_marathon_from_storage` for a source that is there.
unfoldable pub start_marathon :
    String → StartRequest → SessionService → Answer StartAnswer × SessionService
start_marathon id r v = start_new id r v (existing_idempotent_session r.idempotency_key r.user_id v)
