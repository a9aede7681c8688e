-- ===== src/Devices/Sign.antt =====
-- backend/security/request_signing.py and the two checks of backend/api/auth_router.py.
use title_trust.Prelude.{
  ℕ, ◌+◌, ◌-◌, Bool, false, ◌||◌, String, Option, none, some, List, [], ◌∷◌, leb, ◌==◌, str_eq,
  if◌then◌else◌,
}
use title_trust.Devices.{Protector, Device, Devices, is_empty, get_request_signing_secrets}

-- What is signed. `timestamp_ms` is what `int` makes of the timestamp; a negative number, which is not
-- fresh, counts as none.
pub record Signed : Type 0 where
  pub method : String
  pub path : String
  pub timestamp : String
  pub timestamp_ms : Option ℕ
  pub correlation_id : String
  pub body : String

-- A request with the headers that it brings; a header that is missing is empty.
pub record SignedRequest : Type 0 where
  pub signed : Signed
  pub device_session_id : String
  pub signature : String

-- `sign_request`: the HMAC-SHA-256 under a secret.
abbrev pub Signer : Type 0
Signer = String → Signed → String

abbrev max_request_signature_age_ms : ℕ
max_request_signature_age_ms = 300_000

unfoldable pub is_fresh_timestamp : Option ℕ → ℕ → Bool
is_fresh_timestamp none current_ms = false
is_fresh_timestamp (some request_ms) current_ms =
    leb ((current_ms - request_ms) + (request_ms - current_ms)) max_request_signature_age_ms

-- A request is accepted, or answered with a status.
pub data Answer : Type 0 where
  accepted : Answer
  http : ℕ → Answer

unfoldable pub verify_signed_request : Signer → String → ℕ → SignedRequest → Answer
unfolding is_fresh_timestamp
verify_signed_request sign secret current_ms r =
    if is_empty secret
    then http 400
    else (if is_empty r.device_session_id
        then http 400
        else (if is_empty r.signature
              || (is_empty r.signed.timestamp || is_empty r.signed.correlation_id)
            then http 400
            else (if is_fresh_timestamp r.signed.timestamp_ms current_ms
                then (if str_eq (sign secret r.signed) r.signature then accepted else http 401)
                else http 401)))

abbrev pub is_401 : Answer → Bool
is_401 accepted = false
is_401 (http status) = status == 401

-- The loop over the secrets: a 401 goes on with the next one.
unfoldable pub try_secrets : Signer → ℕ → SignedRequest → List String → Answer
unfolding verify_signed_request
try_secrets sign current_ms r [] = http 401
try_secrets sign current_ms r (secret ∷ secrets) =
    let rest = try_secrets sign current_ms r secrets in
    let answer = verify_signed_request sign secret current_ms r in
    if is_401 answer then rest else answer

-- The tests of a session that was found, and the secrets.
unfoldable pub check_session :
    Signer → List String → String → ℕ → SignedRequest → Option Device → Answer
unfolding try_secrets
check_session sign secrets uid current_ms r none = http 401
check_session sign secrets uid current_ms r (some d) =
    if d.revoked
    then http 401
    else (if str_eq d.user_id uid then try_secrets sign current_ms r secrets else http 403)

-- `_require_registered_device_signature`
unfoldable pub require_registered_device_signature :
    Protector → Signer → String → ℕ → SignedRequest → Devices → Answer
unfolding check_session
require_registered_device_signature c sign uid current_ms r devices =
    if is_empty r.device_session_id
    then http 400
    else check_session sign (get_request_signing_secrets c r.device_session_id devices) uid
        current_ms r (devices r.device_session_id)
