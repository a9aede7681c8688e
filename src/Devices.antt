-- ===== src/Devices.antt =====
-- backend/services/device_session_service.py with backend/repositories/device_session_repository.py,
-- and the check of signed requests of backend/api/auth_router.py with
-- backend/security/request_signing.py. The database is taken to answer.
pub mod Sign
pub mod Accept
pub mod Routes
use title_trust.Prelude.{
  ℕ, ◌+◌, Bool, true, false, ◌&&◌, ◌||◌, not, String, Option, none, some, List, [], ◌∷◌, ◌++◌, ◌==◌,
  str_eq, if◌then◌else◌,
}

-- backend/security/device_session_secrets.py: SHA-256, and AES-GCM under the wrapping key with a random
-- nonce; `none` is an exception.
pub record Protector : Type 0 where
  pub fingerprint : String → String
  pub encrypt : ℕ → String → String
  pub decrypt : String → Option String

-- A document of the collection.
pub record Device : Type 0 where
  pub user_id : String
  pub organization_id : Option String
  pub revoked : Bool
  pub request_secret_ciphertext : Option String
  pub request_secret_fingerprint : Option String
  pub previous_request_secret_ciphertext : Option String
  pub previous_request_secret_fingerprint : Option String
  pub request_secret_version : Option ℕ

abbrev pub Devices : Type 0
Devices = String → Option Device

abbrev pub put : String → Device → Devices → Devices
put session_id d devices j = if str_eq session_id j then some d else devices j

-- The fields of the payload that the service reads.
pub record Payload : Type 0 where
  pub session_id : String
  pub request_secret : String

pub data UpsertError : Type 0 where
  no_session_id no_request_secret ownership_mismatch : UpsertError

abbrev pub is_empty : String → Bool
is_empty s = str_eq s ""

abbrev same_organization : Option String → String → Bool
same_organization none organization_id = false
same_organization (some o) organization_id = str_eq o organization_id

unfoldable pub is_owner : String → String → Option Device → Bool
is_owner user_id organization_id none = true
is_owner user_id organization_id (some d) =
    str_eq d.user_id user_id && same_organization d.organization_id organization_id

-- `int(version or 0) or 1`
abbrev or_one : Option ℕ → ℕ
or_one none = 1
or_one (some v) = if v == 0 then 1 else v

-- The document with a new secret, before the old one is looked at.
abbrev pub fresh : String → String → String → String → Device
fresh user_id organization_id ciphertext fingerprint = record {
  user_id = user_id;
  organization_id = some organization_id;
  revoked = false;
  request_secret_ciphertext = some ciphertext;
  request_secret_fingerprint = some fingerprint;
  previous_request_secret_ciphertext = none;
  previous_request_secret_fingerprint = none;
  request_secret_version = some 1;
}

abbrev is_other : Option String → String → Bool
is_other none fingerprint = false
is_other (some old) fingerprint = not (is_empty old) && not (str_eq old fingerprint)

-- What is merged into the document: a secret with another fingerprint moves the old one to the
-- previous one.
pub merged : Option Device → Device → String → Device
merged none new fingerprint = new
merged (some old) new fingerprint =
    if is_other old.request_secret_fingerprint fingerprint
    then record new {
      previous_request_secret_ciphertext = old.request_secret_ciphertext;
      previous_request_secret_fingerprint = old.request_secret_fingerprint;
      request_secret_version = some (or_one old.request_secret_version + 1);
    }
    else record new {
      previous_request_secret_ciphertext = old.previous_request_secret_ciphertext;
      previous_request_secret_fingerprint = old.previous_request_secret_fingerprint;
      request_secret_version = some (or_one old.request_secret_version);
    }

-- `upsert`: an error, or the collection after it.
pub upsert : Protector → String → String → Payload → ℕ → Devices → Option UpsertError × Devices
unfolding is_owner merged
upsert c user_id organization_id p nonce devices =
    if is_empty p.session_id
    then (some no_session_id, devices)
    else (if is_empty p.request_secret
        then (some no_request_secret, devices)
        else (if is_owner user_id organization_id (devices p.session_id)
            then (
              none,
              put p.session_id
                  (merged (devices p.session_id)
                    (fresh user_id organization_id (c.encrypt nonce p.request_secret)
                      (c.fingerprint p.request_secret))
                    (c.fingerprint p.request_secret))
                  devices,
            )
            else (some ownership_mismatch, devices)))

abbrev pub without_secrets : String → Option Device → Device
without_secrets user_id none = record {
  user_id = user_id;
  organization_id = none;
  revoked = true;
  request_secret_ciphertext = none;
  request_secret_fingerprint = none;
  previous_request_secret_ciphertext = none;
  previous_request_secret_fingerprint = none;
  request_secret_version = none;
}
without_secrets user_id (some d) = record d {
  user_id = user_id;
  revoked = true;
  request_secret_ciphertext = none;
  request_secret_fingerprint = none;
  previous_request_secret_ciphertext = none;
  previous_request_secret_fingerprint = none;
}

-- `revoke`, which also makes a document where there is none.
pub revoke : String → String → Devices → Devices
revoke session_id user_id devices =
    put session_id (without_secrets user_id (devices session_id)) devices

-- A ciphertext that is missing, empty or cannot be decrypted gives no secret.
abbrev pub decrypted : Protector → Option String → List String
decrypted c none = []
decrypted c (some t) =
    if is_empty t then [] else (elim (c.decrypt t) [ none ↦ [] | some s ↦ s ∷ [] ])

abbrev pub secrets_of : Protector → Option Device → List String
secrets_of c none = []
secrets_of c (some d) =
    decrypted c d.request_secret_ciphertext ++ decrypted c d.previous_request_secret_ciphertext

unfoldable pub get_request_signing_secrets : Protector → String → Devices → List String
get_request_signing_secrets c session_id devices = secrets_of c (devices session_id)
