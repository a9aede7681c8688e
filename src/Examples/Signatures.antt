-- ===== src/Examples/Signatures.antt =====
-- A device that registers a secret and signs a request with it.
use title_trust.Prelude.{◌≡◌, refl, true, some, none}
use title_trust.Devices.{
  Protector, Devices, Payload, upsert, revoke, is_owner, fresh, get_request_signing_secrets,
}
use title_trust.Devices.Sign.{
  Signed, Signer, http, require_registered_device_signature, is_fresh_timestamp, check_session,
  try_secrets, verify_signed_request,
}
use title_trust.Devices.Accept.{
  upsert-accepted, require_registered_device_signature-accepted, is_accepted, signed_with, IsUsable,
  is_signed_by,
}

-- A cipher that hides nothing, and signatures that are the secret.
abbrev protector : Protector
protector = record { fingerprint = λ s. s; encrypt = λ nonce s. s; decrypt = λ t. some t }

abbrev signer : Signer
signer secret m = secret

abbrev payload : Payload
payload = record { session_id = "d1"; request_secret = "s3cret" }

abbrev message : Signed
message = record {
  method = "GET";
  path = "/auth/device-sessions";
  timestamp = "1000000";
  timestamp_ms = some 1_000_000;
  correlation_id = "c1";
  body = "";
}

abbrev no_devices : Devices
no_devices id = none

abbrev after_upsert : Devices
after_upsert = (upsert protector "u1" "org" payload 7 no_devices).1

upsert-accepted_example :
    (is_accepted (
        require_registered_device_signature protector signer "u1" 1_200_000
          (signed_with signer payload message)
          after_upsert)
      ≡ true)
    × (require_registered_device_signature protector signer "u1" 1_200_000
          (signed_with signer payload message)
          (revoke "d1" "u1" after_upsert)
        ≡ http 401)
unfolding is_owner is_fresh_timestamp
upsert-accepted_example =
    upsert-accepted protector signer "u1" "org" payload 7 1_200_000 message no_devices refl refl
      refl refl refl refl refl refl refl

-- The request of a device whose document was written in another way.
abbrev stored : Devices
stored id = some (fresh "u1" "org" "s3cret" "s3cret")

accepts_stored :
    is_accepted (
      require_registered_device_signature protector signer "u1" 1_200_000
        (signed_with signer payload message)
        stored)
    ≡ true
unfolding require_registered_device_signature check_session try_secrets verify_signed_request
    is_fresh_timestamp get_request_signing_secrets
accepts_stored = refl

require_registered_device_signature-accepted_example :
    IsUsable "u1" (stored "d1")
    × (is_fresh_timestamp (some 1_000_000) 1_200_000 ≡ true)
    × (is_signed_by signer
          (signed_with signer payload message)
          (get_request_signing_secrets protector "d1" stored)
        ≡ true)
require_registered_device_signature-accepted_example =
    require_registered_device_signature-accepted protector signer "u1" 1_200_000
      (signed_with signer payload message) stored accepts_stored
