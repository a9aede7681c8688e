-- ===== src/Devices/Routes.antt =====
-- backend/api/auth_router.py: the routes that register and revoke a device session, for a user with the
-- permission.
use title_trust.Prelude.{ℕ, String, Option, none, some, str_eq, if◌then◌else◌}
use title_trust.Devices.{Protector, Devices, Payload, UpsertError, is_empty, upsert, revoke}
use title_trust.Devices.Sign.{
  Signed, SignedRequest, Signer, Answer, accepted, http, verify_signed_request,
  require_registered_device_signature,
}

-- `org_id` of the claims, or of the user; an empty one counts as none.
abbrev organization : Option String → Option String → Option String
organization none other = other
organization (some o) other = if is_empty o then other else some o

-- An error of `upsert` is an exception, which reaches the client as status 500.
abbrev answer_upsert : Option UpsertError × Devices → Answer × Devices
answer_upsert (none, devices) = (accepted, devices)
answer_upsert (some error, devices) = (http 500, devices)

abbrev register_for : Protector → String → Payload → ℕ → Devices → Option String → Answer × Devices
unfolding upsert
register_for c uid p nonce devices none = (http 400, devices)
register_for c uid p nonce devices (some org) =
    if is_empty org then (http 400, devices) else answer_upsert (upsert c uid org p nonce devices)

-- `upsert_device_session`: the request is signed with the secret that it brings.
unfoldable upsert_device_session :
    Protector
    → Signer
    → String
    → Option String
    → Option String
    → ℕ
    → ℕ
    → Payload
    → Signed
    → String
    → Devices
    → Answer × Devices
unfolding register_for verify_signed_request
upsert_device_session c sign uid claimed own now nonce p m signature devices =
    elim (verify_signed_request sign p.request_secret now
      (record { signed = m; device_session_id = p.session_id; signature = signature })) [
        | http status ↦ (http status, devices)
        | accepted ↦ register_for c uid p nonce devices (organization claimed own)
      ]

-- `revoke_device_session`
unfoldable revoke_device_session :
    Protector → Signer → String → String → ℕ → SignedRequest → Devices → Answer × Devices
unfolding revoke require_registered_device_signature
revoke_device_session c sign uid session_id now r devices =
    elim (require_registered_device_signature c sign uid now r devices) [
      | http status ↦ (http status, devices)
      | accepted ↦
          if str_eq session_id r.device_session_id
          then (accepted, revoke session_id uid devices)
          else (http 403, devices)
    ]
