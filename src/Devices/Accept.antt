-- ===== src/Devices/Accept.antt =====
-- backend/api/auth_router.py: which signed requests are accepted.
use title_trust.Prelude.{
  ℕ, ◌≡◌, refl, inl, inr, Bool, true, false, ◌||◌, String, Option, none, some, List, [], ◌∷◌, any,
  str_eq, eq_refl, arith, if◌then◌else◌, Bool-cases,
}
use title_trust.Devices.{
  Protector, Device, Devices, Payload, is_empty, is_owner, merged, fresh, upsert, revoke,
  without_secrets, get_request_signing_secrets, secrets_of, decrypted,
}
use title_trust.Devices.Sign.{
  Signed, SignedRequest, Signer, Answer, accepted, http, is_fresh_timestamp, verify_signed_request,
  is_401, try_secrets, check_session, require_registered_device_signature,
}

abbrev pub is_accepted : Answer → Bool
is_accepted accepted = true
is_accepted (http status) = false

-- Whether the signature is that of one of the secrets.
abbrev pub is_signed_by : Signer → SignedRequest → List String → Bool
is_signed_by sign r secrets = any (λ secret. str_eq (sign secret r.signed) r.signature) secrets

verified :
    (sign : Signer) (secret : String) (now : ℕ) (r : SignedRequest)
    → is_accepted (verify_signed_request sign secret now r) ≡ true
    → (is_fresh_timestamp r.signed.timestamp_ms now ≡ true)
      × (str_eq (sign secret r.signed) r.signature ≡ true)
unfolding verify_signed_request
verified sign secret now r h = (ground (arith, h), ground (arith, h))

or_later :
    (a : Answer) (rest : Answer)
    → is_accepted (if is_401 a then rest else a) ≡ true
    → (is_accepted a || is_accepted rest) ≡ true
or_later accepted rest h = refl
or_later (http n) rest h = ground (arith, h)

try_secrets-accepted :
    (sign : Signer) (now : ℕ) (r : SignedRequest) (secrets : List String)
    → is_accepted (try_secrets sign now r secrets) ≡ true
    → (is_fresh_timestamp r.signed.timestamp_ms now ≡ true) × (is_signed_by sign r secrets ≡ true)
unfolding try_secrets
try_secrets-accepted sign now r [] h = ground (arith, h)
try_secrets-accepted sign now r (s ∷ l) h =
    let rest = try_secrets sign now r l in
    let a = verify_signed_request sign s now r in
    elim (Bool-cases (is_accepted a)) [
      | inl here ↦ let (new, good) = verified sign s now r here in (new, rw good refl)
      | inr there ↦
          let (new, good) =
            try_secrets-accepted sign now r l (ground (arith, or_later a rest h, there)) in
          (new, ground (arith, good))
    ]

-- A session that lets the request through: it is there, not revoked and the user's.
abbrev pub IsUsable : String → Option Device → Type 0
IsUsable uid o = (d : Device) × (o ≡ some d) × (d.revoked ≡ false) × (str_eq d.user_id uid ≡ true)

check_session-accepted :
    (sign : Signer) (secrets : List String) (uid : String) (now : ℕ) (r : SignedRequest)
    (o : Option Device)
    → is_accepted (check_session sign secrets uid now r o) ≡ true
    → IsUsable uid o × (is_accepted (try_secrets sign now r secrets) ≡ true)
unfolding check_session
check_session-accepted sign secrets uid now r none h = ground (arith, h)
check_session-accepted sign secrets uid now r (some d) h =
    ((d, refl, ground (arith, h), ground (arith, h)), ground (arith, h))

-- A request that is accepted names a session that is there, not revoked and the user's, is fresh, and
-- is signed with the secret or the previous secret that is stored for the session.
pub require_registered_device_signature-accepted :
    (c : Protector) (sign : Signer) (uid : String) (now : ℕ) (r : SignedRequest) (devices : Devices)
    → is_accepted (require_registered_device_signature c sign uid now r devices) ≡ true
    → IsUsable uid (devices r.device_session_id)
      × (is_fresh_timestamp r.signed.timestamp_ms now ≡ true)
      × (is_signed_by sign r (get_request_signing_secrets c r.device_session_id devices) ≡ true)
unfolding require_registered_device_signature
require_registered_device_signature-accepted c sign uid now r devices h =
    let secrets = get_request_signing_secrets c r.device_session_id devices in
    let (usable, tried) =
      check_session-accepted sign secrets uid now r (devices r.device_session_id)
        (ground (arith, h)) in
    let (new, signed) = try_secrets-accepted sign now r secrets tried in (usable, new, signed)

-- What an upsert stores of the session, whatever was there.
merged-current :
    (o : Option Device) (new : Device) (fingerprint : String)
    → ((merged o new fingerprint).revoked ≡ new.revoked)
      × ((merged o new fingerprint).user_id ≡ new.user_id)
      × ((merged o new fingerprint).request_secret_ciphertext ≡ new.request_secret_ciphertext)
unfolding merged
merged-current none new fingerprint = (refl, refl, refl)
merged-current (some old) new fingerprint = (ground arith, ground arith, ground arith)

first_or :
    (a rest : Answer) → is_accepted a ≡ true → is_accepted (if is_401 a then rest else a) ≡ true
first_or accepted rest h = refl
first_or (http n) rest h = ground (arith, h)

decrypted-encrypted :
    (c : Protector) (o : Option String) (t s : String)
    → o ≡ some t
    → is_empty t ≡ false
    → c.decrypt t ≡ some s
    → decrypted c o ≡ s ∷ []
decrypted-encrypted c o t s same full plain = rw (same, full, plain) refl

-- A session whose current secret signed the request lets it through.
check_session-current :
    (c : Protector) (sign : Signer) (uid : String) (now : ℕ) (r : SignedRequest) (d : Device)
    (secret : String)
    → d.revoked ≡ false
    → d.user_id ≡ uid
    → decrypted c d.request_secret_ciphertext ≡ secret ∷ []
    → is_accepted (verify_signed_request sign secret now r) ≡ true
    → is_accepted (check_session sign (secrets_of c (some d)) uid now r (some d)) ≡ true
unfolding check_session try_secrets
check_session-current c sign uid now r d secret live owner current good =
    rw (live, owner, eq_refl uid, current) (first_or _ _ good)

-- A request as the client signs it after it has registered the payload.
abbrev pub signed_with : Signer → Payload → Signed → SignedRequest
signed_with sign p m = record {
  signed = m;
  device_session_id = p.session_id;
  signature = sign p.request_secret m;
}

verify-own :
    (sign : Signer) (p : Payload) (m : Signed) (now : ℕ)
    → is_empty p.session_id ≡ false
    → is_empty p.request_secret ≡ false
    → is_empty (sign p.request_secret m) ≡ false
    → is_empty m.timestamp ≡ false
    → is_empty m.correlation_id ≡ false
    → is_fresh_timestamp m.timestamp_ms now ≡ true
    → is_accepted (verify_signed_request sign p.request_secret now (signed_with sign p m)) ≡ true
unfolding verify_signed_request
verify-own sign p m now a b c d e new =
    rw (b, a, c, d, e, new, eq_refl (sign p.request_secret m)) refl

check_session-revoked :
    (sign : Signer) (secrets : List String) (uid user : String) (now : ℕ) (r : SignedRequest)
    (o : Option Device)
    → check_session sign secrets uid now r (some (without_secrets user o)) ≡ http 401
unfolding check_session
check_session-revoked sign secrets uid user now r none = refl
check_session-revoked sign secrets uid user now r (some d) = refl

revoke-refused :
    (c : Protector) (sign : Signer) (uid user : String) (now : ℕ) (r : SignedRequest)
    (devices : Devices)
    → is_empty r.device_session_id ≡ false
    → require_registered_device_signature c sign uid now r (revoke r.device_session_id user devices)
      ≡ http 401
unfolding revoke require_registered_device_signature
revoke-refused c sign uid user now r devices id =
    let session = r.device_session_id in
    let after = revoke session user devices in
    rw (id, eq_refl session)
      (check_session-revoked sign (get_request_signing_secrets c session after) uid user now r
        (devices session))

upsert-registers :
    (c : Protector) (sign : Signer) (uid org : String) (p : Payload) (nonce now : ℕ) (m : Signed)
    (devices : Devices)
    → c.decrypt (c.encrypt nonce p.request_secret) ≡ some p.request_secret
    → is_empty (c.encrypt nonce p.request_secret) ≡ false
    → is_owner uid org (devices p.session_id) ≡ true
    → is_empty p.session_id ≡ false
    → is_empty p.request_secret ≡ false
    → is_accepted (verify_signed_request sign p.request_secret now (signed_with sign p m)) ≡ true
    → let after = (upsert c uid org p nonce devices).1 in
      is_accepted (require_registered_device_signature c sign uid now (signed_with sign p m) after)
      ≡ true
unfolding upsert require_registered_device_signature get_request_signing_secrets
upsert-registers c sign uid org p nonce now m devices undone full owner id secret good =
    let t = c.encrypt nonce p.request_secret in
    let fp = c.fingerprint p.request_secret in
    let made = merged (devices p.session_id) (fresh uid org t fp) fp in
    let (live, user, ciphertext) = merged-current (devices p.session_id) (fresh uid org t fp) fp in
    rw (id, secret, owner, eq_refl p.session_id)
      (check_session-current c sign uid now (signed_with sign p m) made p.request_secret live user
        (decrypted-encrypted c made.request_secret_ciphertext t p.request_secret ciphertext full
          undone)
        good)

-- After a device has registered a secret, for a new session or for its own, its requests that are
-- signed with that secret, are fresh and bring all headers are accepted, if the encryption can be
-- undone and gives no empty text; and after the session is revoked they are answered with 401.
pub upsert-accepted :
    (c : Protector) (sign : Signer) (uid org : String) (p : Payload) (nonce now : ℕ) (m : Signed)
    (devices : Devices)
    → c.decrypt (c.encrypt nonce p.request_secret) ≡ some p.request_secret
    → is_empty (c.encrypt nonce p.request_secret) ≡ false
    → is_owner uid org (devices p.session_id) ≡ true
    → is_empty p.session_id ≡ false
    → is_empty p.request_secret ≡ false
    → is_empty (sign p.request_secret m) ≡ false
    → is_empty m.timestamp ≡ false
    → is_empty m.correlation_id ≡ false
    → is_fresh_timestamp m.timestamp_ms now ≡ true
    → let after = (upsert c uid org p nonce devices).1 in
      (is_accepted (require_registered_device_signature c sign uid now (signed_with sign p m) after)
        ≡ true)
      × (require_registered_device_signature c sign uid now
            (signed_with sign p m)
            (revoke p.session_id uid after)
          ≡ http 401)
upsert-accepted c sign uid org p nonce now m devices undone full owner id secret signature time
      correlation new =
    (
      upsert-registers c sign uid org p nonce now m devices undone full owner id secret
          (verify-own sign p m now id secret signature time correlation new),
      revoke-refused c sign uid uid now (signed_with sign p m) (upsert c uid org p nonce devices).1
          id,
    )
