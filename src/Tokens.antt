-- ===== src/Tokens.antt =====
-- backend/repositories/token_repository.py: TokenRepository, over a Firestore collection. Times
-- are microseconds, and what Firestore returns for one has a time zone; `sha256` is the hex digest
-- of a text.
pub mod Refused
pub mod Revocation
use title_trust.Prelude.{
  ℕ, ◌+◌, ◌-◌, ◌*◌, Bool, true, false, ◌&&◌, not, String, Option, none, some, List, [], ◌∷◌, map,
  length, ltb, if◌then◌else◌, str_eq, seconds,
}
use title_trust.Firestore.{Write, set, update, delete, Collection}

-- domain/session_models.py: TokenFamily, DeviceFingerprint, TokenInfo
pub data TokenFamily : Type 0 where
  active rotated revoked expired : TokenFamily

pub record DeviceFingerprint : Type 0 where
  pub device_id : String
  pub device_type : String
  pub os : String
  pub os_version : String
  pub app_version : String
  pub user_agent : String
  pub fingerprint_hash : String

pub record TokenInfo : Type 0 where
  pub token_id : String
  pub token_family : String
  pub generation : ℕ
  pub issued_at : ℕ
  pub expires_at : ℕ
  pub last_used_at : Option ℕ
  pub used_count : ℕ
  pub status : TokenFamily
  pub ip_address : String
  pub device_fingerprint : Option DeviceFingerprint
  pub revoked_at : Option ℕ
  pub revocation_reason : String

-- The document of a token: `to_dict` of its TokenInfo, the hash and the time of creation.
pub record TokenDoc : Type 0 where
  pub info : TokenInfo
  pub open info use *
  pub token_hash : Option String
  pub created_at : ℕ

abbrev bool_eq : Bool → Bool → Bool
bool_eq true b = b
bool_eq false b = not b

abbrev pub is_active : TokenFamily → Bool
is_active active = true
is_active _ = false

-- The fields that `rotate_token`, `revoke_token` and `revoke_token_family` update.
abbrev pub mark_rotated : ℕ → TokenDoc → TokenDoc
mark_rotated now d = record d { info = record d.info { status = rotated; last_used_at = some now } }

abbrev pub mark_revoked : ℕ → String → TokenDoc → TokenDoc
mark_revoked now reason d = record d {
  info = record d.info { status = revoked; revoked_at = some now; revocation_reason = reason };
}

-- A datetime of Python.
pub record DateTime : Type 0 where
  pub micros : ℕ
  pub has_zone : Bool

-- `datetime.now()`, and what Firestore returns for a time that has been stored, which has a zone.
abbrev pub naive : ℕ → DateTime
naive now = record { micros = now; has_zone = false }

abbrev pub from_firestore : ℕ → DateTime
from_firestore t = record { micros = t; has_zone = true }

-- `a < b`: `none` is the TypeError where only one of them has a zone.
unfoldable pub is_before : DateTime → DateTime → Option Bool
is_before a b = if bool_eq a.has_zone b.has_zone then some (ltb a.micros b.micros) else none

-- What is left where an exception is caught, beside the answer.
abbrev pub caught {ℓ κ} : {S : Type ℓ} {A : Type κ} → S → A → A → Option S → A × S
caught s fine failed none = (failed, s)
caught s fine failed (some s') = (fine, s')

module _ (sha256 : String → String) where
  unfoldable pub hash_refresh_token : String → String
  hash_refresh_token token = sha256 token

  abbrev pub new_doc : String → TokenInfo → ℕ → TokenDoc
  new_doc refresh_token info now = record {
    info = info;
    token_hash = some (hash_refresh_token refresh_token);
    created_at = now;
  }

  -- `hmac.compare_digest`, after the test that a hash is stored and not empty.
  abbrev hash_matches : Option String → String → Bool
  hash_matches none token = false
  hash_matches (some stored) token =
      not (str_eq stored "") && str_eq stored (hash_refresh_token token)

  -- The tests of `verify_and_get_token` on the document that was found, and what it returns: the
  -- device is left out. The TypeError of the comparison is caught.
  unfoldable pub verify_doc : String → String → ℕ → TokenDoc → Option TokenInfo
  unfolding hash_refresh_token is_before
  verify_doc token_id refresh_token now d =
      if not (hash_matches d.token_hash refresh_token)
      then none
      else (if not (is_active d.status)
          then none
          else elim (is_before (from_firestore d.expires_at) (naive now)) [
            | none ↦ none
            | some true ↦ none
            | some false ↦ some (record d.info { token_id = token_id; device_fingerprint = none })
          ])

module _ (sha256 : String → String) (tokens : Collection TokenDoc) where
  open tokens use {Db, get, commit}

  unfoldable pub store_token : String → String → TokenInfo → ℕ → Db → Bool × Db
  store_token token_id refresh_token info now db =
      caught db true false (commit db (set token_id (new_doc sha256 refresh_token info now) ∷ []))

  unfoldable pub verify_and_get_token : String → String → ℕ → Db → Option TokenInfo
  verify_and_get_token token_id refresh_token now db = elim (get db token_id) [
    | none ↦ none
    | some none ↦ none
    | some (some d) ↦ verify_doc sha256 token_id refresh_token now d
  ]

  -- One batch: the old token is marked and the new one is stored, or neither.
  unfoldable pub rotate_token : String → String → String → TokenInfo → ℕ → Db → Bool × Db
  rotate_token old_token_id new_token_id new_refresh_token info now db = caught db true false (
      commit db (
        update old_token_id (mark_rotated now)
        ∷ set new_token_id (new_doc sha256 new_refresh_token info now)
        ∷ []))

abbrev pub in_family : String → TokenDoc → Bool
in_family family d = str_eq d.token_family family

module _ (tokens : Collection TokenDoc) where
  open tokens use {Db, commit, stream}

  unfoldable revoke_token : String → String → ℕ → Db → Bool × Db
  revoke_token token_id reason now db =
      caught db true false (commit db (update token_id (mark_revoked now reason) ∷ []))

  -- The batch is one update for each document of the query; the answer is their number.
  pub revoke_token_family : String → String → ℕ → Db → ℕ × Db
  revoke_token_family family reason now db =
      elim (stream db (λ d. in_family family d && is_active d.status)) [
        | none ↦ (0, db)
        | some found ↦ caught db (length found) 0 (
            commit db (map (λ (x : String × TokenDoc). update x.0 (mark_revoked now reason)) found))
      ]

  -- `cutoff` is `now` less `older_than_days`; the query is `expires_at < cutoff`.
  unfoldable cleanup_expired_tokens : ℕ → ℕ → Db → ℕ × Db
  cleanup_expired_tokens older_than_days now db =
      elim (stream db (λ d. ltb (d.expires_at + seconds (86_400 * older_than_days)) now)) [
        | none ↦ (0, db)
        | some found ↦
            caught db (length found) 0
              (commit db (map (λ (x : String × TokenDoc). delete x.0) found))
      ]
