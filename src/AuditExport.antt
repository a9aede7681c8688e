-- ===== src/AuditExport.antt =====
-- backend/services/audit_export_service.py: exports of the audit events of a session, which are
-- signed and stored, and the check of a stored export. The renderings in JSON, the digest, base64 and
-- the key are arguments, and so are the two collections.
pub mod Verify
pub mod Signed
use title_trust.Prelude.{
  ℕ, ◌≡◌, Bool, true, false, ◌&&◌, String, str_eq, Option, none, some, List, [], ◌∷◌, All, any,
  length, if◌then◌else◌,
}
use title_trust.Text.{Text, text_eq, codes}
use title_trust.Firestore.{Collection, set}
use title_trust.AuditLog.{AuditEvent, Log, of_session, Occurs}

-- The fields of the documents that AuditEventRepository writes.
abbrev event_fields : List String
event_fields =
    "session_id" ∷ "sequence" ∷ "event_type" ∷ "payload" ∷ "actor_id" ∷ "previous_hash"
    ∷ "event_hash" ∷ "created_at" ∷ "created_at_epoch" ∷ []

abbrev pub has_field {ℓ} : {E : Type ℓ} → String → E → Bool
has_field name e = any (str_eq name) event_fields

-- `where("session_id", "==", …).order_by(…).stream()` on the audit events. A query that orders by a
-- field gives the documents of the session that have the field.
pub record Ordered {P : Type 0} (log : Log P) : Type 0 where
  pub by_field : log.Db → Text → String → Option (List (AuditEvent P))
  pub by_field-has :
      (db : log.Db) (s : Text) (name : String) (l : List (AuditEvent P))
      → by_field db s name ≡ some l
      → All (λ e. (of_session s e && has_field name e) ≡ true) l
  pub by_field-all :
      (db : log.Db) (s : Text) (name : String) (l : List (AuditEvent P)) (e : AuditEvent P)
      → by_field db s name ≡ some l
      → (of_session s e && has_field name e) ≡ true
      → Occurs e (log.events db)
      → Occurs e l

pub record Signature : Type 0 where
  pub algorithm : String
  pub signature : Text
  pub timestamp : Text

pub record Manifest : Type 0 where
  pub format_version : String
  pub audit_standard : String
  pub immutable : Bool

pub record Export (P : Type 0) : Type 0 where
  pub export_id : String
  pub export_timestamp : Text
  pub exported_by : String
  pub session_id : Text
  pub user_id : Text
  pub event_count : ℕ
  pub events : List (AuditEvent P)
  pub manifest : Manifest
  pub content_hash : Text
  -- `_signature`, if the export has one
  pub signature : Option Signature

-- `json.dumps` of an export without its signature and of the events, `none` where it raises; the
-- hexadecimal SHA-256; base64.
pub record Encoding (P : Type 0) : Type 0 where
  pub dumps : Export P → Option Text
  pub dumps_events : List (AuditEvent P) → Option Text
  pub sha256 : Text → Text
  pub b64encode : Text → Text
  pub b64decode : Text → Option Text

-- A private key that signs with a salt, or raises, and the test of its public key.
pub record Key : Type 0 where
  pub sign : Text → Text → Option Text
  pub verify : Text → Text → Bool

-- AuditSigner, once it is made: without a key if none is configured.
abbrev pub AuditSigner : Type 0
AuditSigner = Option Key

-- Why an export is not valid.
pub data Refusal : Type 0 where
  key_not_loaded signature_missing verification_failed export_not_found hash_mismatch : Refusal

module _ {P : Type 0} (c : Encoding P) where
  -- The export without `_signature`.
  abbrev pub unsigned : Export P → Export P
  unsigned x = record x { signature = none }

  abbrev pub with_signature : Text → Export P → Option Text → Export P
  with_signature now x none = x
  with_signature now x (some s) = record x {
    signature =
        some (record { algorithm = "RSA-PSS-SHA256"; signature = c.b64encode s; timestamp = now });
  }

  abbrev pub sign_text : Key → Text → Option Text → Option Text
  sign_text key salt none = none
  sign_text key salt (some t) = key.sign salt t

  -- An exception is caught, and the export comes back as it was.
  unfoldable pub sign_export : AuditSigner → Text → Text → Export P → Export P
  sign_export none salt now x = x
  sign_export (some key) salt now x = with_signature now x (sign_text key salt (c.dumps x))

  abbrev pub test_result : Bool → Option Refusal
  test_result true = none
  test_result false = some verification_failed

  abbrev pub check_text : Key → Option Text → Option Text → Option Refusal
  check_text key (some s) (some t) = test_result (key.verify s t)
  check_text key (some s) none = some verification_failed
  check_text key none t = some verification_failed

  abbrev pub check_signature : Key → Export P → Option Signature → Option Refusal
  check_signature key x none = some signature_missing
  check_signature key x (some s) = check_text key (c.b64decode s.signature) (c.dumps (unsigned x))

  -- `none` if the signature is valid.
  unfoldable pub verify_signature : AuditSigner → Export P → Option Refusal
  verify_signature none x = some key_not_loaded
  verify_signature (some key) x = check_signature key x x.signature

  abbrev pub manifest : Manifest
  manifest = record { format_version = "1.0"; audit_standard = "SOC2"; immutable = true }

  -- What is exported, before it is signed.
  unfoldable pub new_export : String → Text → Text → Text → List (AuditEvent P) → Text → Export P
  new_export id now session_id user_id events json = record {
    export_id = id;
    export_timestamp = now;
    exported_by = "audit_export_service";
    session_id = session_id;
    user_id = user_id;
    event_count = length events;
    events = events;
    manifest = manifest;
    content_hash = c.sha256 json;
    signature = none;
  }

  -- `(is_valid, export_data, error)`
  abbrev pub Checked : Type 0
  Checked = Bool × Option (Export P) × Option Refusal

  abbrev pub refused : Refusal → Checked
  refused e = (false, none, some e)

  abbrev pub check_hash : Export P → Option Text → Checked
  check_hash x none = refused verification_failed
  check_hash x (some json) =
      if text_eq (c.sha256 json) x.content_hash then (true, some x, none) else refused hash_mismatch

  abbrev pub check_export : Export P → Option Refusal → Checked
  check_export x none = check_hash x (c.dumps_events x.events)
  check_export x (some e) = refused e

  abbrev pub check_found : AuditSigner → Option (Option (Export P)) → Checked
  check_found signer none = refused verification_failed
  check_found signer (some none) = refused export_not_found
  check_found signer (some (some x)) = check_export x (verify_signature signer x)

  module _ (exports : Collection (Export P)) where
    -- `verify_export`
    unfoldable pub verify_export : AuditSigner → exports.Db → String → Checked
    unfolding verify_signature
    verify_export signer db id = check_found signer (exports.get db id)

    abbrev pub stored : exports.Db → Export P → Option exports.Db → Option (Export P) × exports.Db
    stored db x none = (none, db)
    stored db x (some db') = (some x, db')

    abbrev pub export_events :
        AuditSigner
        → exports.Db
        → Text
        → Text
        → Text
        → String
        → Text
        → List (AuditEvent P)
        → Option Text
        → Option (Export P) × exports.Db
    export_events signer db session_id user_id now id salt events none = (none, db)
    export_events signer db session_id user_id now id salt events (some json) =
        let x = sign_export signer salt now (new_export id now session_id user_id events json) in
        stored db x (exports.commit db (set id x ∷ []))

    module _ (log : Log P) (query : Ordered log) where
      abbrev pub export_found :
          AuditSigner
          → exports.Db
          → Text
          → Text
          → Text
          → String
          → Text
          → Option (List (AuditEvent P))
          → Option (Export P) × exports.Db
      export_found signer db session_id user_id now id salt none = (none, db)
      export_found signer db session_id user_id now id salt (some events) =
          export_events signer db session_id user_id now id salt events (c.dumps_events events)

      -- `export_session_audit`: the signed export, or `none` on an exception, which is caught; and
      -- the exports. The id, the time and the salt of the signature are arguments.
      unfoldable pub export_session_audit :
          AuditSigner
          → log.Db
          → exports.Db
          → Text
          → Text
          → Text
          → String
          → Text
          → Option (Export P) × exports.Db
      unfolding sign_export new_export
      export_session_audit signer events db session_id user_id now id salt =
          export_found signer db session_id user_id now id salt
            (query.by_field events session_id "timestamp")

-- The report of `get_export_integrity_report`.
pub record IntegrityReport : Type 0 where
  pub export_id : String
  pub valid : Bool
  pub verified_at : Text
  pub error : Option Refusal
  pub event_count : ℕ
  pub content_hash : Option Text
  pub signature_algorithm : Option String

abbrev signed_by : Option Signature → Option String
signed_by none = none
signed_by (some s) = some s.algorithm

module _ {P : Type 0} where
  abbrev count_of : Option (Export P) → ℕ
  count_of none = 0
  count_of (some x) = x.event_count

  abbrev content_hash_of : Option (Export P) → Option Text
  content_hash_of none = none
  content_hash_of (some x) = some x.content_hash

  abbrev algorithm_of : Option (Export P) → Option String
  algorithm_of none = none
  algorithm_of (some x) = signed_by x.signature

  unfoldable get_export_integrity_report :
      Encoding P
      → (exports : Collection (Export P)) → AuditSigner
      → exports.Db
      → Text
      → String
      → IntegrityReport
  unfolding verify_export
  get_export_integrity_report c exports signer db now id =
      let (is_valid, x, error) = verify_export c exports signer db id in
      record {
        export_id = id;
        valid = is_valid;
        verified_at = now;
        error = error;
        event_count = count_of x;
        content_hash = content_hash_of x;
        signature_algorithm = algorithm_of x;
      }
