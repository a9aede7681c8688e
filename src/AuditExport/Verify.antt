-- ===== src/AuditExport/Verify.antt =====
-- backend/services/audit_export_service.py: which exports are found valid, and what they hold.
use title_trust.Prelude.{
  ◌≡◌, refl, sym, ap, ◌∙◌, true, ◌&&◌, String, eq_refl, Option, none, some, is_some, is_none, List,
  [], ◌∷◌, All, length, if_true, arith,
}
use title_trust.Text.{Text, text_eq}
use title_trust.Text.Fields.{text_eq_refl}
use title_trust.Firestore.{Collection, set}
use title_trust.AuditLog.{AuditEvent, Log, of_session}
use title_trust.AuditExport.{
  Ordered, has_field, Export, Encoding, Key, AuditSigner, Checked, unsigned, sign_export,
  verify_signature, new_export, stored, export_events, export_found, sign_text, with_signature,
  check_text, check_export, check_hash, check_found, test_result, check_signature, verify_export,
  export_session_audit, Refusal,
}
use mathlib.Core.Option.{some-injective}

none_with_timestamp :
    {P : Type 0} (s : Text) (l : List (AuditEvent P))
    → All (λ e. (of_session s e && has_field "timestamp" e) ≡ true) l
    → l ≡ []
none_with_timestamp s [] a = refl
none_with_timestamp s (e ∷ l) (has, _) = ground arith

module _ {P : Type 0} (c : Encoding P) (exports : Collection (Export P)) where
  -- What an export that comes back and is stored has been made of.
  record Exported (signer : AuditSigner) (x : Export P) (db' : exports.Db) (id : String)
      : Type 0 where
    pub events : List (AuditEvent P)
    pub json : Text
    pub session_id : Text
    pub user_id : Text
    pub now : Text
    pub salt : Text
    pub rendered : c.dumps_events events ≡ some json
    pub made :
        x ≡ sign_export c signer salt now (new_export c id now session_id user_id events json)
    pub stored : exports.docs db' id ≡ some x

  -- A call that gives an export has stored it.
  stored-some :
      (db : exports.Db) (id : String) (x y : Export P) (db' : exports.Db) (o : Option exports.Db)
      → exports.commit db (set id x ∷ []) ≡ o
      → stored c exports db x o ≡ (some y, db')
      → (y ≡ x) × (exports.docs db' id ≡ some y)
  stored-some db id x y db' none done made = cc
  stored-some db id x y db' (some db'') done made =
      let same = some-injective _ _ (ap (λ r. r.0) made) in
      let wrote = exports.docs-commit db (set id x ∷ []) db'' done id in
      (
        sym same,
        ap (λ d. exports.docs d id) (sym (ap (λ r. r.1) made))
            ∙ wrote
            ∙ if_true _ _ _ (eq_refl id)
            ∙ ap some same,
      )

  module _ (log : Log P) (query : Ordered log) (signer : AuditSigner) where
    export_events-Exported :
        (db : exports.Db) (s user now : Text) (id : String) (salt : Text) (x : Export P)
        (db' : exports.Db) (l : List (AuditEvent P)) (o : Option Text)
        → c.dumps_events l ≡ o
        → export_events c exports signer db s user now id salt l o ≡ (some x, db')
        → (e : Exported signer x db' id) × (e.events ≡ l)
    export_events-Exported db s user now id salt x db' l none rendered made = cc
    export_events-Exported db s user now id salt x db' l (some json) rendered made =
        let (same, found) = stored-some db id _ x db' _ refl made in
        (
          record {
            events = l;
            json = json;
            session_id = s;
            user_id = user;
            now = now;
            salt = salt;
            rendered = rendered;
            made = same;
            stored = found;
          },
          refl,
        )

    export_found-Exported :
        (db : exports.Db) (s user now : Text) (id : String) (salt : Text) (x : Export P)
        (db' : exports.Db) (o : Option (List (AuditEvent P)))
        → export_found c exports log query signer db s user now id salt o ≡ (some x, db')
        → (e : Exported signer x db' id) × (o ≡ some e.events)
    export_found-Exported db s user now id salt x db' none made = cc
    export_found-Exported db s user now id salt x db' (some l) made =
        let (e, same) = export_events-Exported db s user now id salt x db' l _ refl made in
        (e, ap some (sym same))

  -- A key whose own signatures pass its test, and base64 that can be read back.
  pub record IsKey (key : Key) : Type 0 where
    pub own : (salt t s : Text) → key.sign salt t ≡ some s → key.verify s t ≡ true
    pub decodes : (t : Text) → c.b64decode (c.b64encode t) ≡ some t

  unfoldable pub IsSignerKey : AuditSigner → Type 0
  IsSignerKey none = Unit {0}
  IsSignerKey (some key) = IsKey key

  -- An export that has just been signed has a valid signature, one that could not be has none.
  verify_signature-with :
      (key : Key) (now : Text) (x : Export P) (o t : Option Text) (salt : Text)
      → IsKey key
      → x.signature ≡ none
      → c.dumps (unsigned c x) ≡ t
      → sign_text c key salt t ≡ o
      → is_none (verify_signature c (some key) (with_signature c now x o))
        ≡ is_some (with_signature c now x o).signature
  unfolding verify_signature
  verify_signature-with key now x none t salt k bare rendered signed =
      ap (λ o. is_none (check_signature c key x o)) bare ∙ sym (ap is_some bare)
  verify_signature-with key now x (some s) none salt k bare rendered signed = cc
  verify_signature-with key now x (some s) (some t) salt k bare rendered signed =
      ap (λ o. is_none (check_text c key o (c.dumps (record x { signature = none })))) (k.decodes s)
      ∙ ap (λ o. is_none (check_text c key (some s) o)) rendered
      ∙ ap (λ b. is_none (test_result c b)) (k.own salt t s signed)

  verify_signature-sign_export :
      (signer : AuditSigner) (salt now : Text) (x : Export P)
      → IsSignerKey signer
      → x.signature ≡ none
      → unsigned c x ≡ x
      → is_none (verify_signature c signer (sign_export c signer salt now x))
        ≡ is_some (sign_export c signer salt now x).signature
  unfolding sign_export verify_signature IsSignerKey
  verify_signature-sign_export none salt now x k bare same = sym (ap is_some bare)
  verify_signature-sign_export (some key) salt now x k bare same =
      verify_signature-with key now x _ _ salt k bare (ap c.dumps same) refl

  unsigned-with :
      (now : Text) (x : Export P) (o : Option Text)
      → unsigned c (with_signature c now x o) ≡ unsigned c x
  unsigned-with now x none = refl
  unsigned-with now x (some s) = refl

  -- What signing leaves as it is.
  sign_export-events :
      (signer : AuditSigner) (salt now : Text) (x : Export P)
      → unsigned c (sign_export c signer salt now x) ≡ unsigned c x
  unfolding sign_export
  sign_export-events none salt now x = refl
  sign_export-events (some key) salt now x = unsigned-with now x _

  check_export-valid :
      (x : Export P) (json : Text) (o : Option Refusal)
      → c.dumps_events x.events ≡ some json
      → x.content_hash ≡ c.sha256 json
      → (check_export c x o).0 ≡ is_none o
  check_export-valid x json (some e) rendered hash = refl
  check_export-valid x json none rendered hash =
      ap (λ t. (check_hash c x t).0) rendered
      ∙ ap (λ (r : Checked c). r.0)
          (if_true _ (true, some x, none) _
            (ap (text_eq (c.sha256 json)) hash ∙ text_eq_refl (c.sha256 json)))

  verify_export-Exported :
      (signer : AuditSigner) (x : Export P) (db : exports.Db) (id : String) (o : Option (Export P))
      → IsSignerKey signer
      → Exported signer x db id
      → exports.get db id ≡ some o
      → (verify_export c exports signer db id).0 ≡ is_some x.signature
  unfolding verify_export new_export
  verify_export-Exported signer x db id o k e answer =
      let fresh = new_export c id e.now e.session_id e.user_id e.events e.json in
      let kept = ap (unsigned c) e.made ∙ sign_export-events signer e.salt e.now fresh in
      let found =
        ap (check_found c signer) (answer ∙ ap some (exports.get_docs db id o answer ∙ e.stored)) in
      let signed =
        ap (λ y. is_none (verify_signature c signer y)) e.made
        ∙ verify_signature-sign_export signer e.salt e.now fresh k refl refl
        ∙ ap (λ y. is_some y.signature) (sym e.made) in
      ap (λ (r : Checked c). r.0) found
      ∙ check_export-valid x e.json (verify_signature c signer x)
          (ap (λ y. c.dumps_events y.events) kept ∙ e.rendered) (ap (λ y. y.content_hash) kept)
      ∙ signed

  -- If the key accepts its own signatures and base64 can be read back, the check of an export that
  -- export_session_audit has given, read where it was stored, finds it valid exactly if it bears a
  -- signature: so never without a key, nor when signing raised.
  pub export_session_audit-verified :
      (log : Log P) (query : Ordered log) (signer : AuditSigner) (events : log.Db) (db : exports.Db)
      (s user now : Text) (id : String) (salt : Text) (x : Export P) (db' : exports.Db)
      (o : Option (Export P))
      → IsSignerKey signer
      → export_session_audit c exports log query signer events db s user now id salt ≡ (some x, db')
      → exports.get db' id ≡ some o
      → (verify_export c exports signer db' id).0 ≡ is_some x.signature
  unfolding export_session_audit
  export_session_audit-verified log query signer events db s user now id salt x db' o k made
        answer =
      verify_export-Exported signer x db' id o k
        (export_found-Exported log query signer db s user now id salt x db' _ made).0 answer

  -- If a query that orders by a field leaves out the documents without it, an export of a session
  -- holds no events, whatever events the session has.
  pub export_session_audit-empty :
      (log : Log P) (query : Ordered log) (signer : AuditSigner) (events : log.Db) (db : exports.Db)
      (s user now : Text) (id : String) (salt : Text) (x : Export P) (db' : exports.Db)
      → export_session_audit c exports log query signer events db s user now id salt ≡ (some x, db')
      → (x.events ≡ []) × (x.event_count ≡ 0)
  unfolding export_session_audit new_export
  export_session_audit-empty log query signer events db s user now id salt x db' made =
      let (e, asked) = export_found-Exported log query signer db s user now id salt x db' _ made in
      let none_there =
        none_with_timestamp s e.events (query.by_field-has events s "timestamp" e.events asked) in
      let fresh = new_export c id e.now e.session_id e.user_id e.events e.json in
      let kept = ap (unsigned c) e.made ∙ sign_export-events signer e.salt e.now fresh in
      (ap (λ y. y.events) kept ∙ none_there, ap (λ y. y.event_count) kept ∙ ap length none_there)
