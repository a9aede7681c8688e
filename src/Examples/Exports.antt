-- ===== src/Examples/Exports.antt =====
-- Exports of the audit events of a session, with a key and without.
use title_trust.Prelude.{◌≡◌, ◌↔◌, refl, sym, ap, ◌∙◌, true, ◌&&◌, none, some, List, [], ◌∷◌, All}
use title_trust.Text.{Text, codes, text_eq}
use title_trust.Text.Fields.{text_eq_refl}
use title_trust.Firestore.{Collection}
use title_trust.Firestore.Memory.{memory}
use title_trust.AuditLog.{AuditEvent, of_session, Occurs}
use title_trust.AuditLog.Memory.{log_in_memory, selected, All-selected, Occurs-selected}
use title_trust.AuditExport.{
  Ordered, has_field, Export, Encoding, Key, sign_export, new_export, verify_export,
  export_session_audit, verify_signature,
}
use title_trust.AuditExport.Verify.{
  IsKey, IsSignerKey, export_session_audit-verified, export_session_audit-empty,
}
use title_trust.AuditExport.Signed.{IsAuthentic, valid, verify_export-IsAuthentic}
use mathlib.Core.Path.{subst}
use mathlib.Core.Option.{some-injective}

-- Renderings of the session and of no events, and base64 that leaves a text as it is.
abbrev encoding : Encoding Text
encoding = record {
  dumps = λ x. some x.session_id;
  dumps_events = λ l. some [];
  sha256 = λ t. t;
  b64encode = λ t. t;
  b64decode = λ t. some t;
}

-- Signatures that are the text.
abbrev key : Key
key = record { sign = λ salt t. some t; verify = λ s t. text_eq s t }

abbrev exports : Collection (Export Text)
exports = memory (Export Text)

key-IsKey : IsKey encoding exports key
key-IsKey = record {
  own = λ salt t s h. ap (λ u. text_eq u t) (sym (some-injective _ _ h)) ∙ text_eq_refl t;
  decodes = λ t. refl;
}

-- The documents of a session that have a field.
abbrev query : Ordered (log_in_memory Text)
query = record {
  by_field = λ db s name. some (selected (λ e. of_session s e && has_field name e) db);
  by_field-has = λ db s name l h.
      subst (All (λ e. (of_session s e && has_field name e) ≡ true)) (some-injective _ _ h)
        (All-selected (λ e. of_session s e && has_field name e) db);
  by_field-all = λ db s name l e h has o.
      subst (Occurs e) (some-injective _ _ h)
        (Occurs-selected (λ e. of_session s e && has_field name e) db e has o);
}

abbrev logged : List (AuditEvent Text)
logged =
    record {
      session_id = codes "s";
      sequence = 1;
      event_type = codes "audit.started";
      payload = codes "{}";
      actor_id = none;
      previous_hash = [];
      event_hash = codes "h";
      created_at_epoch = 5;
    }
    ∷ []

key-IsSigner : IsSignerKey encoding exports (some key)
unfolding IsSignerKey
key-IsSigner = key-IsKey

-- What is exported of it: nothing.
abbrev exported : Export Text
exported = record {
  export_id = "export_1";
  export_timestamp = codes "now";
  exported_by = "audit_export_service";
  session_id = codes "s";
  user_id = codes "u";
  event_count = 0;
  events = [];
  manifest = record { format_version = "1.0"; audit_standard = "SOC2"; immutable = true };
  content_hash = [];
  signature =
      some
        (record { algorithm = "RSA-PSS-SHA256"; signature = codes "s"; timestamp = codes "now" });
}

exported_run :
    export_session_audit encoding exports
      (log_in_memory Text)
      query
      (some key)
      logged
      []
      (codes "s")
      (codes "u")
      (codes "now")
      "export_1"
      []
    ≡ (some exported, ("export_1", exported) ∷ [])
unfolding export_session_audit sign_export new_export
exported_run = refl

export_session_audit-verified_example :
    (verify_export encoding exports (some key) (("export_1", exported) ∷ []) "export_1").0 ≡ true
export_session_audit-verified_example =
    export_session_audit-verified encoding exports (log_in_memory Text) query (some key) logged []
      (codes "s") (codes "u") (codes "now") "export_1" [] exported (("export_1", exported) ∷ [])
      (some exported) key-IsSigner exported_run refl

export_session_audit-empty_example : (exported.events ≡ []) × (exported.event_count ≡ 0)
export_session_audit-empty_example =
    export_session_audit-empty encoding exports (log_in_memory Text) query (some key) logged []
      (codes "s") (codes "u") (codes "now") "export_1" [] exported (("export_1", exported) ∷ [])
      exported_run

-- The export that was made above is found valid, and is authentic.
exported_valid :
    verify_export encoding exports (some key) (("export_1", exported) ∷ []) "export_1"
    ≡ valid encoding exported
unfolding verify_export verify_signature
exported_valid = refl

verify_export-IsAuthentic_example :
    (verify_export encoding exports (some key) (("export_1", exported) ∷ []) "export_1"
      ≡ valid encoding exported)
    ↔ IsAuthentic encoding exports (("export_1", exported) ∷ []) "export_1" (some key) exported
verify_export-IsAuthentic_example =
    verify_export-IsAuthentic encoding exports (("export_1", exported) ∷ []) "export_1" (some key)
      exported
