-- ===== src/AuditExport/Signed.antt =====
-- backend/services/audit_export_service.py: which exports `verify_export` finds valid.
use title_trust.Prelude.{
  ◌≡◌, ◌↔◌, refl, sym, ap, ◌∙◌, Bool, true, false, String, Option, none, some, if◌then◌else◌,
  if_true,
}
use title_trust.Text.{Text, text_eq}
use title_trust.Text.Fields.{text_eq_refl, text_eq→≡}
use title_trust.Firestore.{Collection}
use title_trust.AuditExport.{
  Export, Encoding, Key, AuditSigner, Signature, Checked, unsigned, verify_signature, check_text,
  check_signature, check_export, check_hash, check_found, test_result, verify_export, Refusal,
  hash_mismatch, refused,
}
use mathlib.Core.Path.{subst}
use mathlib.Core.Bool.{false≢true}
use mathlib.Core.Option.{some-injective}

module _ {P : Type 0} (c : Encoding P) where
  -- The result of a check that finds an export valid.
  abbrev pub valid : Export P → Checked c
  valid d = (true, some d, none)

  refused-valid : (e : Refusal) (d : Export P) → refused c e ≡ valid d → ⊥
  refused-valid e d h = false≢true (ap (λ (r : Checked c). r.0) h)

  test_result-none : (b : Bool) → test_result c b ≡ none → b ≡ true
  test_result-none true h = refl
  test_result-none false h = cc

  -- A signature and the text of an export, which the key's test accepts.
  pub record IsAccepted (key : Key) (d : Export P) : Type 0 where
    pub signature : Signature
    pub bytes : Text
    pub text : Text
    pub signed : d.signature ≡ some signature
    pub decoded : c.b64decode signature.signature ≡ some bytes
    pub rendered : c.dumps (unsigned c d) ≡ some text
    pub accepted : key.verify bytes text ≡ true

  check_text-none :
      (key : Key) (d : Export P) (sg : Signature) (s t : Option Text)
      → d.signature ≡ some sg
      → c.b64decode sg.signature ≡ s
      → c.dumps (unsigned c d) ≡ t
      → check_text c key s t ≡ none
      → IsAccepted key d
  check_text-none key d sg (some s) (some t) signed decoded rendered h = record {
    signature = sg;
    bytes = s;
    text = t;
    signed = signed;
    decoded = decoded;
    rendered = rendered;
    accepted = test_result-none _ h;
  }
  check_text-none key d sg (some s) none signed decoded rendered h = cc
  check_text-none key d sg none t signed decoded rendered h = cc

  check_signature-none :
      (key : Key) (d : Export P) (o : Option Signature)
      → d.signature ≡ o
      → check_signature c key d o ≡ none
      → IsAccepted key d
  check_signature-none key d none signed h = cc
  check_signature-none key d (some s) signed h = check_text-none key d s _ _ signed refl refl h

  -- The hash of an export is that of its events.
  abbrev pub IsHashed : Export P → Type 0
  IsHashed d =
      (json : Text) × (c.dumps_events d.events ≡ some json) × (c.sha256 json ≡ d.content_hash)

  tested-valid :
      (b : Bool) (x d : Export P)
      → (if b then (true, some x, none) else refused c hash_mismatch) ≡ valid d
      → (b ≡ true) × (x ≡ d)
  tested-valid true x d h = (refl, some-injective _ _ (ap (λ (r : Checked c). r.1) h))
  tested-valid false x d h = absurd (refused-valid _ d h)

  check_hash-valid :
      (x d : Export P) (o : Option Text)
      → c.dumps_events x.events ≡ o
      → check_hash c x o ≡ valid d
      → IsHashed x × (x ≡ d)
  check_hash-valid x d none json h = absurd (refused-valid _ d h)
  check_hash-valid x d (some t) json h =
      let (equal, same) = tested-valid _ x d h in
      ((t, json, text_eq→≡ (c.sha256 t) x.content_hash equal), same)

  module _ (exports : Collection (Export P)) (db : exports.Db) (id : String) where
    -- A stored export with a signature of the key on its own text and with the hash of its events.
    pub record IsAuthentic (signer : AuditSigner) (d : Export P) : Type 0 where
      pub key : Key
      pub has_key : signer ≡ some key
      pub found : exports.get db id ≡ some (some d)
      pub signature : IsAccepted key d
      pub hash : IsHashed d

    found-IsAuthentic :
        (key : Key) (x d : Export P) (o : Option Refusal)
        → exports.get db id ≡ some (some x)
        → verify_signature c (some key) x ≡ o
        → check_export c x o ≡ valid d
        → IsAuthentic (some key) d
    unfolding verify_signature
    found-IsAuthentic key x d none found checked h =
        let (hashed, same) = check_hash-valid x d _ refl h in
        subst (IsAuthentic (some key)) same (record {
          key = key;
          has_key = refl;
          found = found;
          signature = check_signature-none key x _ refl checked;
          hash = hashed;
        })
    found-IsAuthentic key x d (some e) found checked h = absurd (refused-valid e d h)

    check_found-IsAuthentic :
        (signer : AuditSigner) (d : Export P) (o : Option (Option (Export P)))
        → exports.get db id ≡ o
        → check_found c signer o ≡ valid d
        → IsAuthentic signer d
    unfolding verify_signature
    check_found-IsAuthentic signer d none found h = absurd (refused-valid _ d h)
    check_found-IsAuthentic signer d (some none) found h = absurd (refused-valid _ d h)
    check_found-IsAuthentic none d (some (some x)) found h = absurd (refused-valid _ d h)
    check_found-IsAuthentic (some key) d (some (some x)) found h =
        found-IsAuthentic key x d _ found refl h

    IsAuthentic-valid :
        (signer : AuditSigner) (d : Export P)
        → IsAuthentic signer d
        → verify_export c exports signer db id ≡ valid d
    unfolding verify_export verify_signature
    IsAuthentic-valid signer d h =
        let s = h.signature in
        let (json, rendered, equal) = h.hash in
        ap (check_found c signer) h.found
        ∙ ap (λ k. check_export c d (verify_signature c k d)) h.has_key
        ∙ ap (λ o. check_export c d (check_signature c h.key d o)) s.signed
        ∙ ap (λ o. check_export c d (check_text c h.key o (c.dumps (unsigned c d)))) s.decoded
        ∙ ap (λ o. check_export c d (check_text c h.key (some s.bytes) o)) s.rendered
        ∙ ap (λ b. check_export c d (test_result c b)) s.accepted
        ∙ ap (check_hash c d) rendered
        ∙ if_true _ _ _ (ap (text_eq (c.sha256 json)) (sym equal) ∙ text_eq_refl (c.sha256 json))

    -- `verify_export` finds an export valid exactly if it is the one that is stored under the id, a key
    -- is loaded, the export has a signature whose bytes the key's test accepts for the text of the
    -- export without its signature, and its content hash is that of its events.
    pub verify_export-IsAuthentic :
        (signer : AuditSigner) (d : Export P)
        → (verify_export c exports signer db id ≡ valid d) ↔ IsAuthentic signer d
    unfolding verify_export
    verify_export-IsAuthentic signer d =
        (check_found-IsAuthentic signer d _ refl, IsAuthentic-valid signer d)
