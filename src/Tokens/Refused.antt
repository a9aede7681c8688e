-- ===== src/Tokens/Refused.antt =====
-- backend/repositories/token_repository.py: what `verify_and_get_token` makes of a stored token.
use title_trust.Prelude.{ℕ, ◌≡◌, refl, Bool, true, false, String, Option, none, some, if◌then◌else◌}
use title_trust.Firestore.{Collection}
use title_trust.Tokens.{TokenInfo, TokenDoc, is_before, verify_doc, verify_and_get_token}

none_always :
    (b c : Bool) → ◌≡◌ {A = Option TokenInfo} (if b then none else (if c then none else none)) none
none_always true c = refl
none_always false true = refl
none_always false false = refl

-- The comparison of a stored time with the clock raises.
verify_doc-refused :
    (sha256 : String → String) (id token : String) (now : ℕ) (d : TokenDoc)
    → verify_doc sha256 id token now d ≡ none
unfolding verify_doc is_before
verify_doc-refused sha256 id token now d = none_always _ _

pub verify_and_get_token-refused :
    (sha256 : String → String) (tokens : Collection TokenDoc) (id token : String) (now : ℕ)
    (db : tokens.Db)
    → verify_and_get_token sha256 tokens id token now db ≡ none
unfolding verify_and_get_token
verify_and_get_token-refused sha256 tokens id token now db = found (tokens.get db id)
  where
    found :
        (o : Option (Option TokenDoc))
        → elim o [
          | none ↦ none
          | some none ↦ none
          | some (some d) ↦ verify_doc sha256 id token now d
        ]
          ≡ none
    found none = refl
    found (some none) = refl
    found (some (some d)) = verify_doc-refused sha256 id token now d
