-- ===== src/Tokens/Revocation.antt =====
-- What the revocation of a token family leaves.
use title_trust.Prelude.{
  ℕ, ◌≡◌, ◌∙◌, sym, ap, refl, Bool, true, false, ◌&&◌, String, Option, none, some, List, [], ◌∷◌,
  map, length, if◌then◌else◌, arith, is_some, ◌⊎◌, inl, inr,
}
use title_trust.Firestore.{
  Write, update, changed, keep, assoc, apply_write, apply_writes, Docs, Collection,
}
use title_trust.Tokens.{TokenDoc, is_active, in_family, mark_revoked, caught, revoke_token_family}

-- One update for each document of a query: those it names are changed, once or more often.
abbrev updates : {D : Type 0} → (D → D) → List (String × D) → List (Write D)
updates f l = map (λ (x : String × _). update x.0 f) l

changed-changed :
    {D : Type 0} (f : D → D) (o : Option D)
    → ((d : D) → f (f d) ≡ f d)
    → changed f (changed f o) ≡ changed f o
changed-changed f none idem = refl
changed-changed f (some d) idem = ap some (idem d)

apply-updates :
    {D : Type 0} (f : D → D) (l : List (String × D)) (docs : Docs D) (j : String)
    → ((d : D) → f (f d) ≡ f d)
    → apply_writes (updates f l) docs j
      ≡ (if is_some (assoc j l) then changed f (docs j) else docs j)
apply-updates f [] docs j idem = refl
apply-updates f ((id, d) ∷ l) docs j idem =
    apply-updates f l (apply_write (update id f) docs) j idem
    ∙ ground (arith, changed-changed f (docs j) idem)

-- What a revocation makes of a document: an active token of the family is revoked.
abbrev revoked_in : String → String → ℕ → Option TokenDoc → Option TokenDoc
revoked_in family reason now none = none
revoked_in family reason now (some d) =
    if in_family family d && is_active d.status then some (mark_revoked now reason d) else some d

module _ (tokens : Collection TokenDoc) where
  open tokens use {Db, get, commit, stream, docs, docs-commit, assoc-stream}

  abbrev query : String → TokenDoc → Bool
  query family d = in_family family d && is_active d.status

  revoked_docs :
      (family reason : String) (now : ℕ) (o : Option TokenDoc)
      → (if is_some (keep (query family) o) then changed (mark_revoked now reason) o else o)
        ≡ revoked_in family reason now o
  revoked_docs family reason now none = refl
  revoked_docs family reason now (some d) = ground arith

  revoked_in-inactive :
      (family reason : String) (now : ℕ) (o : Option TokenDoc) (d : TokenDoc)
      → revoked_in family reason now o ≡ some d
      → in_family family d ≡ true
      → is_active d.status ≡ false
  revoked_in-inactive family reason now none d e f = cc
  revoked_in-inactive family reason now (some d') d e f = ground arith

  committed :
      (family reason : String) (now : ℕ) (db db' : Db) (found : List (String × TokenDoc))
      → stream db (query family) ≡ some found
      → commit db (updates (mark_revoked now reason) found) ≡ some db'
      → (j : String) → docs db' j ≡ revoked_in family reason now (docs db j)
  committed family reason now db db' found q c j =
      docs-commit db (updates (mark_revoked now reason) found) db' c j
      ∙ apply-updates (mark_revoked now reason) found (docs db) j (λ d. refl)
      ∙ rw (assoc-stream db (query family) found q j) (revoked_docs family reason now (docs db j))

  -- A call of the database raised: the query, or the commit of the revocations that it asks for.
  abbrev pub IsFailed : String → String → ℕ → Db → Type 0
  IsFailed family reason now db =
      (stream db (query family) ≡ none)
      ⊎ ((found : List (String × TokenDoc)) × (stream db (query family) ≡ some found)
          × (commit db (updates (mark_revoked now reason) found) ≡ none))

  -- All or nothing, of the answer and the database after it.
  pub record Revoked (family reason : String) (now : ℕ) (db db' : Db) : Type 0 where
    pub exactly : (j : String) → docs db' j ≡ revoked_in family reason now (docs db j)
    pub no_active :
        (j : String) (d : TokenDoc)
        → docs db' j ≡ some d
        → in_family family d ≡ true
        → is_active d.status ≡ false

  abbrev pub AllOrNothing : String → String → ℕ → Db → ℕ × Db → Type 0
  AllOrNothing family reason now db result =
      (IsFailed family reason now db × (result ≡ (0, db))) ⊎ Revoked family reason now db result.1

  caught-AllOrNothing :
      (family reason : String) (now : ℕ) (db : Db) (found : List (String × TokenDoc))
      (o : Option Db)
      → stream db (query family) ≡ some found
      → commit db (updates (mark_revoked now reason) found) ≡ o
      → AllOrNothing family reason now db (caught db (length found) 0 o)
  caught-AllOrNothing family reason now db found none q c = inl (inr (found, q, c), refl)
  caught-AllOrNothing family reason now db found (some db') q c =
      let exact = committed family reason now db db' found q c in
      inr (record {
        exactly = exact;
        no_active =
            λ j d e f. revoked_in-inactive family reason now (docs db j) d (sym (exact j) ∙ e) f;
      })

  -- The revocation of a token family is all or nothing. Either the query or the commit of the
  -- database raised: the answer is 0 and nothing has changed. Or every token of the family that was active is revoked,
  -- with the time and the reason, every other document is as it was, and no token of the family
  -- is active any more.
  pub revoke_token_family-all :
      (family reason : String) (now : ℕ) (db : Db)
      → AllOrNothing family reason now db (revoke_token_family tokens family reason now db)
  unfolding revoke_token_family
  revoke_token_family-all family reason now db = queried (stream db (query family)) refl
    where
      queried :
          (o : Option (List (String × TokenDoc)))
          → stream db (query family) ≡ o
          → AllOrNothing family reason now db (elim o [
            | none ↦ (0, db)
            | some found ↦
                caught db (length found) 0 (commit db (updates (mark_revoked now reason) found))
          ])
      queried none q = inl (inl q, refl)
      queried (some found) q = caught-AllOrNothing family reason now db found _ q refl
