-- ===== src/AuditLog/Memory.antt =====
-- A collection of audit events in memory, which gives what `Log` asks of the database.
use title_trust.Prelude.{
  ◌≤◌, ◌≡◌, refl, sym, ap, ◌∙◌, inl, inr, Bool, true, false, Option, none, some, List, [], ◌∷◌,
  ◌++◌, All, any, leb, leb→le, if◌then◌else◌, if-elim, if_true, if_false, All-map, Bool-cases,
  arith, ℕ,
}
use title_trust.Text.{Text, text_eq}
use title_trust.AuditLog.{AuditEvent, Log, of_session, Occurs, IsLatest, document_id}
use mathlib.Core.Bool.{true≢false}
use mathlib.Core.Option.{some-injective, none-ne-some}
use mathlib.Core.Path.{subst}

le_of_older : (l e : ℕ) → leb l e ≡ false → e ≤ l
le_of_older l e h = ground arith

module _ {P : Type 0} where
  abbrev pub later : AuditEvent P → Option (AuditEvent P) → Option (AuditEvent P)
  later e none = some e
  later e (some l) = if leb l.sequence e.sequence then some e else some l

  abbrev pub latest_of : Text → List (AuditEvent P) → Option (AuditEvent P)
  latest_of s [] = none
  latest_of s (e ∷ es) = let rest = latest_of s es in if of_session s e then later e rest else rest

  later-IsLatest :
      (s : Text) (e : AuditEvent P) (es : List (AuditEvent P)) (o : Option (AuditEvent P))
      → of_session s e ≡ true
      → IsLatest s es o
      → IsLatest s (e ∷ es) (later e o)
  unfolding IsLatest
  later-IsLatest s e es none m a = (
    inl refl,
    m,
    ((λ _. omega arith), All-map _ _ es (λ x out in_. absurd (true≢false (sym in_ ∙ out))) a),
  )
  later-IsLatest s e es (some l) m (o, ml, a) = elim (Bool-cases (leb l.sequence e.sequence)) [
    | inl newer ↦ subst (IsLatest s (e ∷ es)) (sym (if_true _ (some e) (some l) newer)) (
      inl refl,
      m,
      (
        (λ _. omega arith),
        All-map _ _ es (λ x below in_. omega (arith, below in_, leb→le _ _ newer)) a,
      ),
    )
    | inr older ↦
        subst (IsLatest s (e ∷ es)) (sym (if_false _ (some e) (some l) older))
          (inr o, ml, ((λ _. le_of_older _ _ older), a))
  ]

  other-IsLatest :
      (s : Text) (e : AuditEvent P) (es : List (AuditEvent P)) (o : Option (AuditEvent P))
      → of_session s e ≡ false
      → IsLatest s es o
      → IsLatest s (e ∷ es) o
  unfolding IsLatest
  other-IsLatest s e es none m a = (m, a)
  other-IsLatest s e es (some l) m (o, ml, a) =
      (inr o, ml, ((λ in_. absurd (true≢false (sym in_ ∙ m))), a))

  pub latest_of-IsLatest : (s : Text) (es : List (AuditEvent P)) → IsLatest s es (latest_of s es)
  unfolding IsLatest
  latest_of-IsLatest s [] = tt
  latest_of-IsLatest s (e ∷ es) =
      let rest = latest_of-IsLatest s es in
      if-elim (IsLatest s (e ∷ es)) (of_session s e) (later e (latest_of s es)) (latest_of s es)
        (λ m. later-IsLatest s e es _ m rest) (λ m. other-IsLatest s e es _ m rest)

  abbrev pub created : List (AuditEvent P) → Text → AuditEvent P → Option (List (AuditEvent P))
  created db id e =
      if any (λ x. text_eq (document_id x.session_id x.sequence) id) db
      then none
      else some (db ++ e ∷ [])

  pub created-some :
      (b : Bool) (es db' : List (AuditEvent P))
      → (if b then none else some es) ≡ some db'
      → db' ≡ es
  created-some true es db' h = absurd (none-ne-some _ h)
  created-some false es db' h = sym (some-injective _ _ h)

module _ {P : Type 0} (p : AuditEvent P → Bool) where
  abbrev pub selected : List (AuditEvent P) → List (AuditEvent P)
  selected [] = []
  selected (e ∷ es) = if p e then e ∷ selected es else selected es

  pub All-selected : (es : List (AuditEvent P)) → All (λ e. p e ≡ true) (selected es)
  All-selected [] = tt
  All-selected (e ∷ es) =
      if-elim (All (λ x. p x ≡ true)) (p e) (e ∷ selected es) (selected es)
        (λ h. (h, All-selected es)) (λ _. All-selected es)

  pub Occurs-selected :
      (es : List (AuditEvent P)) (e : AuditEvent P)
      → p e ≡ true
      → Occurs e es
      → Occurs e (selected es)
  Occurs-selected [] e h o = o
  Occurs-selected (x ∷ es) e h (inl same) =
      if-elim (Occurs e) (p x) (x ∷ selected es) (selected es) (λ _. inl same)
        (λ out. absurd (true≢false (sym h ∙ ap p (sym same) ∙ out)))
  Occurs-selected (x ∷ es) e h (inr o) =
      let rest = Occurs-selected es e h o in
      if-elim (Occurs e) (p x) (x ∷ selected es) (selected es) (λ _. inr rest) (λ _. rest)

abbrev pub log_in_memory : (P : Type 0) → Log P
log_in_memory P = record {
  Db = List (AuditEvent P);
  events = λ db. db;
  latest = λ db s. some (latest_of s db);
  create = created;
  latest-IsLatest =
      λ db s o e. subst (IsLatest s db) (some-injective _ _ e) (latest_of-IsLatest s db);
  events-create = λ db id e db' h. created-some _ _ db' h;
}
