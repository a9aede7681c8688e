-- ===== src/AuditLog/Chain.antt =====
-- backend/repositories/audit_event_repository.py: the events of a session are a chain.
use title_trust.Prelude.{
  ℕ, ◌+◌, ◌≤◌, ◌≡◌, refl, sym, ap, ◌∙◌, inl, inr, true, false, Option, none, some, List, [], ◌∷◌,
  ◌++◌, All, arith, if◌then◌else◌, if_false, if-elim, >>=-some,
}
use title_trust.Text.{Text}
use title_trust.Text.Fields.{text_eq→≡}
use title_trust.AuditLog.{
  AuditEvent, Hashing, Log, Entry, of_session, Occurs, IsLatest, hashed_text, hash_of,
  next_sequence, next_event, append, append_all, after_append,
}
use mathlib.Core.Path.{subst}
use mathlib.Core.List.{append-nil}
use mathlib.Core.Bool.{true≢false}

module _ {P : Type 0} where
  -- The events of a session, in order.
  abbrev pub trail : Text → List (AuditEvent P) → List (AuditEvent P)
  trail s [] = []
  trail s (e ∷ es) = if of_session s e then e ∷ trail s es else trail s es

  trail-append :
      (s : Text) (es : List (AuditEvent P)) (e : AuditEvent P)
      → trail s (es ++ e ∷ []) ≡ trail s es ++ trail s (e ∷ [])
  trail-append s [] e = refl
  trail-append s (x ∷ es) e = ground (arith, trail-append s es e)

module _ {P : Type 0} (h : Hashing P) where
  -- The events number on from `n` and chain on from the hash `prev`.
  abbrev pub IsChain : Text → ℕ → Text → List (AuditEvent P) → Type 0
  IsChain s n prev [] = Unit {0}
  IsChain s n prev (e ∷ es) =
      (e.session_id ≡ s)
      × (e.sequence ≡ n + 1)
      × (e.previous_hash ≡ prev)
      × (e.event_hash
          ≡ h.sha256 (hashed_text h s e.sequence e.event_type e.actor_id prev e.payload))
      × IsChain s (n + 1) e.event_hash es

  -- Where a chain ends: its last number and its last hash.
  abbrev pub final : ℕ → Text → List (AuditEvent P) → ℕ × Text
  final n prev [] = (n, prev)
  final n prev (e ∷ es) = final (n + 1) e.event_hash es

  IsChain-append :
      (s : Text) (n : ℕ) (prev : Text) (es : List (AuditEvent P)) (e : AuditEvent P)
      → IsChain s n prev es
      → IsChain s (final n prev es).0 (final n prev es).1 (e ∷ [])
      → IsChain s n prev (es ++ e ∷ [])
  IsChain-append s n prev [] e c last = last
  IsChain-append s n prev (x ∷ es) e (a, b, d, f, c) last =
      (a, b, d, f, IsChain-append s (n + 1) x.event_hash es e c last)

  pub le-final :
      (s : Text) (n : ℕ) (prev : Text) (es : List (AuditEvent P)) → n ≤ (final n prev es).0
  le-final s n prev [] = omega arith
  le-final s n prev (x ∷ es) = omega (arith, le-final s (n + 1) x.event_hash es)

  -- An event with the greatest number of a chain is its last.
  greatest-final :
      (s : Text) (n : ℕ) (prev : Text) (es : List (AuditEvent P)) (l : AuditEvent P)
      → IsChain s n prev es
      → Occurs l es
      → All (λ e. e.sequence ≤ l.sequence) es
      → (l.sequence ≡ (final n prev es).0) × (l.event_hash ≡ (final n prev es).1)
  greatest-final s n prev [] l c o g = absurd o
  greatest-final s n prev (x ∷ []) l (_, number, _, _, _) (inl same) g =
      (ap (λ e. e.sequence) (sym same) ∙ number, ap (λ e. e.event_hash) (sym same))
  greatest-final s n prev (x ∷ []) l c (inr o) g = absurd o
  greatest-final s n prev (x ∷ y ∷ es) l (_, number, _, _, (_, next, _, _, _)) (inl same)
        (_, (below, _)) =
      absurd (omega (arith, number, next, below, ap (λ e. e.sequence) same))
  greatest-final s n prev (x ∷ y ∷ es) l (_, _, _, _, c) (inr o) (_, g) =
      greatest-final s (n + 1) x.event_hash (y ∷ es) l c o g

  Occurs-trail :
      (s : Text) (es : List (AuditEvent P)) (l : AuditEvent P)
      → of_session s l ≡ true
      → Occurs l es
      → Occurs l (trail s es)
  Occurs-trail s [] l m o = absurd o
  Occurs-trail s (x ∷ es) l m (inl same) =
      if-elim (Occurs l) (of_session s x) _ _ (λ _. inl same)
        (λ f. absurd (true≢false (sym m ∙ ap (of_session s) (sym same) ∙ f)))
  Occurs-trail s (x ∷ es) l m (inr o) =
      let rest = Occurs-trail s es l m o in
      if-elim (Occurs l) (of_session s x) _ _ (λ _. inr rest) (λ _. rest)

  -- What a property of the events of a session says of its trail.
  All-trail :
      (Q : AuditEvent P → Type 0) (s : Text) (es : List (AuditEvent P))
      → All (λ e. of_session s e ≡ true → Q e) es
      → All Q (trail s es)
  All-trail Q s [] a = tt
  All-trail Q s (x ∷ es) (q, a) =
      let rest = All-trail Q s es a in
      if-elim (All Q) (of_session s x) _ _ (λ m. (q m, rest)) (λ _. rest)

  trail-none :
      (s : Text) (es : List (AuditEvent P)) → All (λ e. of_session s e ≡ false) es → trail s es ≡ []
  trail-none s [] a = refl
  trail-none s (x ∷ es) (other, a) = if_false _ _ _ other ∙ trail-none s es a

  -- The latest event of a session gives the number and the hash with which its chain ends.
  latest-final :
      (s : Text) (es : List (AuditEvent P)) (o : Option (AuditEvent P))
      → IsLatest s es o
      → IsChain s 0 [] (trail s es)
      → (next_sequence o ≡ (final 0 [] (trail s es)).0 + 1)
        × (hash_of o ≡ (final 0 [] (trail s es)).1)
  unfolding IsLatest
  latest-final s es none a c =
      let empty = trail-none s es a in
      (ap (λ t. (final 0 [] t).0 + 1) (sym empty), ap (λ t. (final 0 [] t).1) (sym empty))
  latest-final s es (some l) (o, m, a) c =
      let (number, hash) =
        greatest-final s 0 [] (trail s es) l c (Occurs-trail s es l m o) (All-trail _ s es a) in
      (ap (λ n. n + 1) number, hash)

  abbrev follows : Option (AuditEvent P) → Entry P → AuditEvent P
  follows o c = next_event h o c.session_id c.event_type c.payload c.actor_id c.now

  -- Every session has a chain.
  abbrev pub IsSound : List (AuditEvent P) → Type 0
  IsSound es = (s : Text) → IsChain s 0 [] (trail s es)

  IsChain-next :
      (es : List (AuditEvent P)) (o : Option (AuditEvent P)) (c : Entry P)
      → IsSound es
      → IsLatest c.session_id es o
      → IsChain c.session_id 0 [] (trail c.session_id es ++ follows o c ∷ [])
  unfolding next_event
  IsChain-next es o c sound latest =
      let s = c.session_id in
      let (number, hash) = latest-final s es o latest (sound s) in
      IsChain-append s 0 [] (trail s es) (follows o c) (sound s) (
        refl,
        number,
        hash,
        ap (λ t. h.sha256 (hashed_text h s (next_sequence o) c.event_type c.actor_id t c.payload))
            hash,
        tt,
      )

  IsSound-next :
      (es : List (AuditEvent P)) (o : Option (AuditEvent P)) (c : Entry P)
      → IsSound es
      → IsLatest c.session_id es o
      → IsSound (es ++ follows o c ∷ [])
  unfolding next_event
  IsSound-next es o c sound latest s =
      let e = follows o c in
      subst (IsChain s 0 []) (sym (trail-append s es e)) (
        if-elim (λ t. IsChain s 0 [] (trail s es ++ t)) (of_session s e) (e ∷ []) []
          (λ m.
            subst (λ t. IsChain t 0 [] (trail t es ++ e ∷ [])) (text_eq→≡ _ _ m)
              (IsChain-next es o c sound latest))
          (λ _. subst (IsChain s 0 []) (sym (append-nil (trail s es))) (sound s)))

  IsSound-result :
      (log : Log P) (db : log.Db) (c : Entry P) (r : Option (Text × log.Db))
      → append h log db c.session_id c.event_type c.payload c.actor_id c.now ≡ r
      → IsSound (log.events db)
      → IsSound (log.events (after_append h log db r))
  unfolding append
  IsSound-result log db c none made sound = sound
  IsSound-result log db c (some (t, db')) made sound =
      let (o, found, made') = >>=-some _ _ made in
      let (db'', created, same) = >>=-some _ _ made' in
      let grown = log.events-create db _ _ db'' created in
      let new = ap (λ r. log.events (after_append h log db r)) same in
      subst IsSound (sym grown ∙ new)
        (IsSound-next (log.events db) o c sound (log.latest-IsLatest db c.session_id o found))

  IsSound-append_all :
      (log : Log P) (db : log.Db) (cs : List (Entry P))
      → IsSound (log.events db)
      → IsSound (log.events (append_all h log db cs))
  unfolding append_all
  IsSound-append_all log db [] sound = sound
  IsSound-append_all log db (c ∷ cs) sound =
      IsSound-append_all log
        (after_append h log db
          (append h log db c.session_id c.event_type c.payload c.actor_id c.now))
        cs (IsSound-result log db c _ refl sound)

  -- After any calls of `append` on an empty log, for any sessions and with calls that raise among
  -- them, the events of each session are numbered from 1 and each holds the hash of the one before.
  pub append_all-IsSound :
      (log : Log P) (db : log.Db) (cs : List (Entry P))
      → log.events db ≡ []
      → IsSound (log.events (append_all h log db cs))
  append_all-IsSound log db cs empty =
      IsSound-append_all log db cs (subst IsSound (sym empty) (λ s. tt))
