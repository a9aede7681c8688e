-- ===== src/SessionSecurity/Revoke.antt =====
-- What `revoke_session` has done when it answers true.
use title_trust.Prelude.{
  ℕ, ◌≡◌, refl, Bool, true, String, Option, none, some, [], ◌∷◌, eq_refl, arith, Bool-cases, inl,
  inr,
}
use title_trust.Firestore.{update, changed, Collection}
use title_trust.Tokens.{TokenDoc, revoke_token_family}
use title_trust.Tokens.Revocation.{AllOrNothing, revoke_token_family-all}
use title_trust.SessionSecurity.{
  SessionState, World, find_session, get_session, revoke_session, mark_revoked,
}

module _ (tokens : Collection TokenDoc) (sessions : Collection SessionState) where
  -- A session that is revoked, or cannot be read, is not handed out.
  revoked_docs :
      (now : ℕ) (reason : String) (o : Option SessionState) (s : SessionState)
      → changed (mark_revoked now reason) o ≡ some s
      → s.revoked ≡ true
  revoked_docs now reason none s e = absurd (cc e)
  revoked_docs now reason (some s') s e = ground arith

  module _ (sha256 : String → String) (id : String) where
    get_session-read :
        (w : World tokens sessions)
        → ((s : SessionState) → sessions.docs w.session_db id ≡ some s → s.revoked ≡ true)
        → get_session sha256 tokens sessions id w ≡ none
    unfolding get_session find_session
    get_session-read w h = read (sessions.get w.session_db id) refl
      where
        read :
            (o : Option (Option SessionState))
            → sessions.get w.session_db id ≡ o
            → get_session sha256 tokens sessions id w ≡ none
        read none e = rw (e, get_session, find_session)
        read (some none) e = rw (e, get_session, find_session)
        read (some (some s)) e =
            let r : s.revoked ≡ true = h s (cc (sessions.get_docs w.session_db id (some s) e)) in
            rw (e, get_session, find_session, r)

    module _ (reason : String) (now : ℕ) (w : World tokens sessions) where
      -- What the revocation of the session `s` has done.
      pub record Ended (s : SessionState) (after : World tokens sessions) : Type 0 where
        pub session_after :
            sessions.docs after.session_db id
            ≡ changed (mark_revoked now reason) (sessions.docs w.session_db id)
        pub refused : get_session sha256 tokens sessions id after ≡ none
        pub tokens_after :
            (n : ℕ) × AllOrNothing tokens s.token_family reason now w.token_db (n, after.token_db)

      marked-Ended :
          (s : SessionState) (after : World tokens sessions)
          → sessions.commit w.session_db (update id (mark_revoked now reason) ∷ [])
            ≡ some after.session_db
          → after.token_db ≡ (revoke_token_family tokens s.token_family reason now w.token_db).1
          → Ended s after
      marked-Ended s after e f =
          let docs_after : sessions.docs after.session_db id
              ≡ changed (mark_revoked now reason) (sessions.docs w.session_db id) =
            rw (sessions.docs-commit w.session_db _ after.session_db e id, eq_refl) refl in
          record {
            session_after = docs_after;
            refused = get_session-read after (λ s' g.
                revoked_docs now reason (sessions.docs w.session_db id) s' (rw docs_after at g));
            tokens_after = (
              (revoke_token_family tokens s.token_family reason now w.token_db).0,
              rw f (revoke_token_family-all tokens s.token_family reason now w.token_db),
            );
          }

      module _ (corr : String) (stored : Bool) where
        abbrev revocation : Bool × World tokens sessions
        revocation = revoke_session sha256 tokens sessions id reason corr now stored w

        -- A revocation that answers true has found the session: its document is the one before,
        -- marked revoked with the time and the reason, the session is not handed out any more, and
        -- of the tokens of its family either every active one is revoked or nothing has changed.
        -- It answers true in the last case, too.
        revoke_session-Ended :
            revocation.0 ≡ true
            → (s : SessionState) × (find_session sha256 tokens sessions id w ≡ some s)
              × Ended s revocation.1
        unfolding revoke_session
        revoke_session-Ended h = found (find_session sha256 tokens sessions id w) refl
          where
            found :
                (o : Option SessionState)
                → find_session sha256 tokens sessions id w ≡ o
                → (s : SessionState) × (find_session sha256 tokens sessions id w ≡ some s)
                  × Ended s revocation.1
            found none e = absurd (cc (rw (e, revoke_session) at h))
            found (some s) e =
                committed (sessions.commit w.session_db (update id (mark_revoked now reason) ∷ []))
                  refl
              where
                committed :
                    (o : Option sessions.Db)
                    → sessions.commit w.session_db (update id (mark_revoked now reason) ∷ []) ≡ o
                    → (s : SessionState) × (find_session sha256 tokens sessions id w ≡ some s)
                      × Ended s revocation.1
                committed none f = absurd (cc (rw (e, f, revoke_session) at h))
                committed (some db) f = elim (Bool-cases stored) [
                  | inl h₁ ↦ (s, e, rw (e, f, h₁, revoke_session) (marked-Ended s _ f refl))
                  | inr h₁ ↦ absurd (cc (rw (e, f, h₁, revoke_session) at h))
                ]
