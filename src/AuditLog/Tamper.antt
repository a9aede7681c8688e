-- ===== src/AuditLog/Tamper.antt =====
-- backend/repositories/audit_event_repository.py: what the last hash of a session says of its events.
use title_trust.Prelude.{
  ℕ, ◌+◌, ◌≡◌, ◌≢◌, refl, ◌⊎◌, sym, ap, ◌∙◌, inl, inr, Bool-cases, List, [], ◌∷◌, All, arith,
}
use title_trust.Text.{Text, text_eq}
use title_trust.Text.Fields.{
  text_eq→≡, text_eq_refl, IsFree, field_unique, decimal-injective, IsFree-decimal,
}
use title_trust.AuditLog.{AuditEvent, Hashing, hashed_text, or_empty, Occurs}
use title_trust.AuditLog.Chain.{IsChain, final, le-final}
use mathlib.Core.Bool.{true≢false}
use mathlib.Core.Path.{subst}
use mathlib.Core.List.{append_cancel_left, tail-eq_of_cons-eq}

-- What a hash fixes of an event: its number, its type, its actor and its payload.
pub record IsSame {P : Type 0} (h : Hashing P) (e f : AuditEvent P) : Type 0 where
  pub sequence : e.sequence ≡ f.sequence
  pub event_type : e.event_type ≡ f.event_type
  pub actor : or_empty e.actor_id ≡ or_empty f.actor_id
  pub payload : h.canonical e.payload ≡ h.canonical f.payload

-- The fields in front of the payload contain no colon.
pub record IsPlain {P : Type 0} (e : AuditEvent P) : Type 0 where
  pub event_type : IsFree b':' e.event_type
  pub actor : IsFree b':' (or_empty e.actor_id)

module _ {P : Type 0} (h : Hashing P) where
  hashed_text-injective :
      (s : Text) (e f : AuditEvent P) (p q : Text)
      → IsPlain e
      → IsPlain f
      → IsFree b':' p
      → IsFree b':' q
      → hashed_text h s e.sequence e.event_type e.actor_id p e.payload
        ≡ hashed_text h s f.sequence f.event_type f.actor_id q f.payload
      → IsSame h e f × (p ≡ q)
  unfolding hashed_text
  hashed_text-injective s e f p q he hf hp hq same =
      let sep : ℕ = b':' in
      let tail = tail-eq_of_cons-eq (append_cancel_left s _ _ same) in
      let (number, tail1) =
        field_unique sep _ _ _ _ (IsFree-decimal sep e.sequence (inr (omega arith)))
          (IsFree-decimal sep f.sequence (inr (omega arith))) tail in
      let (event, tail2) = field_unique sep _ _ _ _ he.event_type hf.event_type tail1 in
      let (who, tail3) = field_unique sep _ _ _ _ he.actor hf.actor tail2 in
      let (previous, rest) = field_unique sep _ _ _ _ hp hq tail3 in
      (
        record {
          sequence = decimal-injective _ _ number;
          event_type = event;
          actor = who;
          payload = rest;
        },
        previous,
      )

  -- The events have the same contents, one by one.
  abbrev pub IsSameTrail : List (AuditEvent P) → List (AuditEvent P) → Type 0
  IsSameTrail [] [] = Unit {0}
  IsSameTrail [] (f ∷ fs) = ⊥
  IsSameTrail (e ∷ es) [] = ⊥
  IsSameTrail (e ∷ es) (f ∷ fs) = IsSame h e f × IsSameTrail es fs

  -- The text that has been hashed for an event.
  abbrev pub text_of : Text → AuditEvent P → Text
  text_of s e = hashed_text h s e.sequence e.event_type e.actor_id e.previous_hash e.payload

  -- The texts of two events differ and have the same digest.
  abbrev pub Collides : Text → AuditEvent P → AuditEvent P → Type 0
  Collides s e f = (text_of s e ≢ text_of s f) × (h.sha256 (text_of s e) ≡ h.sha256 (text_of s f))

  -- An event of the one chain and an event of the other do.
  pub record Collision (s : Text) (es fs : List (AuditEvent P)) : Type 0 where
    pub left : AuditEvent P
    pub right : AuditEvent P
    pub left_occurs : Occurs left es
    pub right_occurs : Occurs right fs
    pub collides : Collides s left right

  Collision-later :
      (s : Text) (e f : AuditEvent P) (es fs : List (AuditEvent P))
      → Collision s es fs
      → Collision s (e ∷ es) (f ∷ fs)
  Collision-later s e f es fs k = record {
    left = k.left;
    right = k.right;
    left_occurs = inr k.left_occurs;
    right_occurs = inr k.right_occurs;
    collides = k.collides;
  }

  -- An event with the digest of its text and with a link that contains no colon.
  record IsSealed (s : Text) (e : AuditEvent P) : Type 0 where
    pub plain : IsPlain e
    pub link : IsFree b':' e.previous_hash
    pub hash : e.event_hash ≡ h.sha256 (text_of s e)

  IsSealed-head :
      (s : Text) (n : ℕ) (p : Text) (e : AuditEvent P) (es : List (AuditEvent P))
      → IsPlain e
      → IsFree b':' p
      → IsChain h s n p (e ∷ es)
      → IsSealed s e
  IsSealed-head s n p e es plain free (_, _, linked, hashed, _) = record {
    plain = plain;
    link = subst (IsFree b':') (sym linked) free;
    hash =
        hashed
        ∙ ap (λ q. h.sha256 (hashed_text h s e.sequence e.event_type e.actor_id q e.payload))
            (sym linked);
  }

  -- Events with the same hash, or else a collision.
  IsSealed-IsSame :
      (s : Text) (e f : AuditEvent P)
      → IsSealed s e
      → IsSealed s f
      → e.event_hash ≡ f.event_hash
      → (IsSame h e f × (e.previous_hash ≡ f.previous_hash)) ⊎ Collides s e f
  IsSealed-IsSame s e f he hf equal =
      let digests = sym he.hash ∙ equal ∙ hf.hash in
      elim (Bool-cases (text_eq (text_of s e) (text_of s f))) [
        | inl holds ↦ inl (
            hashed_text-injective s e f _ _ he.plain hf.plain he.link hf.link
              (text_eq→≡ (text_of s e) (text_of s f) holds))
        | inr fails ↦ inr (
          (λ p. true≢false (
              sym (text_eq_refl (text_of s f))
              ∙ ap (λ x. text_eq x (text_of s f)) (sym p)
              ∙ fails)),
          digests,
        )
      ]

  module _ (hex : (t : Text) → IsFree b':' (h.sha256 t)) (s : Text) where
    -- Chains of events that number on alike and end in the same hash.
    IsSameTrail-chain :
        (n : ℕ) (p q : Text) (es fs : List (AuditEvent P))
        → All IsPlain es
        → All IsPlain fs
        → IsFree b':' p
        → IsFree b':' q
        → IsChain h s n p es
        → IsChain h s n q fs
        → (final h n p es).0 ≡ (final h n q fs).0
        → (final h n p es).1 ≡ (final h n q fs).1
        → (IsSameTrail es fs × (p ≡ q)) ⊎ Collision s es fs
    IsSameTrail-chain n p q [] [] _ _ _ _ _ _ numbers hashes = inl (tt, hashes)
    IsSameTrail-chain n p q [] (f ∷ fs) _ _ _ _ _ c numbers hashes =
        absurd (omega (arith, numbers, le-final h s (n + 1) f.event_hash fs))
    IsSameTrail-chain n p q (e ∷ es) [] _ _ _ _ c _ numbers hashes =
        absurd (omega (arith, numbers, le-final h s (n + 1) e.event_hash es))
    IsSameTrail-chain n p q (e ∷ es) (f ∷ fs) (pe, pes) (pf, pfs) hp hq (ie, ne, le, he, ce)
          (if_, nf, lf, hf, cf) numbers hashes =
        elim (IsSameTrail-chain (n + 1) e.event_hash f.event_hash es fs pes pfs
          (subst (IsFree b':') (sym he) (hex _)) (subst (IsFree b':') (sym hf) (hex _)) ce cf
          numbers hashes) [
            | inr found ↦ inr (Collision-later s e f es fs found)
            | inl (rest, linked) ↦
                elim (IsSealed-IsSame s e f (IsSealed-head s n p e es pe hp (ie, ne, le, he, ce))
                  (IsSealed-head s n q f fs pf hq (if_, nf, lf, hf, cf)) linked) [
                    | inr collides ↦ inr (record {
                      left = e;
                      right = f;
                      left_occurs = inl refl;
                      right_occurs = inl refl;
                      collides = collides;
                    })
                    | inl (same, previous) ↦ inl ((same, rest), sym le ∙ previous ∙ lf)
                  ]
          ]

    -- The last event of a chain.
    last-IsSealed :
        (n : ℕ) (p : Text) (e : AuditEvent P) (es : List (AuditEvent P))
        → All IsPlain (e ∷ es)
        → IsFree b':' p
        → IsChain h s n p (e ∷ es)
        → (l : AuditEvent P) × Occurs l (e ∷ es)
          × IsSealed s l
          × (l.sequence ≡ (final h n p (e ∷ es)).0)
          × (l.event_hash ≡ (final h n p (e ∷ es)).1)
    last-IsSealed n p e [] (pe, _) hp c = (e, inl refl, IsSealed-head s n p e [] pe hp c, c.1, refl)
    last-IsSealed n p e (e' ∷ es) (_, pes) hp (_, _, _, he, c) =
        let (l, o, sealed, number, hash) =
          last-IsSealed (n + 1) e.event_hash e' es pes (subst (IsFree b':') (sym he) (hex _)) c in
        (l, inr o, sealed, number, hash)

    -- If a digest contains no colon, two chains of events of a session, with no colon in a type or an
    -- actor, that end in the same hash either have the same events, as far as a hash tells them apart
    -- - the same number of them, each with the same number, the same type, the same canonical rendering
    -- of its payload and the same actor, where a missing actor counts as an empty one - or the texts
    -- hashed for an event of the one and an event of the other differ and have the same digest.
    pub final-IsSameTrail :
        (e f : AuditEvent P) (es fs : List (AuditEvent P))
        → All IsPlain (e ∷ es)
        → All IsPlain (f ∷ fs)
        → IsChain h s 0 [] (e ∷ es)
        → IsChain h s 0 [] (f ∷ fs)
        → (final h 0 [] (e ∷ es)).1 ≡ (final h 0 [] (f ∷ fs)).1
        → IsSameTrail (e ∷ es) (f ∷ fs) ⊎ Collision s (e ∷ es) (f ∷ fs)
    final-IsSameTrail e f es fs pe pf ce cf hashes =
        let (l, lo, hl, nl, el) = last-IsSealed 0 [] e es pe tt ce in
        let (m, mo, hm, nm, em) = last-IsSealed 0 [] f fs pf tt cf in
        elim (IsSealed-IsSame s l m hl hm (el ∙ hashes ∙ sym em)) [
          | inr collides ↦ inr (record {
            left = l;
            right = m;
            left_occurs = lo;
            right_occurs = mo;
            collides = collides;
          })
          | inl (same, _) ↦
              elim (IsSameTrail-chain 0 [] [] (e ∷ es) (f ∷ fs) pe pf tt tt ce cf
                (sym nl ∙ same.sequence ∙ nm) hashes) [
                  | inr found ↦ inr found
                  | inl (trail, _) ↦ inl trail
                ]
        ]
