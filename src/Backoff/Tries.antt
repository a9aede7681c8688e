-- ===== src/Backoff/Tries.antt =====
-- How often a function is tried and how long the waits are.
use title_trust.Prelude.{
  ℕ, zero, suc, ◌+◌, ◌*◌, ◌^◌, ◌≤◌, ◌<◌, ◌≡◌, refl, Bool, true, false, length, All, arith,
  Bool-cases, inl, inr, ap, ◌==◌, ==_iff,
}
use native.Mathlib.Nat.{mul-le-mul}
use title_trust.Backoff.{
  BackoffConfig, Attempt, succeeded, failed, delay, tries, exponential_backoff,
}

abbrev is_success {ℓ} : {A E : Type ℓ} → Attempt A E → Bool
is_success (succeeded a) = true
is_success (failed e) = false

module _ {ℓ} {A E : Type ℓ} (c : BackoffConfig) (func : ℕ → Attempt A E) (draws : ℕ → ℕ) where
  -- A run from an attempt on, with retries left, which gave `r` and waited `n` times.
  pub record Tried (left attempt : ℕ) (r : Attempt A E) (n : ℕ) : Type ℓ where
    pub limited : n ≤ left
    pub answer : r ≡ func (attempt + n)
    pub before : (j : ℕ) → attempt ≤ j → j < attempt + n → is_success (func j) ≡ false
    pub exhausted : n < left → is_success (func (attempt + n)) ≡ true

  Tried-first :
      (left attempt : ℕ) (r : Attempt A E)
      → func attempt ≡ r
      → is_success r ≡ true
      → Tried left attempt r 0
  Tried-first left attempt r e h =
      let same : attempt + 0 ≡ attempt = omega arith in
      record {
        limited = omega arith;
        answer = rw (same, e) refl;
        before = λ j k l. absurd (omega (arith, k, l));
        exhausted = λ l. rw (same, e, h) refl;
      }

  Tried-last : (attempt : ℕ) → Tried 0 attempt (func attempt) 0
  Tried-last attempt = record {
    limited = omega arith;
    answer = ap func (omega arith);
    before = λ j k l. absurd (omega (arith, k, l));
    exhausted = λ l. absurd (omega (arith, l));
  }

  Tried-next :
      (left attempt n : ℕ) (r : Attempt A E)
      → is_success (func attempt) ≡ false
      → Tried left (attempt + 1) r n
      → Tried (suc left) attempt r (suc n)
  Tried-next left attempt n r h t =
      let same : attempt + suc n ≡ attempt + 1 + n = omega arith in
      record {
        limited = omega (arith, t.limited);
        answer = rw same t.answer;
        before = λ j k l. elim (Bool-cases (j == attempt)) [
          | inl e ↦ rw ((==_iff j attempt).0 e) h
          | inr e ↦ t.before j (ground arith) (omega (arith, l))
        ];
        exhausted = λ l. rw same (t.exhausted (omega (arith, l)));
      }

  tries-Tried :
      (left attempt : ℕ)
      → Tried left attempt
          (tries c func draws left attempt).0
          (length (tries c func draws left attempt).1)
  unfolding tries
  tries-Tried zero attempt = Tried-last attempt
  tries-Tried (suc left) attempt = called (func attempt) refl (tries-Tried left (attempt + 1))
    where
      called :
          (o : Attempt A E)
          → func attempt ≡ o
          → Tried left
              (attempt + 1)
              (tries c func draws left (attempt + 1)).0
              (length (tries c func draws left (attempt + 1)).1)
          → Tried
              (suc left)
              attempt
              (tries c func draws (suc left) attempt).0
              (length (tries c func draws (suc left) attempt).1)
      called (succeeded a) e t = rw (e, tries) (Tried-first (suc left) attempt (succeeded a) e refl)
      called (failed x) e t = rw (e, tries) (Tried-next left attempt _ _ (rw e refl) t)

  -- The wrapper makes at most `max_retries` retries, one after each wait. Its answer is that of
  -- the last attempt, every attempt before that one failed, and where retries are left over the
  -- last attempt succeeded.
  pub exponential_backoff-Tried :
      Tried c.max_retries 0
        (exponential_backoff c func draws).0
        (length (exponential_backoff c func draws).1)
  unfolding exponential_backoff
  exponential_backoff-Tried = tries-Tried c.max_retries 0

  -- A wait is at most this long, if the random number is below 1.
  abbrev longest : ℕ
  longest = c.max_delay * (2 ^ 52 + 2 ^ 53)

  delay-le-longest : (attempt draw : ℕ) → draw < 2 ^ 53 → delay c attempt draw ≤ longest
  unfolding delay
  delay-le-longest attempt draw h = elim (Bool-cases c.jitter) [
    | inl j ↦ rw j (mul-le-mul (omega arith) (omega arith))
    | inr j ↦ rw j (mul-le-mul (omega arith) (omega arith))
  ]

  tries-All :
      (left attempt : ℕ)
      → ((i : ℕ) → draws i < 2 ^ 53)
      → All (λ d. d ≤ longest) (tries c func draws left attempt).1
  unfolding tries
  tries-All zero attempt h = tt
  tries-All (suc left) attempt h = called (func attempt) refl (tries-All left (attempt + 1) h)
    where
      called :
          (o : Attempt A E)
          → func attempt ≡ o
          → All (λ d. d ≤ longest) (tries c func draws left (attempt + 1)).1
          → All (λ d. d ≤ longest) (tries c func draws (suc left) attempt).1
      called (succeeded a) e t = rw (e, tries) tt
      called (failed x) e t =
          rw (e, tries) (delay-le-longest attempt (draws attempt) (h attempt), t)

  -- If each random number is below 1, no wait is longer than one and a half times `max_delay`.
  exponential_backoff-All :
      ((i : ℕ) → draws i < 2 ^ 53) → All (λ d. d ≤ longest) (exponential_backoff c func draws).1
  unfolding exponential_backoff
  exponential_backoff-All h = tries-All c.max_retries 0 h
