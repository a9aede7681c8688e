-- ===== src/Breaker/Recovery.antt =====
-- When a circuit breaker refuses calls, how it opens and how it closes again.
use title_trust.Prelude.{
  ℕ, Bool-cases, inl, inr, ◌+◌, ◌-◌, ◌/◌, ◌≤◌, ◌<◌, ◌≡◌, false, List, [], ◌∷◌, arith, leb, length,
  seconds,
}
use title_trust.Breaker.{
  closed, open_, half_open, CircuitBreakerConfig as Config, CircuitBreakerMetrics as Metrics,
  Outcome, returned, raised, error, open_error, is_open, reset_timeout_remaining, record_failure,
  call,
}

-- The time from which an open breaker lets a probe through.
abbrev reopens_at : Config → Metrics → ℕ
reopens_at c m = m.last_state_change + seconds c.recovery_timeout_seconds

module _ {ℓ} {A E : Type ℓ} (c : Config) (now later : ℕ) (func : Outcome A E) (m : Metrics) where
  -- A call before the recovery timeout of an open breaker has passed is refused: the metrics stay
  -- as they are and the error names the whole seconds left. No other call gets that error.
  pub call-open_error :
      (m.state ≡ open_
        → now < reopens_at c m
        → call c now later func m ≡ (open_error ((reopens_at c m - now) / 1_000_000), m))
      × ((r : ℕ)
          → (call c now later func m).0 ≡ open_error r
          → (m.state ≡ open_) × (now < reopens_at c m))
  unfolding call reset_timeout_remaining
  call-open_error = (λ s t. ground arith, λ r h. refused func r h)
    where
      refused :
          (f : Outcome A E) (r : ℕ)
          → (call c now later f m).0 ≡ open_error r
          → (m.state ≡ open_) × (now < reopens_at c m)
      refused (returned a) r h = ground arith
      refused (raised x e) r h = ground arith

-- Counted failures one after the other, at the times of the list.
abbrev fail_all : Config → List ℕ → Metrics → Metrics
fail_all c [] m = m
fail_all c (now ∷ rest) m = fail_all c rest (record_failure c now false m)

fail_all_open :
    (c : Config) (times : List ℕ) (m : Metrics)
    → m.state ≡ open_
    → (fail_all c times m).state ≡ open_
unfolding record_failure
fail_all_open c [] m h = h
fail_all_open c (now ∷ rest) m h =
    fail_all_open c rest (record_failure c now false m) (ground arith)

fail_all_closed :
    (c : Config) (times : List ℕ) (m : Metrics)
    → m.state ≡ closed
    → m.failure_count < c.failure_threshold
    → is_open (fail_all c times m).state ≡ leb c.failure_threshold (m.failure_count + length times)
unfolding record_failure
fail_all_closed c [] m s h = ground arith
fail_all_closed c (now ∷ rest) m s h =
    elim (Bool-cases (leb c.failure_threshold (m.failure_count + 1))) [
      | inl over ↦ ground (arith, fail_all_open c rest (record_failure c now false m))
      | inr under ↦ ground (arith, fail_all_closed c rest (record_failure c now false m))
    ]

-- From a closed breaker with no failure counted and a positive threshold, n counted failures with
-- no success between them, at any times, leave it open exactly when n reaches the threshold.
fail_all-is_open :
    (c : Config) (times : List ℕ) (m : Metrics)
    → 0 < c.failure_threshold
    → m.state ≡ closed
    → m.failure_count ≡ 0
    → is_open (fail_all c times m).state ≡ leb c.failure_threshold (length times)
fail_all-is_open c times m h s z = ground (arith, fail_all_closed c times m)

-- Calls of `func` that all return, each with the times of its start and end.
abbrev succeed_all {ℓ} : {A : Type ℓ} → Config → List (ℕ × ℕ × A) → Metrics → Metrics
succeed_all c [] m = m
succeed_all {A} c ((now, later, a) ∷ rest) m =
    succeed_all c rest (call {E = A} c now later (returned a) m).1

succeed_all_half_open {ℓ} :
    {A : Type ℓ} (c : Config) (calls : List (ℕ × ℕ × A)) (m : Metrics)
    → m.state ≡ half_open
    → 0 < length calls
    → m.success_count + length calls ≡ c.success_threshold
    → ((succeed_all c calls m).state ≡ closed) × ((succeed_all c calls m).failure_count ≡ 0)
unfolding call
succeed_all_half_open c [] m s p e = absurd (omega arith)
succeed_all_half_open {A} c ((now, later, a) ∷ []) m s p e = ground arith
succeed_all_half_open {A} c ((now, later, a) ∷ b ∷ rest) m s p e =
    succeed_all_half_open c (b ∷ rest) (call {E = A} c now later (returned a) m).1 (ground arith)
      (omega arith) (ground arith)

-- Once the recovery timeout of an open breaker has passed, `success_threshold` calls that return
-- close it, with no failure left counted, whatever else their times are.
succeed_all-closed {ℓ} :
    {A : Type ℓ} (c : Config) (now later : ℕ) (a : A) (calls : List (ℕ × ℕ × A)) (m : Metrics)
    → m.state ≡ open_
    → reopens_at c m ≤ now
    → 1 + length calls ≡ c.success_threshold
    → ((succeed_all c ((now, later, a) ∷ calls) m).state ≡ closed)
      × ((succeed_all c ((now, later, a) ∷ calls) m).failure_count ≡ 0)
unfolding call
succeed_all-closed c now later a [] m s t e = ground arith
succeed_all-closed {A} c now later a (b ∷ rest) m s t e =
    succeed_all_half_open c (b ∷ rest) (call {E = A} c now later (returned a) m).1 (ground arith)
      (omega arith) (ground arith)

-- A probe that fails puts the breaker back to open, from the time of that failure on, and its
-- exception reaches the caller.
probe_failure {ℓ} :
    {A E : Type ℓ} (c : Config) (now later : ℕ) (e : E) (m : Metrics)
    → m.state ≡ open_
    → reopens_at c m ≤ now
    → ((call {A = A} c now later (raised false e) m).0 ≡ error e)
      × ((call {A = A} c now later (raised false e) m).1.state ≡ open_)
      × ((call {A = A} c now later (raised false e) m).1.last_state_change ≡ later)
unfolding call
probe_failure c now later e m s t = ground arith
