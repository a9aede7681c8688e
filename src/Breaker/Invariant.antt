-- ===== src/Breaker/Invariant.antt =====
-- What holds of a circuit breaker between any two of its steps, also when calls overlap.
use title_trust.Prelude.{ℕ, ◌+◌, ◌<◌, ◌≡◌, Bool, arith}
use title_trust.Breaker.{
  closed, half_open, CircuitBreakerConfig as Config, CircuitBreakerMetrics as Metrics, new, admit,
  record_success, record_failure,
}

pub record Inv (c : Config) (m : Metrics) : Type 0 where
  pub counted : m.total_calls ≡ m.total_failures + m.total_successes
  pub closed_below : m.state ≡ closed → m.failure_count < c.failure_threshold
  pub probing_below : m.state ≡ half_open → m.success_count < c.success_threshold

-- One call may start, and others end, between the start and the end of a call, so the two halves
-- of `call` are steps of their own.
pub data Step (c : Config) (m m' : Metrics) : Type 0 where
  start : (now : ℕ) → m' ≡ (admit c now m).1 → Step c m m'
  success : (now : ℕ) → m' ≡ record_success c now m → Step c m m'
  failure : (now : ℕ) (excluded : Bool) → m' ≡ record_failure c now excluded m → Step c m m'

pub data Steps (c : Config) (m : Metrics) : Metrics → Type 0 where
  here : Steps c m m
  next : {m' m'' : Metrics} → Steps c m m' → Step c m' m'' → Steps c m m''

module _ (c : Config) (h₁ : 0 < c.failure_threshold) (h₂ : 0 < c.success_threshold) where
  new-Inv : (now : ℕ) → Inv c (new now)
  unfolding new
  new-Inv now = ground arith

  admit-Inv : (now : ℕ) (m : Metrics) → Inv c m → Inv c (admit c now m).1
  unfolding admit
  admit-Inv now m v = ground arith

  record_success-Inv : (now : ℕ) (m : Metrics) → Inv c m → Inv c (record_success c now m)
  unfolding record_success
  record_success-Inv now m v = ground arith

  record_failure-Inv :
      (now : ℕ) (excluded : Bool) (m : Metrics) → Inv c m → Inv c (record_failure c now excluded m)
  unfolding record_failure
  record_failure-Inv now excluded m v = ground arith

  Step-Inv : {m m' : Metrics} → Step c m m' → Inv c m → Inv c m'
  Step-Inv {m} (start now e) v = rw e (admit-Inv now m v)
  Step-Inv {m} (success now e) v = rw e (record_success-Inv now m v)
  Step-Inv {m} (failure now excluded e) v = rw e (record_failure-Inv now excluded m v)

  Steps-Inv : {m m' : Metrics} → Steps c m m' → Inv c m → Inv c m'
  Steps-Inv here v = v
  Steps-Inv (next r s) v = Step-Inv s (Steps-Inv r v)

  -- From a new breaker whose two thresholds are positive, after any interleaving of starting,
  -- succeeding and failing calls: the calls counted are the failures and successes counted; a
  -- closed breaker has counted fewer failures than `failure_threshold`, and a half-open one fewer
  -- successes than `success_threshold`.
  pub reachable-Inv : (now : ℕ) {m : Metrics} → Steps c (new now) m → Inv c m
  reachable-Inv now r = Steps-Inv r (new-Inv now)
