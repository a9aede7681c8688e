-- ===== src/Examples/Breakers.antt =====
-- Circuit breakers of one and of several calls.
use title_trust.Prelude.{ℕ, refl, arith, false, none, List, [], ◌∷◌}
use title_trust.Breaker.{
  CircuitBreakerConfig, CircuitBreakerMetrics, closed, open_, new, admit, record_failure, raised,
  CallResult, call,
}
use title_trust.Breaker.Invariant.{Inv, Steps, here, next, start, failure, reachable-Inv}

abbrev config : CircuitBreakerConfig
config = record {
  failure_threshold = 2;
  recovery_timeout_seconds = 10;
  success_threshold = 2;
  failure_window_seconds = 60;
}

abbrev fresh : CircuitBreakerMetrics
fresh = record {
  state = closed;
  failure_count = 0;
  success_count = 0;
  last_failure_time = none;
  last_state_change = 0;
  total_calls = 0;
  total_failures = 0;
  total_successes = 0;
}

abbrev opened : CircuitBreakerMetrics
opened = record fresh { state = open_; failure_count = 2; total_calls = 2; total_failures = 2 }

abbrev failed_once : CircuitBreakerMetrics
failed_once = record_failure config 7 false (new 0)

abbrev steps : Steps config (new 0) (admit config 9 failed_once).1
steps = next (next here (failure 7 false refl)) (start 9 refl)

reachable-Inv_example : Inv config (admit config 9 failed_once).1
reachable-Inv_example = reachable-Inv config (omega arith) (omega arith) 0 steps

abbrev failures : List ℕ
failures = 3 ∷ 8 ∷ []

abbrev successes : List (ℕ × ℕ × ℕ)
successes = (12_000_000, 12_000_001, 1) ∷ []

abbrev probe : CallResult ℕ ℕ × CircuitBreakerMetrics
probe = call config 11_000_000 11_000_005 (raised false 4) opened
