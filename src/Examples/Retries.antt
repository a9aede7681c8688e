-- ===== src/Examples/Retries.antt =====
-- A function that fails once.
use title_trust.Prelude.{ℕ, zero, suc, ◌<◌, ◌^◌, length, true, arith}
use title_trust.Backoff.{BackoffConfig, Attempt, succeeded, failed, exponential_backoff}
use title_trust.Backoff.Tries.{Tried, exponential_backoff-Tried}

abbrev config : BackoffConfig
config = record {
  initial_delay = 1;
  max_delay = 60;
  multiplier = 2;
  jitter = true;
  max_retries = 5;
}

abbrev func : ℕ → Attempt ℕ ℕ
func zero = failed 7
func (suc n) = succeeded n

abbrev draws : ℕ → ℕ
draws n = 1_000

exponential_backoff-Tried_example :
    Tried config func draws 5 0
      (exponential_backoff config func draws).0
      (length (exponential_backoff config func draws).1)
exponential_backoff-Tried_example = exponential_backoff-Tried config func draws

draws-lt : (i : ℕ) → draws i < 2 ^ 53
draws-lt i = omega arith
