-- ===== src/Backoff.antt =====
-- backend/infrastructure/resilience.py: exponential_backoff. The settings that are floats there are
-- whole numbers here, and delays are in units of 2 ^ -53 seconds, the resolution of
-- `random.random()`.
pub mod Tries
use title_trust.Prelude.{ℕ, zero, suc, ◌+◌, ◌*◌, ◌^◌, min, Bool, List, [], ◌∷◌, if◌then◌else◌}

pub record BackoffConfig : Type 0 where
  pub initial_delay : ℕ
  pub max_delay : ℕ
  pub multiplier : ℕ
  pub jitter : Bool
  pub max_retries : ℕ

-- What a call of the function does.
pub data Attempt {ℓ} (A E : Type ℓ) : Type ℓ where
  succeeded : A → Attempt A E
  failed : E → Attempt A E

-- The delay after an attempt; with jitter it is multiplied by `0.5 + random.random()`.
pub delay : BackoffConfig → ℕ → ℕ → ℕ
delay c attempt draw =
    let d = min (c.initial_delay * c.multiplier ^ attempt) c.max_delay in
    if c.jitter then d * (2 ^ 52 + draw) else d * 2 ^ 53

-- `func` and `draws` give what the call, and the random number, of each attempt is.
module _ {ℓ} {A E : Type ℓ} (c : BackoffConfig) (func : ℕ → Attempt A E) (draws : ℕ → ℕ) where
  -- The loop from an attempt on, with the number of retries left: the last result, and the delays.
  pub tries : ℕ → ℕ → Attempt A E × List ℕ
  unfolding delay
  tries zero attempt = (func attempt, [])
  tries (suc left) attempt =
      let rest = tries left (attempt + 1) in
      elim (func attempt) [
        | succeeded a ↦ (succeeded a, [])
        | failed e ↦ (rest.0, delay c attempt (draws attempt) ∷ rest.1)
      ]

  -- The wrapper: `range(config.max_retries + 1)` from attempt 0.
  pub exponential_backoff : Attempt A E × List ℕ
  unfolding tries
  exponential_backoff = tries c.max_retries 0
