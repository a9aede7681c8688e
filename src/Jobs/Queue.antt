-- ===== src/Jobs/Queue.antt =====
-- backend/queues/redis_queue.py: the attempts at a call of Redis. What the client answers is an
-- argument, for each attempt.
use title_trust.Prelude.{
  ℕ, zero, suc, ◌+◌, ◌*◌, ◌≤◌, ◌≡◌, refl, Bool, false, ◌||◌, String, str_eq, Option, none, some,
  ◌⊎◌, inl, inr, if◌then◌else◌, if-elim, arith,
}

pub data Reply (A : Type 0) : Type 0 where
  done : A → Reply A
  -- a ConnectionError or a TimeoutError of Redis; another exception
  transient fatal : Reply A

-- One attempt: whether `_connect` finds a client where there is none, what the call gives, and
-- whether `_connect` finds a client after a transient error.
pub record CallAttempt (A : Type 0) : Type 0 where
  pub connects : Bool
  pub reply : Reply A
  pub reconnects : Bool

pub data CallOutcome (A : Type 0) : Type 0 where
  returned : A → CallOutcome A
  failed unavailable : CallOutcome A

-- The outcome with the calls made and the milliseconds slept.
pub record Run (A : Type 0) : Type 0 where
  pub outcome : CallOutcome A
  pub calls : ℕ
  pub slept : ℕ

module _ {A : Type 0} where
  abbrev retried_after : ℕ → Run A → Run A
  retried_after ms r = record { outcome = r.outcome; calls = 1 + r.calls; slept = ms + r.slept }

  abbrev after_reply : ℕ → ℕ → Run A → Reply A → Run A
  after_reply left k rest (done a) = record { outcome = returned a; calls = 1; slept = 0 }
  after_reply left k rest fatal = record { outcome = failed; calls = 1; slept = 0 }
  after_reply zero k rest transient = record { outcome = failed; calls = 1; slept = 0 }
  after_reply (suc left) k rest transient = retried_after (100 * k) rest

  -- The attempts from the `k`-th on, of which `left` are left.
  attempts_from : ℕ → ℕ → (ℕ → CallAttempt A) → Bool → Run A
  attempts_from zero k env client = record { outcome = unavailable; calls = 0; slept = 0 }
  attempts_from (suc left) k env client =
      let rest = attempts_from left (k + 1) env (env k).reconnects in
      if client || (env k).connects
      then after_reply left k rest (env k).reply
      else record { outcome = unavailable; calls = 0; slept = 0 }

  -- `_execute`: at most DEFAULT_RETRY_ATTEMPTS + 1 attempts.
  pub execute_call : (ℕ → CallAttempt A) → Bool → Run A
  unfolding attempts_from
  execute_call env client = attempts_from 3 1 env client

-- What the calls make of an outcome; an error of `_execute` is caught.
-- `is_cancelled`, of the marker's value
unfoldable marker_answer : CallOutcome (Option String) → Bool
marker_answer (returned (some s)) = str_eq s "1"
marker_answer (returned none) = false
marker_answer failed = false
marker_answer unavailable = false

-- `queue_depth`
unfoldable depth_answer : CallOutcome (Option ℕ) → ℕ
depth_answer (returned (some n)) = n
depth_answer (returned none) = 0
depth_answer failed = 0
depth_answer unavailable = 0

-- `pop`, of the payload of the item
unfoldable pop_answer : {B : Type 0} → CallOutcome (Option B) → Option B
pop_answer (returned o) = o
pop_answer failed = none
pop_answer unavailable = none

-- The longest sleep in all: behind every attempt but the last.
abbrev longest_sleep : ℕ → ℕ → ℕ
longest_sleep zero k = 0
longest_sleep (suc zero) k = 0
longest_sleep (suc (suc left)) k = 100 * k + longest_sleep (suc left) (k + 1)

module _ {A : Type 0} (env : ℕ → CallAttempt A) where
  -- A value that is returned is what an attempt has given, after attempts with transient errors.
  unfoldable pub Gives : ℕ → ℕ → CallOutcome A → Type 0
  Gives left k failed = Unit {0}
  Gives left k unavailable = Unit {0}
  Gives zero k (returned a) = ⊥
  Gives (suc left) k (returned a) =
      ((env k).reply ≡ done a) ⊎ (((env k).reply ≡ transient) × Gives left (k + 1) (returned a))

  pub record IsRun (left k : ℕ) (r : Run A) : Type 0 where
    pub calls : r.calls ≤ left
    pub slept : r.slept ≤ longest_sleep left k
    pub gives : Gives left k r.outcome

  Gives-later :
      (left k : ℕ) (o : CallOutcome A)
      → (env k).reply ≡ transient
      → Gives left (k + 1) o
      → Gives (suc left) k o
  unfolding Gives
  Gives-later left k (returned a) t g = inr (t, g)
  Gives-later left k failed t g = tt
  Gives-later left k unavailable t g = tt

  after_reply-IsRun :
      (left k : ℕ) (rest : Run A) (reply : Reply A)
      → (env k).reply ≡ reply
      → IsRun left (k + 1) rest
      → IsRun (suc left) k (after_reply left k rest reply)
  unfolding Gives
  after_reply-IsRun left k rest (done a) t i = record {
    calls = omega arith;
    slept = omega arith;
    gives = inl t;
  }
  after_reply-IsRun left k rest fatal t i = record {
    calls = omega arith;
    slept = omega arith;
    gives = tt;
  }
  after_reply-IsRun zero k rest transient t i = record {
    calls = omega arith;
    slept = omega arith;
    gives = tt;
  }
  after_reply-IsRun (suc left) k rest transient t i = record {
    calls = omega (arith, i.calls);
    slept = omega (arith, i.slept);
    gives = Gives-later (suc left) k rest.outcome t i.gives;
  }

  attempts_from-IsRun :
      (left k : ℕ) (client : Bool) → IsRun left k (attempts_from left k env client)
  unfolding attempts_from Gives
  attempts_from-IsRun zero k client = record {
    calls = omega arith;
    slept = omega arith;
    gives = tt;
  }
  attempts_from-IsRun (suc left) k client =
      if-elim (IsRun (suc left) k) (client || (env k).connects) _ _
        (λ _.
          after_reply-IsRun left k _ (env k).reply refl
            (attempts_from-IsRun left (k + 1) (env k).reconnects))
        (λ _. record { calls = omega arith; slept = omega arith; gives = tt })

  -- A call of Redis is tried at most three times, with sleeps of at most 0.3 seconds in all, and a
  -- value that comes back is what an attempt gave, after attempts with transient errors only.
  pub execute_call-IsRun : (client : Bool) → IsRun 3 1 (execute_call env client)
  unfolding execute_call
  execute_call-IsRun client = attempts_from-IsRun 3 1 client
