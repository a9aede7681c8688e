-- ===== src/Gemini.antt =====
-- backend/core/gemini_api_manager.py: GeminiApiManager. Clock readings are microseconds. The lock
-- makes each round of `_await_capacity` one step; the semaphore is not modelled.
pub mod Capacity
pub mod Cache
use title_trust.Prelude.{
  ℕ, zero, suc, ◌+◌, ◌-◌, Bool, true, false, ◌&&◌, not, String, Option, none, some, List, [], ◌∷◌,
  ◌++◌, max, length, ltb, leb, if◌then◌else◌, str_eq, seconds,
}

pub record Config : Type 0 where
  pub max_calls : ℕ
  pub period_seconds : ℕ
  pub cache_ttl_seconds : ℕ
  pub cache_enabled : Bool

-- `while timestamps and timestamps[0] <= now - period: timestamps.popleft()`
unfoldable pub drop_expired : ℕ → ℕ → List ℕ → List ℕ
drop_expired period_seconds now [] = []
drop_expired period_seconds now (e ∷ stamps) =
    if leb (e + seconds period_seconds) now
    then drop_expired period_seconds now stamps
    else e ∷ stamps

-- What one round under `_rate_lock` decides: the call may go on, or sleeps for a time.
pub data Round : Type 0 where
  proceed : Round
  sleep_for : ℕ → Round

abbrev pub oldest : List ℕ → ℕ → ℕ
oldest [] now = now
oldest (e ∷ stamps) now = e

-- One round of the loop of `_await_capacity`. With `max_calls` 0 the deque can be empty where the
-- oldest stamp is read, which raises an IndexError; the constructor replaces a 0 by the setting,
-- so `max_calls` is positive in what follows.
unfoldable pub round : Config → ℕ → List ℕ → Round × List ℕ
unfolding drop_expired
round c now stamps =
    let kept = drop_expired c.period_seconds now stamps in
    if ltb (length kept) c.max_calls
    then (proceed, kept ++ now ∷ [])
    else (sleep_for (max 10_000 (oldest kept now + seconds c.period_seconds - now)), kept)

-- `_await_capacity` over the clock readings of its rounds, with no other thread in between:
-- `none` means that it is still sleeping when the readings end.
pub await_capacity : Config → List ℕ → List ℕ → Option (List ℕ)
await_capacity c [] stamps = none
await_capacity c (now ∷ readings) stamps =
    let (r, kept) = round c now stamps in
    elim r [ proceed ↦ some kept | sleep_for t ↦ await_capacity c readings kept ]

pub record CacheEntry {ℓ} (V : Type ℓ) : Type ℓ where
  pub value : V
  pub expires_at : ℕ

-- `_cache`, by its keys.
abbrev pub Cache {ℓ} : Type ℓ → Type ℓ
Cache V = String → Option (CacheEntry V)

abbrev pub empty {ℓ} : {V : Type ℓ} → Cache V
empty key = none

abbrev pub put {ℓ} : {V : Type ℓ} → String → Option (CacheEntry V) → Cache V → Cache V
put key entry cache j = if str_eq key j then entry else cache j

-- `V` are the results of analyses, none of which is None; `has_error` says of one that it is a
-- dict whose "error" is set.
module _ {ℓ} {V : Type ℓ} (has_error : V → Bool) (c : Config) where
  -- `_get_cached`; an expired entry is removed.
  get_cached : String → ℕ → Cache V → Option V × Cache V
  get_cached key now cache = if not c.cache_enabled then (none, cache) else elim (cache key) [
    | none ↦ (none, cache)
    | some entry ↦
        if leb entry.expires_at now then (none, put key none cache) else (some entry.value, cache)
  ]

  -- `_set_cached`
  set_cached : String → ℕ → V → Cache V → Cache V
  set_cached key now value cache =
      if not c.cache_enabled
      then cache
      else (if has_error value
          then cache
          else put key
              (some (record { value = value; expires_at = now + seconds c.cache_ttl_seconds }))
              cache)

  -- `execute_forensic_analysis` for a file with this key: `live` is what the callback returns, and
  -- the times are those of the lookup and of the store. The second part of the answer says
  -- whether the callback was called.
  unfoldable pub execute_forensic_analysis : String → ℕ → ℕ → V → Cache V → V × Bool × Cache V
  unfolding get_cached set_cached
  execute_forensic_analysis key now later live cache =
      let (cached, cache') = get_cached key now cache in
      elim cached [
        | some value ↦ (value, false, cache')
        | none ↦ (live, true, set_cached key later live cache')
      ]
