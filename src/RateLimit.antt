-- ===== src/RateLimit.antt =====
-- backend/infrastructure/rate_limit_store.py: InMemoryRateLimitStore, and its use in
-- backend/middleware/rate_limit.py: enforce_rate_limit. `time.time()` is read in microseconds.
pub mod Bound
use title_trust.Prelude.{
  ℕ, zero, ◌+◌, ◌-◌, Bool, true, false, String, Option, none, some, List, [], ◌∷◌, ◌++◌, length,
  ltb, leb, if◌then◌else◌, str_eq, seconds,
}

-- `_events`, a `defaultdict(deque)`.
abbrev pub Events : Type 0
Events = String → List ℕ

abbrev pub empty : Events
empty key = []

-- `while events and now - events[0] > window_seconds: events.popleft()`
unfoldable pub drop_expired : ℕ → ℕ → List ℕ → List ℕ
drop_expired window_seconds now [] = []
drop_expired window_seconds now (e ∷ events) =
    if ltb (e + seconds window_seconds) now
    then drop_expired window_seconds now events
    else e ∷ events

-- `hit` on the deque of one key: the answer and the deque after it.
pub hit_events : ℕ → ℕ → ℕ → List ℕ → ℕ × List ℕ
unfolding drop_expired
hit_events limit window_seconds now events =
    let kept = drop_expired window_seconds now events in
    let added = kept ++ now ∷ [] in
    if leb limit (length kept) then (0, kept) else (limit - length added, added)

pub hit : String → ℕ → ℕ → ℕ → Events → ℕ × Events
unfolding hit_events
hit key limit window_seconds now events =
    let (remaining, deque) = hit_events limit window_seconds now (events key) in
    (remaining, λ j. if str_eq key j then deque else events j)

pub data Verdict : Type 0 where
  allowed too_many_requests : Verdict

-- What `enforce_rate_limit` makes of the store: no store, a store that raised, or its answer.
verdict : Option (Option ℕ) → Verdict
verdict none = allowed
verdict (some none) = allowed
verdict (some (some remaining)) = if leb remaining 0 then too_many_requests else allowed

-- `enforce_rate_limit` over the in-memory store, which does not raise; `limit` is
-- `settings.API_RATE_LIMIT_PER_MINUTE`.
pub enforce_rate_limit : String → ℕ → ℕ → Events → Verdict × Events
unfolding hit verdict
enforce_rate_limit key limit now events =
    let (remaining, events') = hit key limit 60 now events in
    (verdict (some (some remaining)), events')
