-- ===== src/Degradation/Levels.antt =====
-- What `execute` falls back to, and what becomes of a service's level.
use title_trust.Prelude.{
  ℕ, ◌+◌, ◌≤◌, ◌≡◌, refl, Bool, true, false, String, Option, none, some, List, [], ◌∷◌, ltb, str_eq,
  eq_refl, seconds, arith,
}
use title_trust.Degradation.{
  DegradationLevel, normal, degraded, Manager, degraded_response, mark_service_degraded,
  cache_fallback, get_fallback_data, on_error, execute,
}

abbrev is_normal : DegradationLevel → Bool
is_normal normal = true
is_normal _ = false

module _ {V : Type 0} (truthy : V → Bool) where
  get_fallback_data-cached :
      (name key : String) (now later : ℕ) (v : V) (w : Manager V)
      → later ≤ now + seconds 3600
      → get_fallback_data name key later (cache_fallback name key v 3600 now w)
        ≡ (some v, cache_fallback name key v 3600 now w)
  unfolding get_fallback_data cache_fallback
  get_fallback_data-cached name key now later v w h =
      let in_time : ltb (now + seconds 3600) later ≡ false = ground arith in
      rw (eq_refl name, eq_refl key, in_time, get_fallback_data) refl

  degraded_by :
      (name : String) (f : Option (Option V)) (v : V) (w : Manager V)
      → truthy v ≡ true
      → ((on_error truthy name f (some v, w)).0 ≡ degraded_response (some v) degraded)
        × ((on_error truthy name f (some v, w)).1.service_status name ≡ degraded)
  unfolding on_error mark_service_degraded
  degraded_by name f v w t = rw (t, on_error) (refl, rw (eq_refl name) refl)

  -- A call that succeeded under a cache key is what the same service falls back to when a later
  -- call under that key raises within 3600 seconds, if its result counts as true: the response
  -- has that result, and the level of the service is DEGRADED, whatever the fallback function.
  execute-fallback :
      (name key : String) (now later : ℕ) (v : V) (f f' : Option (Option V)) (w : Manager V)
      → str_eq key "" ≡ false
      → truthy v ≡ true
      → later ≤ now + seconds 3600
      → let w' = (execute truthy name (some key) now (some v) f w).1 in
        ((execute truthy name (some key) later none f' w').0 ≡ degraded_response (some v) degraded)
        × ((execute truthy name (some key) later none f' w').1.service_status name ≡ degraded)
  unfolding execute
  execute-fallback name key now later v f f' w k t h = ground (
    arith,
    k,
    t,
    get_fallback_data-cached name key now later v w h,
    degraded_by name f' v (cache_fallback name key v 3600 now w) t,
  )

  -- A call of a service.
  pub record Call : Type 0 where
    pub name : String
    pub key : Option String
    pub now : ℕ
    pub outcome : Option V
    pub fallback : Option (Option V)

  abbrev pub execute_all : List Call → Manager V → Manager V
  execute_all [] w = w
  execute_all (x ∷ xs) w =
      execute_all xs (execute truthy x.name x.key x.now x.outcome x.fallback w).1

  execute-is_normal :
      (s : String) (x : Call) (w : Manager V)
      → is_normal (w.service_status s) ≡ false
      → is_normal ((execute truthy x.name x.key x.now x.outcome x.fallback w).1.service_status s)
        ≡ false
  unfolding execute on_error cache_fallback get_fallback_data mark_service_degraded
  execute-is_normal s x w h = ground arith

  -- A service that is once not NORMAL is never again: no calls of any services, however many of
  -- them succeed, bring its level back.
  execute_all-is_normal :
      (s : String) (xs : List Call) (w : Manager V)
      → is_normal (w.service_status s) ≡ false
      → is_normal ((execute_all xs w).service_status s) ≡ false
  execute_all-is_normal s [] w h = h
  execute_all-is_normal s (x ∷ xs) w h =
      execute_all-is_normal s xs (execute truthy x.name x.key x.now x.outcome x.fallback w).1
        (execute-is_normal s x w h)
