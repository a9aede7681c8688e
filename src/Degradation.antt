-- ===== src/Degradation.antt =====
-- backend/infrastructure/graceful_degradation.py: GracefulDegradationManager and
-- DegradableService.execute. Times are microseconds.
pub mod Levels
use title_trust.Prelude.{
  ℕ, ◌+◌, Bool, true, false, ◌&&◌, not, String, Option, none, some, ltb, if◌then◌else◌, str_eq,
  seconds,
}

pub data DegradationLevel : Type 0 where
  normal degraded unavailable : DegradationLevel

pub record Fallback (V : Type 0) : Type 0 where
  pub value : V
  pub cached_at : ℕ
  pub ttl_seconds : ℕ

-- `service_status`, where a missing service is NORMAL, and `fallback_caches`.
pub record Manager (V : Type 0) : Type 0 where
  pub service_status : String → DegradationLevel
  pub fallback_caches : String → String → Option (Fallback V)

-- What `execute` returns: the result, or a DegradedResponse by its data and level.
pub data Response (V : Type 0) : Type 0 where
  result : V → Response V
  degraded_response : Option V → DegradationLevel → Response V

abbrev pub new : {V : Type 0} → Manager V
new = record { service_status = λ name. normal; fallback_caches = λ name key. none }

module _ {V : Type 0} where
  pub mark_service_degraded : String → DegradationLevel → Manager V → Manager V
  mark_service_degraded name level w = record w {
    service_status = λ n. if str_eq name n then level else w.service_status n;
  }

  abbrev pub put : String → String → Option (Fallback V) → Manager V → Manager V
  put name key entry w = record w {
    fallback_caches = λ n k. if str_eq name n && str_eq key k then entry else w.fallback_caches n k;
  }

  pub cache_fallback : String → String → V → ℕ → ℕ → Manager V → Manager V
  cache_fallback name key v ttl now w =
      put name key (some (record { value = v; cached_at = now; ttl_seconds = ttl })) w

  -- `get_fallback_data`; an expired entry is deleted.
  pub get_fallback_data : String → String → ℕ → Manager V → Option V × Manager V
  get_fallback_data name key now w = elim (w.fallback_caches name key) [
    | none ↦ (none, w)
    | some f ↦
        if ltb (f.cached_at + seconds f.ttl_seconds) now
        then (none, put name key none w)
        else (some f.value, w)
  ]

-- `truthy` is Python's truth value of what is cached. An empty cache key counts as none.
module _ {V : Type 0} (truthy : V → Bool) where
  -- What of the cached data `if fallback_data` lets through.
  abbrev usable : Option V → Option V
  usable none = none
  usable (some v) = if truthy v then some v else none

  -- `execute` of a service: `outcome` is the result of `fn` or `none` where it raised, and
  -- `fallback` what the fallback function does, where there is one.
  pub on_error : String → Option (Option V) → Option V × Manager V → Response V × Manager V
  unfolding mark_service_degraded
  on_error name fallback (cached, w) = elim (usable cached) [
    | some v ↦ (degraded_response (some v) degraded, mark_service_degraded name degraded w)
    | none ↦ (
      degraded_response (elim fallback [ none ↦ none | some r ↦ r ]) unavailable,
      mark_service_degraded name unavailable w,
    )
  ]

  pub execute :
      String → Option String → ℕ → Option V → Option (Option V) → Manager V → Response V × Manager V
  unfolding on_error cache_fallback get_fallback_data
  execute name none now (some v) fallback w = (result v, w)
  execute name (some key) now (some v) fallback w =
      (result v, if str_eq key "" then w else cache_fallback name key v 3600 now w)
  execute name none now none fallback w = on_error name fallback (none, w)
  execute name (some key) now none fallback w =
      on_error name fallback (if str_eq key "" then (none, w) else get_fallback_data name key now w)
