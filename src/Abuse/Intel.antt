-- ===== src/Abuse/Intel.antt =====
-- backend/security/threat_intelligence.py: the store of known threats, in memory.
use title_trust.Prelude.{
  ℕ, ◌+◌, String, Option, none, some, List, [], ◌∷◌, ◌++◌, ltb, if◌then◌else◌, str_eq, seconds,
}

pub data ThreatSeverity : Type 0 where
  high critical : ThreatSeverity

pub record ThreatIndicator : Type 0 where
  pub name : String
  pub severity : ThreatSeverity
  pub score : ℕ

pub record ThreatIntelSignal : Type 0 where
  pub tenant_id : String
  pub device_id : String
  pub indicators : List ThreatIndicator
  pub last_seen_at : ℕ
  pub observation_count : ℕ

-- `_signals`
abbrev pub Signals : Type 0
Signals = String → Option ThreatIntelSignal

abbrev signal_ttl : ℕ
signal_ttl = seconds 3600

-- `d[key] = a`, and `d.pop(key, None)` for `none`.
abbrev pub set_at {ℓ} : {A : Type ℓ} → String → A → (String → A) → String → A
set_at key a d j = if str_eq key j then a else d j

-- A signal that is not older than its time to live.
pub live : ℕ → Option ThreatIntelSignal → Option ThreatIntelSignal
live now none = none
live now (some s) = if ltb (s.last_seen_at + signal_ttl) now then none else some s

-- `lookup`, which drops a signal that is too old.
unfoldable pub lookup : String → ℕ → Signals → Option ThreatIntelSignal × Signals
unfolding live
lookup fingerprint_id now signals =
    let signal = live now (signals fingerprint_id) in (signal, set_at fingerprint_id signal signals)

abbrev renewed :
    String → String → ThreatIndicator → ℕ → Option ThreatIntelSignal → ThreatIntelSignal
renewed tenant_id device_id indicator now none = record {
  tenant_id = tenant_id;
  device_id = device_id;
  indicators = indicator ∷ [];
  last_seen_at = now;
  observation_count = 1;
}
renewed tenant_id device_id indicator now (some s) = record s {
  indicators = s.indicators ++ indicator ∷ [];
  observation_count = s.observation_count + 1;
  last_seen_at = now;
}

-- `mark_indicator`, with two readings of the clock.
unfoldable pub mark_indicator :
    String → String → String → ThreatIndicator → ℕ → ℕ → Signals → Signals
unfolding lookup
mark_indicator fingerprint_id tenant_id device_id indicator at_lookup now signals =
    let (signal, kept) = lookup fingerprint_id at_lookup signals in
    set_at fingerprint_id (some (renewed tenant_id device_id indicator now signal)) kept
