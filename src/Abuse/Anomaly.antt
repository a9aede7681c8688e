-- ===== src/Abuse/Anomaly.antt =====
-- backend/security/anomaly_detection.py: `analyze_request`. The distance of two places, which is
-- computed in floats, is an argument.
use title_trust.Prelude.{
  ℕ, ◌+◌, ◌-◌, ◌*◌, Bool, false, String, Option, none, some, List, [], ◌∷◌, ◌++◌, leb, ltb, min,
  if◌then◌else◌, str_eq,
}
use title_trust.Text.{Text, codes, starts_with}

pub data SessionRiskLevel : Type 0 where
  low medium high critical : SessionRiskLevel

pub data Anomaly : Type 0 where
  ip_changed impossible_travel device_changed suspicious_activity : Anomaly

-- What the engine reads of a SessionState. The risk score is in halves of a point.
pub record Session : Type 0 where
  pub current_ip : String
  pub last_activity_at : ℕ
  pub device_id : Option String
  pub suspicious_events : ℕ
  pub risk_score : ℕ

-- The entries of `_IP_LOCATIONS`.
pub data Location : Type 0 where
  san_francisco new_york berlin paris tokyo : Location

abbrev first_location : List (Text × Location) → Text → Option Location
first_location [] ip = none
first_location ((prefix, place) ∷ rest) ip =
    let other = first_location rest ip in if starts_with prefix ip then some place else other

get_location_for_ip : Text → Option Location
get_location_for_ip = first_location (
    (codes "1.2.3.", san_francisco)
    ∷ (codes "8.8.8.", new_york)
    ∷ (codes "2.3.4.", berlin)
    ∷ (codes "5.6.7.", paris)
    ∷ (codes "203.0.113.", tokyo)
    ∷ [])

-- Whether two places are further apart than 1,000 km for each hour of a time in microseconds.
abbrev pub IsFar : Type 0
IsFar = Location → Location → ℕ → Bool

-- `_is_impossible_travel`; a time that has not passed, or is before the last one, is no travel.
is_impossible_travel : IsFar → String → String → ℕ → ℕ → Bool
unfolding get_location_for_ip
is_impossible_travel is_far old_ip new_ip old_ts new_ts =
    elim (get_location_for_ip (codes old_ip)) [
      | none ↦ false
      | some old ↦ elim (get_location_for_ip (codes new_ip)) [
        | none ↦ false
        | some new ↦ if leb new_ts old_ts then false else is_far old new (new_ts - old_ts)
      ]
    ]

-- Halves of a point.
abbrev pub halves : ℕ → ℕ
halves n = 2 * n

score_to_level : ℕ → SessionRiskLevel
score_to_level score =
    if leb (halves 70) score
    then critical
    else (if leb (halves 40) score then high else (if leb (halves 20) score then medium else low))

abbrev nothing : List Anomaly × ℕ
nothing = ([], 0)

infixl 5 ◌and_also◌
abbrev ◌and_also◌ : List Anomaly × ℕ → List Anomaly × ℕ → List Anomaly × ℕ
p and_also q = (p.0 ++ q.0, p.1 + q.1)

abbrev check_travel : Bool → List Anomaly × ℕ
check_travel far = if far then (impossible_travel ∷ [], halves 40) else nothing

abbrev check_ip : IsFar → Session → String → ℕ → List Anomaly × ℕ
unfolding is_impossible_travel
check_ip is_far s ip_address now =
    if str_eq s.current_ip ip_address
    then nothing
    else (ip_changed ∷ [], halves 15)
      and_also check_travel
          (is_impossible_travel is_far s.current_ip ip_address s.last_activity_at now)

-- The device of the request is not empty: its header has a default.
abbrev check_device : Session → String → List Anomaly × ℕ
check_device s device_id = elim s.device_id [
  | none ↦ nothing
  | some d ↦ if str_eq device_id d then nothing else (device_changed ∷ [], halves 25)
]

abbrev check_events : Session → List Anomaly × ℕ
check_events s =
    if ltb 3 s.suspicious_events then (suspicious_activity ∷ [], halves 10) else nothing

-- `analyze_request`: the new risk score, its level and the anomalies.
unfoldable pub analyze_request :
    IsFar → Session → String → String → ℕ → ℕ × SessionRiskLevel × List Anomaly
unfolding check_ip score_to_level
analyze_request is_far s ip_address device_id now =
    let (anomalies, risk_delta) =
      check_ip is_far s ip_address now and_also check_device s device_id and_also check_events s in
    let score = min (halves 100) (s.risk_score + risk_delta) in
    (score, score_to_level score, anomalies)
