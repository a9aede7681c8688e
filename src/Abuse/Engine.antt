-- ===== src/Abuse/Engine.antt =====
-- backend/security/abuse_detection.py: `assess`, and what the middleware
-- backend/middleware/adaptive_protection.py does with the assessment.
use title_trust.Prelude.{
  ℕ, ◌+◌, ◌-◌, ◌*◌, Bool, true, false, ◌&&◌, ◌||◌, not, String, Option, none, some, List, [], ◌∷◌,
  ◌++◌, leb, length, drop, any, map, min, if◌then◌else◌, str_eq, seconds,
}
use title_trust.Text.{Text, codes, contains, lower}
use title_trust.Abuse.{Request, Fingerprinting, Clock, points}
use title_trust.Abuse.Anomaly.{
  SessionRiskLevel, low, medium, high, critical, Anomaly, Session, IsFar, analyze_request,
}
use title_trust.Abuse.Intel.{
  Signals, ThreatIntelSignal, ThreatIndicator, lookup, set_at, mark_indicator,
}
use title_trust.Abuse.Intel.{high as severity_high, critical as severity_critical}

pub data AbuseAction : Type 0 where
  allow throttle challenge quarantine block : AbuseAction

pub data Reason : Type 0 where
  high_request_entropy known_threat_fingerprint fingerprint_quarantined : Reason
  request_cluster_detected velocity_anomaly credential_stuffing_pattern : Reason
  anomaly : Anomaly → Reason
  session_risk : SessionRiskLevel → Reason

-- The score is the one before it is rounded to two digits.
pub record AbuseAssessment : Type 0 where
  pub action : AbuseAction
  pub score : ℕ
  pub reasons : List Reason
  pub retry_after_seconds : ℕ
  pub quarantine_minutes : ℕ

-- What is kept of an observation, as far as it is read again.
pub record AbuseObservation : Type 0 where
  pub ip_address : String
  pub timestamp : ℕ
  pub assessment : AbuseAssessment

pub record Engine : Type 0 where
  pub history : String → List AbuseObservation
  pub quarantines : String → Option ℕ
  pub signals : Signals

abbrev pub new_engine : Engine
new_engine = record { history = λ k. []; quarantines = λ k. none; signals = λ k. none }

abbrev made : ℕ → List Reason → AbuseAction → ℕ → ℕ → AbuseAssessment
made score reasons action retry minutes = record {
  action = action;
  score = score;
  reasons = reasons;
  retry_after_seconds = retry;
  quarantine_minutes = minutes;
}

-- `_classify`
unfoldable pub classify : ℕ → List Reason → AbuseAssessment
classify score reasons =
    if leb (points 80) score
    then made score reasons block 900 60
    else (if leb (points 60) score
        then made score reasons quarantine 300 15
        else (if leb (points 40) score
            then made score reasons challenge 60 0
            else (if leb (points 20) score
                then made score reasons throttle 15 0
                else made score reasons allow 0 0)))

-- `_is_quarantined`, which drops a quarantine that has expired.
abbrev unexpired : ℕ → Option ℕ → Option ℕ
unexpired now none = none
unexpired now (some expiry) = if leb expiry now then none else some expiry

abbrev is_there {ℓ} : {A : Type ℓ} → Option A → Bool
is_there none = false
is_there (some a) = true

unfoldable pub is_quarantined : String → ℕ → Engine → Bool × Engine
is_quarantined fingerprint_id now e =
    let expiry = unexpired now (e.quarantines fingerprint_id) in
    (is_there expiry, record e { quarantines = set_at fingerprint_id expiry e.quarantines })

unfoldable pub quarantine_fingerprint : String → ℕ → ℕ → Engine → Engine
quarantine_fingerprint fingerprint_id minutes now e = record e {
  quarantines = set_at fingerprint_id (some (now + seconds (60 * minutes))) e.quarantines;
}

abbrev pub member : String → List String → Bool
member ip = any (λ other. str_eq other ip)

-- `len(set(ips))`
abbrev unique : List String → ℕ
unique [] = 0
unique (ip ∷ ips) = let rest = unique ips in if member ip ips then rest else rest + 1

abbrev pub last_four : List AbuseObservation → List AbuseObservation
last_four l = drop (length l - 4) l

abbrev pub addresses : List AbuseObservation → List String
addresses = map (λ o. o.ip_address)

unfoldable pub is_velocity_anomalous : String → List AbuseObservation → Bool
is_velocity_anomalous ip observations =
    let ips = addresses (last_four observations) in
    leb 4 (length observations) && (leb 3 (unique ips) && not (member ip ips))

abbrev bot_signatures : List Text
bot_signatures =
    codes "curl"
    ∷ codes "wget"
    ∷ codes "python"
    ∷ codes "go-http-client"
    ∷ codes "bot"
    ∷ codes "scrapy"
    ∷ []

looks_like_credential_stuffing : Text → Text → Bool
looks_like_credential_stuffing path user_agent =
    (contains (codes "/auth/login") path || contains (codes "/login") path)
    && any (λ b. contains b (lower user_agent)) bot_signatures

-- What one test adds to the reasons and to the score.
abbrev Part : Type 0
Part = List Reason × ℕ

abbrev pub part : Bool → Reason → ℕ → Part
part true reason score = (reason ∷ [], score)
part false reason score = ([], 0)

infixl 5 ◌then_also◌
abbrev pub ◌then_also◌ : Part → Part → Part
p then_also q = (p.0 ++ q.0, p.1 + q.1)

-- Two and a half points for each observation, and at most 15.
abbrev signal_part : Option ThreatIntelSignal → Part
signal_part none = ([], 0)
signal_part (some s) =
    (known_threat_fingerprint ∷ [], points 35 + min (points 15) (40 * s.observation_count))

abbrev is_risky : SessionRiskLevel → Bool
is_risky low = false
is_risky medium = false
is_risky high = true
is_risky critical = true

-- An eighth of a risk score in halves of a point is as many sixteenths of one.
session_part : IsFar → Option Session → Request → ℕ → Part
unfolding analyze_request
session_part is_far none r now = ([], 0)
session_part is_far (some s) r now =
    let (risk_score, level, anomalies) = analyze_request is_far s r.ip_address r.device_id now in
    (map anomaly anomalies, risk_score)
    then_also part (is_risky level) (session_risk level) (points 20)

unfoldable pub record_observation : String → AbuseObservation → Engine → Engine
record_observation fingerprint_id o e =
    let observations = e.history fingerprint_id ++ o ∷ [] in
    record e {
      history = set_at fingerprint_id (drop (length observations - 50) observations) e.history;
    }

-- The parts of the score, and the engine after the look at the signals and the quarantines.
unfoldable pub judge :
    Fingerprinting → IsFar → Option Session → Clock → Request → Engine → Part × Engine
unfolding lookup is_quarantined is_velocity_anomalous session_part looks_like_credential_stuffing
judge f is_far session clock r e =
    let key = f.fingerprint r in
    let (signal, signals) = lookup key clock.at_lookup e.signals in
    let (quarantined, e') =
      is_quarantined key clock.at_quarantine (record e { signals = signals }) in
    let observations = e.history key in
    (
      part (f.has_high_entropy r) high_request_entropy (points 10)
          then_also signal_part signal
          then_also part quarantined fingerprint_quarantined (points 60)
          then_also part (leb 8 (length observations)) request_cluster_detected (points 20)
          then_also part (is_velocity_anomalous r.ip_address observations) velocity_anomaly
              (points 20)
          then_also session_part is_far session r clock.at_analysis
          then_also part (looks_like_credential_stuffing r.path r.user_agent)
              credential_stuffing_pattern (points 25),
      e',
    )

unfoldable pub assess :
    Fingerprinting → IsFar → Option Session → Clock → Request → Engine → AbuseAssessment × Engine
unfolding judge classify record_observation
assess f is_far session clock r e =
    let ((reasons, score), e') = judge f is_far session clock r e in
    let assessment = classify score reasons in
    (
      assessment,
      record_observation (f.fingerprint r)
          (record {
            ip_address = r.ip_address;
            timestamp = clock.at_observation;
            assessment = assessment;
          })
          e',
    )

abbrev indicator_of : AbuseAction → ℕ → Option ThreatIndicator
indicator_of allow score = none
indicator_of throttle score = none
indicator_of challenge score =
    some (record { name = "challenge"; severity = severity_high; score = score })
indicator_of quarantine score =
    some (record { name = "quarantine"; severity = severity_high; score = score })
indicator_of block score =
    some (record { name = "block"; severity = severity_critical; score = score })

abbrev note_indicator : String → Clock → Request → Option ThreatIndicator → Signals → Signals
unfolding mark_indicator
note_indicator key clock r none signals = signals
note_indicator key clock r (some indicator) signals =
    mark_indicator key r.tenant_id r.device_id indicator clock.at_indicator clock.at_signal signals

-- `record_threat_indicator`, on the assessment that `assess` has just made.
unfoldable pub record_threat_indicator :
    Fingerprinting → Clock → Request → AbuseAssessment → Engine → Engine
unfolding note_indicator
record_threat_indicator f clock r a e = record e {
  signals = note_indicator (f.fingerprint r) clock r (indicator_of a.action a.score) e.signals;
}
