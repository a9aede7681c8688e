-- ===== src/Abuse/Serve.antt =====
-- backend/middleware/adaptive_protection.py: `dispatch`, one request after another.
use title_trust.Prelude.{ℕ, Option, List, [], ◌∷◌, max}
use title_trust.Abuse.{Request, Fingerprinting, Clock}
use title_trust.Abuse.Anomaly.{Session, IsFar}
use title_trust.Abuse.Engine.{
  AbuseAction, allow, throttle, challenge, quarantine, block, Engine, assess,
  record_threat_indicator,
}

-- The request is answered with status 403, or is passed on and its response gets headers.
pub data Served : Type 0 where
  blocked : ℕ → Served
  passed_on : AbuseAction → ℕ → Served

abbrev pub served : AbuseAction → ℕ → Served
served block retry = blocked (max retry 60)
served allow retry = passed_on allow retry
served throttle retry = passed_on throttle retry
served challenge retry = passed_on challenge retry
served quarantine retry = passed_on quarantine retry

-- A request with its session, if it has one, and the readings of the clock.
pub record Arrival : Type 0 where
  pub request : Request
  pub session : Option Session
  pub clock : Clock

-- The hook for a challenge and the events for the screen are left out.
unfoldable pub dispatch : Fingerprinting → IsFar → Arrival → Engine → Served × Engine
unfolding assess record_threat_indicator
dispatch f is_far a e =
    let (assessment, e') = assess f is_far a.session a.clock a.request e in
    (
      served assessment.action assessment.retry_after_seconds,
      record_threat_indicator f a.clock a.request assessment e',
    )

unfoldable pub dispatch_all : Fingerprinting → IsFar → List Arrival → Engine → Engine
unfolding dispatch
dispatch_all f is_far [] e = e
dispatch_all f is_far (a ∷ as_) e = dispatch_all f is_far as_ (dispatch f is_far a e).1
