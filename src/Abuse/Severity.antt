-- ===== src/Abuse/Severity.antt =====
-- backend/security/abuse_detection.py and backend/middleware/adaptive_protection.py: how severe an
-- answer is, by the score.
use title_trust.Prelude.{ℕ, ◌≤◌, ◌≡◌, Bool, true, false, List, leb, arith}
use title_trust.Abuse.{Fingerprinting, points}
use title_trust.Abuse.Anomaly.{IsFar}
use title_trust.Abuse.Engine.{
  AbuseAction, allow, throttle, challenge, quarantine, block, Engine, Reason, judge, classify,
  assess,
}
use title_trust.Abuse.Serve.{Arrival, Served, blocked, passed_on, served, dispatch}

abbrev pub rank : AbuseAction → ℕ
rank allow = 0
rank throttle = 1
rank challenge = 2
rank quarantine = 3
rank block = 4

-- A higher score is answered at least as severely, and with a wait at least as long.
classify-monotone :
    (m n : ℕ) (reasons others : List Reason)
    → m ≤ n
    → (rank (classify m reasons).action ≤ rank (classify n others).action)
      × ((classify m reasons).retry_after_seconds ≤ (classify n others).retry_after_seconds)
unfolding classify
classify-monotone m n reasons others h = (ground arith, ground arith)

abbrev pub is_blocked : Served → Bool
is_blocked (blocked retry) = true
is_blocked (passed_on action retry) = false

is_blocked-classify :
    (score : ℕ) (reasons : List Reason)
    → let a = classify score reasons in
      is_blocked (served a.action a.retry_after_seconds) ≡ leb (points 80) score
unfolding classify
is_blocked-classify score reasons = ground arith

-- A request is kept from the application exactly if its parts sum up to 80 points.
pub dispatch-is_blocked :
    (f : Fingerprinting) (is_far : IsFar) (a : Arrival) (e : Engine)
    → is_blocked (dispatch f is_far a e).0
      ≡ leb (points 80) (judge f is_far a.session a.clock a.request e).0.1
unfolding dispatch assess
dispatch-is_blocked f is_far a e = is_blocked-classify _ _
