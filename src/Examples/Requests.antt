-- ===== src/Examples/Requests.antt =====
-- Requests from one client, and from two addresses.
use title_trust.Prelude.{ℕ, ◌≡◌, arith, false, String, none, List, [], ◌∷◌, leb}
use title_trust.Text.{codes}
use title_trust.Abuse.{Request, Fingerprinting, Clock, points}
use title_trust.Abuse.Anomaly.{IsFar}
use title_trust.Abuse.Engine.{new_engine, assess, judge, quarantine_fingerprint}
use title_trust.Abuse.Serve.{Arrival, dispatch, dispatch_all}
use title_trust.Abuse.History.{assess-clustered, is_allowed}
use title_trust.Abuse.Severity.{dispatch-is_blocked, is_blocked}

abbrev request : String → Request
request ip = record {
  tenant_id = "t1";
  device_id = "d1";
  ip_address = ip;
  user_agent = codes "Mozilla/5.0";
  correlation_id = "c1";
  method = codes "GET";
  path = codes "/api/titles";
  headers = [];
}

-- The address stands for the digest of the request.
abbrev fingerprinting : Fingerprinting
fingerprinting = record { fingerprint = λ r. r.ip_address; has_high_entropy = λ r. false }

abbrev clock : ℕ → Clock
clock n = record {
  at_lookup = n;
  at_quarantine = n;
  at_analysis = n;
  at_observation = n;
  at_indicator = n;
  at_signal = n;
}

abbrev is_far : IsFar
is_far old new time = false

abbrev arrival : String → Arrival
arrival ip = record { request = request ip; session = none; clock = clock 5 }

abbrev eight : List Arrival
eight =
    arrival "1.2.3.4"
    ∷ arrival "1.2.3.4"
    ∷ arrival "1.2.3.4"
    ∷ arrival "1.2.3.4"
    ∷ arrival "8.8.8.8"
    ∷ arrival "1.2.3.4"
    ∷ arrival "1.2.3.4"
    ∷ arrival "1.2.3.4"
    ∷ arrival "1.2.3.4"
    ∷ []

-- Ten minutes later.
assess-clustered_example :
    is_allowed
      (assess fingerprinting is_far none
        (clock 600_000_000)
        (request "1.2.3.4")
        (dispatch_all fingerprinting is_far eight new_engine)).0.action
    ≡ false
assess-clustered_example =
    assess-clustered fingerprinting is_far eight new_engine none (clock 600_000_000)
      (request "1.2.3.4") (omega arith)

dispatch-is_blocked_example :
    is_blocked
      (dispatch fingerprinting is_far
        (arrival "8.8.8.8")
        (quarantine_fingerprint "8.8.8.8" 15 1 new_engine)).0
    ≡ leb
        (points 80)
        (judge fingerprinting is_far none
          (clock 5)
          (request "8.8.8.8")
          (quarantine_fingerprint "8.8.8.8" 15 1 new_engine)).0.1
dispatch-is_blocked_example =
    dispatch-is_blocked fingerprinting is_far (arrival "8.8.8.8")
      (quarantine_fingerprint "8.8.8.8" 15 1 new_engine)
