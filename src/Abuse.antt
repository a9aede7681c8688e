-- ===== src/Abuse.antt =====
-- backend/security: the assessment of requests. A request, and what identifies it to the engine; the
-- modules below it hold the risk of a session, the known threats, and the engine itself.
pub mod Anomaly
pub mod Intel
pub mod Engine
pub mod Serve
pub mod History
pub mod Severity
use title_trust.Prelude.{ℕ, ◌*◌, Bool, String, Option, List}
use title_trust.Text.{Text}

pub record Request : Type 0 where
  pub tenant_id : String
  pub device_id : String
  pub ip_address : String
  pub user_agent : Text
  pub correlation_id : String
  pub method : Text
  pub path : Text
  pub headers : List (String × String)

-- An argument: what request_fingerprinting.py makes of a request, its digest and whether its entropy
-- is above 4.5.
pub record Fingerprinting : Type 0 where
  pub fingerprint : Request → String
  pub has_high_entropy : Request → Bool

-- The readings of the clock for one request, in order.
pub record Clock : Type 0 where
  pub at_lookup : ℕ
  pub at_quarantine : ℕ
  pub at_analysis : ℕ
  pub at_observation : ℕ
  pub at_indicator : ℕ
  pub at_signal : ℕ

-- Scores of requests are whole sixteenths of a point, and risk scores of sessions whole halves of one:
-- the constants of the code are whole numbers of these, and an eighth of a risk score is one too.
abbrev pub points : ℕ → ℕ
points n = 16 * n
