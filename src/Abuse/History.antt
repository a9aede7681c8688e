-- ===== src/Abuse/History.antt =====
-- backend/security/abuse_detection.py: the observations that the engine keeps, and what they do to
-- later requests.
use title_trust.Prelude.{
  ℕ, ◌+◌, ◌-◌, ◌≤◌, ◌≡◌, refl, ap, inl, inr, Bool, true, false, String, Option, List, [], ◌∷◌, ◌++◌,
  length, length-append, length-drop, drop, min, arith, le→leb, if◌then◌else◌, str_eq, eq_iff,
  Bool-cases,
}
use title_trust.Abuse.{Request, Fingerprinting, Clock, points}
use title_trust.Abuse.Anomaly.{Session, IsFar}
use title_trust.Abuse.Engine.{
  AbuseAction, allow, AbuseObservation, Engine, Reason, part, request_cluster_detected, assess,
  judge, classify, record_observation, record_threat_indicator, is_quarantined,
}
use title_trust.Abuse.Serve.{Arrival, dispatch, dispatch_all}

abbrev one_if : Bool → ℕ
one_if true = 1
one_if false = 0

-- How many of the arrivals have a fingerprint.
abbrev pub count : Fingerprinting → String → List Arrival → ℕ
count f key [] = 0
count f key (a ∷ as_) = one_if (str_eq (f.fingerprint a.request) key) + count f key as_

unfoldable pub observed : Fingerprinting → IsFar → Arrival → Engine → AbuseObservation
unfolding assess
observed f is_far a e = record {
  ip_address = a.request.ip_address;
  timestamp = a.clock.at_observation;
  assessment = (assess f is_far a.session a.clock a.request e).0;
}

-- At most the newest 50.
abbrev pub trimmed : List AbuseObservation → List AbuseObservation
trimmed l = drop (length l - 50) l

pub history-dispatch :
    (f : Fingerprinting) (is_far : IsFar) (a : Arrival) (e : Engine) (key : String)
    → (dispatch f is_far a e).1.history key ≡ (
        if str_eq (f.fingerprint a.request) key
        then trimmed (e.history (f.fingerprint a.request) ++ observed f is_far a e ∷ [])
        else e.history key)
unfolding dispatch assess record_observation record_threat_indicator judge is_quarantined observed
history-dispatch f is_far a e key = refl

length-trimmed :
    (l : List AbuseObservation) (o : AbuseObservation)
    → length (trimmed (l ++ o ∷ [])) ≡ min 50 (length l + 1)
length-trimmed l o =
    omega (arith, length-append l (o ∷ []), length-drop (length (l ++ o ∷ []) - 50) (l ++ o ∷ []))

-- At most 50 observations are kept of each fingerprint.
abbrev IsBounded : Engine → Type 0
IsBounded e = (key : String) → length (e.history key) ≤ 50

IsBounded-dispatch :
    (f : Fingerprinting) (is_far : IsFar) (a : Arrival) (e : Engine)
    → IsBounded e
    → IsBounded (dispatch f is_far a e).1
IsBounded-dispatch f is_far a e b key =
    rw (history-dispatch f is_far a e key)
      (elim (Bool-cases (str_eq (f.fingerprint a.request) key)) [
        | inl same ↦ rw same (
            omega
              (arith, length-trimmed (e.history (f.fingerprint a.request)) (observed f is_far a e)))
        | inr other ↦ rw other (b key)
      ])

-- Serving any requests keeps at most 50 observations of each fingerprint.
dispatch_all-IsBounded :
    (f : Fingerprinting) (is_far : IsFar) (as_ : List Arrival) (e : Engine)
    → IsBounded e
    → IsBounded (dispatch_all f is_far as_ e)
unfolding dispatch_all
dispatch_all-IsBounded f is_far [] e b = b
dispatch_all-IsBounded f is_far (a ∷ as_) e b =
    dispatch_all-IsBounded f is_far as_ (dispatch f is_far a e).1
      (IsBounded-dispatch f is_far a e b)

grows :
    (f : Fingerprinting) (is_far : IsFar) (a : Arrival) (e : Engine) (key : String)
    → min 50 (length (e.history key) + one_if (str_eq (f.fingerprint a.request) key))
      ≤ length ((dispatch f is_far a e).1.history key)
grows f is_far a e key =
    rw (history-dispatch f is_far a e key)
      (elim (Bool-cases (str_eq (f.fingerprint a.request) key)) [
        | inl same ↦ rw same (
            omega (
              arith,
              length-trimmed (e.history (f.fingerprint a.request)) (observed f is_far a e),
              ap (λ k. length (e.history k)) ((eq_iff (f.fingerprint a.request) key).0 same),
            ))
        | inr other ↦ rw other (omega arith)
      ])

-- The history of a fingerprint never loses its requests, but for those before the newest 50.
cluster-dispatch_all :
    (f : Fingerprinting) (is_far : IsFar) (as_ : List Arrival) (e : Engine) (key : String)
    → min 50 (length (e.history key) + count f key as_)
      ≤ length ((dispatch_all f is_far as_ e).history key)
unfolding dispatch_all
cluster-dispatch_all f is_far [] e key = omega arith
cluster-dispatch_all f is_far (a ∷ as_) e key =
    let e' = (dispatch f is_far a e).1 in
    omega (arith, grows f is_far a e key, cluster-dispatch_all f is_far as_ e' key)

judge-clustered :
    (f : Fingerprinting) (is_far : IsFar) (s : Option Session) (k : Clock) (r : Request)
    (e : Engine)
    → 8 ≤ length (e.history (f.fingerprint r))
    → points 20 ≤ (judge f is_far s k r e).0.1
unfolding judge
judge-clustered f is_far s k r e h =
    let full =
      ap (λ b. (part b request_cluster_detected (points 20)).1)
        (le→leb 8 (length (e.history (f.fingerprint r))) h) in
    omega (arith, full)

abbrev pub is_allowed : AbuseAction → Bool
is_allowed allow = true
is_allowed _ = false

classify-not_allowed :
    (score : ℕ) (reasons : List Reason)
    → points 20 ≤ score
    → is_allowed (classify score reasons).action ≡ false
unfolding classify
classify-not_allowed score reasons h = ground arith

-- A request is never allowed as it is once eight requests with its fingerprint have been served, on
-- whatever engine, with whatever requests between them and however long ago.
pub assess-clustered :
    (f : Fingerprinting) (is_far : IsFar) (as_ : List Arrival) (e : Engine) (s : Option Session)
    (k : Clock) (r : Request)
    → 8 ≤ count f (f.fingerprint r) as_
    → is_allowed (assess f is_far s k r (dispatch_all f is_far as_ e)).0.action ≡ false
unfolding assess
assess-clustered f is_far as_ e s k r h = classify-not_allowed _ _ (
    judge-clustered f is_far s k r (dispatch_all f is_far as_ e)
      (omega (arith, cluster-dispatch_all f is_far as_ e (f.fingerprint r))))
