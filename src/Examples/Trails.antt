-- ===== src/Examples/Trails.antt =====
-- The audit events of two sessions, and exports of one.
use title_trust.Prelude.{ℕ, ◌+◌, ◌≤◌, ◌⊎◌, refl, none, [], ◌∷◌, arith}
use title_trust.Text.{Text, codes, decimal}
use title_trust.Text.Fields.{IsFree}
use title_trust.AuditLog.{AuditEvent, Hashing, Entry, hashed_text, append_all}
use title_trust.AuditLog.Memory.{log_in_memory}
use title_trust.AuditLog.Chain.{IsSound, IsChain, append_all-IsSound}
use title_trust.AuditLog.Tamper.{IsPlain, Collision, IsSameTrail, final-IsSameTrail}

-- A digest of one character: the sum of the characters, from 1000 on.
abbrev sum : Text → ℕ
sum [] = 1_000
sum (c ∷ t) = c + sum t

abbrev digest : Text → Text
digest t = sum t ∷ []

le-sum : (t : Text) → 1_000 ≤ sum t
le-sum [] = omega arith
le-sum (c ∷ t) = omega (arith, le-sum t)

IsFree-digest : (t : Text) → IsFree b':' (digest t)
IsFree-digest t = (omega (arith, le-sum t), tt)

abbrev hashing : Hashing Text
hashing = record { canonical = λ t. t; sha256 = digest }

abbrev entry : Text → Text → Text → Entry Text
entry session event payload = record {
  session_id = session;
  event_type = event;
  payload = payload;
  actor_id = none;
  now = 5;
}

append_all-IsSound_example : IsSound hashing (
    append_all hashing (log_in_memory Text) [] (
      entry (codes "s") (codes "audit.started") []
      ∷ entry (codes "t") (codes "audit.started") []
      ∷ entry (codes "s") (codes "audit.tick") (codes "{}")
      ∷ []))
append_all-IsSound_example = append_all-IsSound hashing (log_in_memory Text) [] _ refl

-- A chain of one event, written at a time.
abbrev event : ℕ → AuditEvent Text
event now = record {
  session_id = codes "s";
  sequence = 1;
  event_type = codes "e";
  payload = codes "{}";
  actor_id = none;
  previous_hash = [];
  event_hash = digest (codes "s:1:e:::{}");
  created_at_epoch = now;
}

event-IsPlain : (now : ℕ) → IsPlain (event now)
event-IsPlain now = record { event_type = (omega arith, tt); actor = tt }

event-IsChain : (now : ℕ) → IsChain hashing (codes "s") 0 [] (event now ∷ [])
unfolding hashed_text decimal
event-IsChain now = (refl, refl, refl, refl, tt)

final-IsSameTrail_example :
    IsSameTrail hashing (event 5 ∷ []) (event 9 ∷ [])
    ⊎ Collision hashing (codes "s") (event 5 ∷ []) (event 9 ∷ [])
final-IsSameTrail_example =
    final-IsSameTrail hashing IsFree-digest (codes "s") (event 5) (event 9) [] []
      (event-IsPlain 5, tt) (event-IsPlain 9, tt) (event-IsChain 5) (event-IsChain 9) refl
