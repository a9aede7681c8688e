-- ===== src/Examples/Outages.antt =====
-- A service that answers once and then fails.
use title_trust.Prelude.{ℕ, Bool, true, none, some, List, [], ◌∷◌}
use title_trust.Degradation.{Manager, new, unavailable, execute}
use title_trust.Degradation.Levels.{Call}

abbrev truthy : ℕ → Bool
truthy n = true

abbrev answered : Manager ℕ
answered = (execute truthy "gemini" (some "k") 5 (some 9) none new).1

abbrev down : Manager ℕ
down = record { service_status = λ name. unavailable; fallback_caches = λ name key. none }

abbrev calls : List (Call truthy)
calls =
    record { name = "gemini"; key = some "k"; now = 5; outcome = some 9; fallback = none }
    ∷ record { name = "gemini"; key = none; now = 6; outcome = some 8; fallback = none }
    ∷ []
