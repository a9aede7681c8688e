-- ===== src/Examples/Limits.antt =====
-- Requests and calls of the Gemini interface at a few times.
use title_trust.Prelude.{
  ℕ, ◌+◌, ◌-◌, ◌≤◌, ◌≡◌, refl, arith, Bool, true, false, List, [], ◌∷◌, seconds, String,
}
use title_trust.Window.{IsSorted, count_in}
use title_trust.RateLimit.{empty}
use title_trust.RateLimit.Bound.{
  span_of, verdicts, specified, verdicts-specified, admitted, admitted-bounded,
}
use title_trust.Gemini as Gemini
use title_trust.Gemini.{Config, Cache, round, sleep_for, await_capacity, execute_forensic_analysis}
use title_trust.Gemini.Capacity.{calls, calls-le-max_calls}
use title_trust.Gemini.Cache.{execute_all}

abbrev times : List ℕ
times = 1_000_000 ∷ 2_000_000 ∷ 2_000_000 ∷ 70_000_000 ∷ []

times-IsSorted : IsSorted times
times-IsSorted = ground arith

verdicts-specified_example : verdicts "api:1" 2 times empty ≡ specified 2 times []
verdicts-specified_example = verdicts-specified "api:1" 2 times times-IsSorted

admitted-bounded_example : count_in (span_of 60) 2_000_000 (admitted "api:1" 3 times empty) ≤ 3 - 1
admitted-bounded_example = admitted-bounded "api:1" 3 times 2_000_000 times-IsSorted

abbrev config : Config
config = record {
  max_calls = 2;
  period_seconds = 60;
  cache_ttl_seconds = 300;
  cache_enabled = true;
}

calls-le-max_calls_example :
    count_in (seconds 60) 1_000_000 (calls config times []) ≤ config.max_calls
calls-le-max_calls_example = calls-le-max_calls config times 1_000_000 (omega arith) times-IsSorted

abbrev stamps : List ℕ
stamps = 1_000_000 ∷ 2_000_000 ∷ []

-- The first round at 3 seconds sleeps for 58 seconds.
slept : (s : ℕ) → (round config 3_000_000 stamps).0 ≡ sleep_for s → 3_000_000 + s ≤ 61_000_000
unfolding round
slept s e = ground arith

-- Results of analyses: true stands for one with an error.
abbrev has_error : Bool → Bool
has_error b = b

abbrev no_entries : Cache Bool
no_entries = Gemini.empty

abbrev after : Cache Bool
after = (execute_forensic_analysis has_error config "f" 5 6 false no_entries).2

called : (execute_forensic_analysis has_error config "f" 5 6 false no_entries).1 ≡ true
unfolding execute_forensic_analysis
called = refl

abbrev analyses : List (String × ℕ × ℕ × Bool)
analyses = ("f", 5, 6, false) ∷ ("g", 7, 8, true) ∷ []

abbrev filled : Cache Bool
filled = execute_all has_error config analyses Gemini.empty

answered : (execute_forensic_analysis has_error config "f" 9 9 true filled).1 ≡ false
unfolding execute_forensic_analysis
answered = refl
