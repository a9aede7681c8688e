-- ===== src/Examples/Secrets.antt =====
-- A secret that the service gives once, and a later call that the cache answers.
use title_trust.Prelude.{◌≡◌, refl, some, none, true, [], ◌∷◌, List, seconds}
use title_trust.Secrets.{
  Surroundings, Use, ask_for, use_secrets, no_cache, get_secret, provider_secret, valid_entry,
}
use title_trust.Secrets.Staleness.{IsSupplied, get_secret-IsSupplied}

abbrev reachable : Surroundings
reachable = record {
  at_test = seconds 10;
  at_answer = seconds 11;
  has_client = true;
  service = λ name. some "old";
  environment = λ name. none;
}

-- The service has a new version by then.
abbrev later : Surroundings
later = record {
  at_test = seconds 70;
  at_answer = seconds 71;
  has_client = true;
  service = λ name. some "new";
  environment = λ name. none;
}

abbrev uses : List Use
uses = ask_for reachable true "jwt-secret" ∷ []

answered_old :
    (get_secret (seconds 60) later true "jwt-secret" (use_secrets (seconds 60) uses no_cache)).0
    ≡ some (some "old")
unfolding get_secret provider_secret use_secrets valid_entry
answered_old = refl

get_secret-IsSupplied_example : IsSupplied (seconds 60) uses later "jwt-secret" "old"
get_secret-IsSupplied_example =
    get_secret-IsSupplied (seconds 60) uses later true "jwt-secret" "old" answered_old
