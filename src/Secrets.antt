-- ===== src/Secrets.antt =====
-- backend/security/secret_manager.py: GCPSecretManagerProvider with its cache and the fallback to the
-- environment, and SecretManager on top of it. What the service and the environment have for a name
-- is an argument, at each call; times are whole microseconds.
pub mod Staleness
use title_trust.Prelude.{
  ℕ, ◌+◌, ◌*◌, ◌≡◌, ◌≤◌, ◌<◌, Bool, true, false, String, str_eq, Option, none, some, List, [], ◌∷◌,
  ltb, seconds, if◌then◌else◌,
}

-- `_cache`: a value and when it expires.
abbrev pub SecretCache : Type 0
SecretCache = String → Option (String × ℕ)

abbrev pub no_cache : SecretCache
no_cache name = none

-- What surrounds one call: the clock at the test of the cache and behind the answer, whether there
-- is a client, and what the service (`none`: it raised) and the environment have for a name.
pub record Surroundings : Type 0 where
  pub at_test : ℕ
  pub at_answer : ℕ
  pub has_client : Bool
  pub service : String → Option String
  pub environment : String → Option String

-- `_is_cache_valid` with the value: `None` in the cache is not valid, and so is one that has expired.
unfoldable pub valid_entry : ℕ → Option (String × ℕ) → Option String
valid_entry now none = none
valid_entry now (some (value, expires_at)) = if ltb now expires_at then some value else none

abbrev pub cache_secret : String → String → ℕ → SecretCache → SecretCache
cache_secret name value expires_at cache other =
    if str_eq name other then some (value, expires_at) else cache other

-- The service's answer is cached; without one the environment answers.
abbrev pub take_secret :
    ℕ → Surroundings → String → SecretCache → Option String → Option String × SecretCache
take_secret ttl e name cache (some value) =
    (some value, cache_secret name value (e.at_answer + ttl) cache)
take_secret ttl e name cache none = (e.environment name, cache)

abbrev pub ask :
    ℕ → Surroundings → String → SecretCache → Option String → Option String × SecretCache
ask ttl e name cache (some value) = (some value, cache)
ask ttl e name cache none =
    if e.has_client
    then take_secret ttl e name cache (e.service name)
    else (e.environment name, cache)

-- `GCPSecretManagerProvider.get_secret`, with `cache_ttl`
unfoldable pub provider_secret :
    ℕ → Surroundings → String → SecretCache → Option String × SecretCache
unfolding valid_entry
provider_secret ttl e name cache = ask ttl e name cache (valid_entry e.at_test (cache name))

-- `SecretManager.get_secret`: `none` is the ValueError for a required secret that is missing or empty.
abbrev pub checked : Bool → Option String → Option (Option String)
checked false o = some o
checked true none = none
checked true (some value) = if str_eq value "" then none else some (some value)

unfoldable pub get_secret :
    ℕ → Surroundings → Bool → String → SecretCache → Option (Option String) × SecretCache
unfolding provider_secret
get_secret ttl e required name cache =
    let (value, cache') = provider_secret ttl e name cache in (checked required value, cache')

-- The calls of a process, each of `get_secret` or of `clear_cache`.
pub data Use : Type 0 where
  ask_for : Surroundings → Bool → String → Use
  clear_cache : Use

unfoldable pub use_secrets : ℕ → List Use → SecretCache → SecretCache
unfolding get_secret
use_secrets ttl [] cache = cache
use_secrets ttl (clear_cache ∷ us) cache = use_secrets ttl us no_cache
use_secrets ttl (ask_for e required name ∷ us) cache =
    let cache' = (get_secret ttl e required name cache).1 in use_secrets ttl us cache'
