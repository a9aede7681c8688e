-- ===== src/Secrets/Staleness.antt =====
-- backend/security/secret_manager.py: how old a secret that is handed out can be.
use title_trust.Prelude.{
  ℕ, ◌+◌, ◌≡◌, ◌<◌, ◌⊎◌, inl, inr, refl, sym, ap, ◌∙◌, Bool, true, false, String, str_eq, eq_iff,
  Option, none, some, List, [], ◌∷◌, Any, ltb, ltb→lt, if-elim,
}
use title_trust.Secrets.{
  SecretCache, no_cache, Surroundings, valid_entry, cache_secret, take_secret, ask, provider_secret,
  checked, get_secret, Use, ask_for, clear_cache, use_secrets,
}
use mathlib.Core.Option.{some-injective, none-ne-some}

-- A call at which the service gave the value for the name, and which cache_secret it until a time.
IsSource : ℕ → String → String × ℕ → Use → Type 0
IsSource ttl name (value, expires_at) (ask_for e required asked) =
    (asked ≡ name) × (e.service asked ≡ some value) × (expires_at ≡ e.at_answer + ttl)
IsSource ttl name x clear_cache = ⊥

-- Every entry of the cache comes from one of the calls.
abbrev IsFounded : ℕ → List Use → SecretCache → Type 0
IsFounded ttl us cache =
    (name : String) (x : String × ℕ) → cache name ≡ some x → Any (IsSource ttl name x) us

-- An entry behind a call was there before it, or the call has made it.
abbrev IsOldOrNew : ℕ → Surroundings → String → SecretCache → SecretCache → Type 0
IsOldOrNew ttl e asked cache cache' =
    (name : String) (x : String × ℕ)
    → cache' name ≡ some x
    → (cache name ≡ some x)
      ⊎ ((asked ≡ name) × (e.service asked ≡ some x.0) × (x.1 ≡ e.at_answer + ttl))

cache_secret-IsOldOrNew :
    (ttl : ℕ) (e : Surroundings) (asked value : String) (cache : SecretCache)
    → e.service asked ≡ some value
    → IsOldOrNew ttl e asked cache (cache_secret asked value (e.at_answer + ttl) cache)
cache_secret-IsOldOrNew ttl e asked value cache given name x =
    if-elim
      (λ o.
        o ≡ some x
        → (cache name ≡ some x)
          ⊎ ((asked ≡ name) × (e.service asked ≡ some x.0) × (x.1 ≡ e.at_answer + ttl)))
      (str_eq asked name) (some (value, e.at_answer + ttl)) (cache name)
      (λ same h.
        let made = some-injective _ _ h in
        inr (
          (eq_iff asked name).0 same,
          given ∙ ap (λ (y : String × ℕ). some y.0) made,
          sym (ap (λ (y : String × ℕ). y.1) made),
        ))
      (λ _ h. inl h)

take_secret-IsOldOrNew :
    (ttl : ℕ) (e : Surroundings) (asked : String) (cache : SecretCache) (o : Option String)
    → e.service asked ≡ o
    → IsOldOrNew ttl e asked cache (take_secret ttl e asked cache o).1
take_secret-IsOldOrNew ttl e asked cache none given name x h = inl h
take_secret-IsOldOrNew ttl e asked cache (some value) given name x h =
    cache_secret-IsOldOrNew ttl e asked value cache given name x h

ask-IsOldOrNew :
    (ttl : ℕ) (e : Surroundings) (asked : String) (cache : SecretCache) (o : Option String)
    → IsOldOrNew ttl e asked cache (ask ttl e asked cache o).1
ask-IsOldOrNew ttl e asked cache (some value) name x h = inl h
ask-IsOldOrNew ttl e asked cache none name x h =
    if-elim (λ (r : Option String × SecretCache). IsOldOrNew ttl e asked cache r.1) e.has_client
      (take_secret ttl e asked cache (e.service asked)) (e.environment asked, cache)
      (λ _. take_secret-IsOldOrNew ttl e asked cache _ refl) (λ _ name x h. inl h) name x h

-- What the cache holds behind the calls it has held before, or one of the calls has made.
use_secrets-sources :
    (ttl : ℕ) (us : List Use) (cache : SecretCache) (name : String) (x : String × ℕ)
    → use_secrets ttl us cache name ≡ some x
    → (cache name ≡ some x) ⊎ Any (IsSource ttl name x) us
unfolding use_secrets get_secret provider_secret IsSource
use_secrets-sources ttl [] cache name x h = inl h
use_secrets-sources ttl (clear_cache ∷ us) cache name x h =
    elim (use_secrets-sources ttl us no_cache name x h) [
      | inl there ↦ absurd (none-ne-some x there)
      | inr source ↦ inr (inr source)
    ]
use_secrets-sources ttl (ask_for e required asked ∷ us) cache name x h =
    elim (use_secrets-sources ttl us _ name x h) [
      | inr source ↦ inr (inr source)
      | inl there ↦ elim (ask-IsOldOrNew ttl e asked cache _ name x there) [
        | inl before ↦ inl before
        | inr made ↦ inr (inl made)
      ]
    ]

-- Where a secret that a call gives can come from: from the environment, from the service in this call,
-- or from the service in a call before, whose answer came less than `ttl` before this call's test.
pub IsSupplied : ℕ → List Use → Surroundings → String → String → Type 0
IsSupplied ttl us e name value =
    (e.environment name ≡ some value)
    ⊎ ((e.service name ≡ some value)
        ⊎ ((expires_at : ℕ) × (e.at_test < expires_at)
            × Any (IsSource ttl name (value, expires_at)) us))

IsSupplied-take_secret :
    (ttl : ℕ) (us : List Use) (e : Surroundings) (name value : String) (cache : SecretCache)
    (o : Option String)
    → e.service name ≡ o
    → (take_secret ttl e name cache o).0 ≡ some value
    → IsSupplied ttl us e name value
unfolding IsSupplied
IsSupplied-take_secret ttl us e name value cache none given h = inl h
IsSupplied-take_secret ttl us e name value cache (some v) given h = inr (inl (given ∙ h))

IsSupplied-ask_again :
    (ttl : ℕ) (us : List Use) (e : Surroundings) (name value : String) (cache : SecretCache)
    → (ask ttl e name cache none).0 ≡ some value
    → IsSupplied ttl us e name value
unfolding IsSupplied
IsSupplied-ask_again ttl us e name value cache =
    if-elim (λ (r : Option String × SecretCache). r.0 ≡ some value → IsSupplied ttl us e name value)
      e.has_client (take_secret ttl e name cache (e.service name)) (e.environment name, cache)
      (λ _ h. IsSupplied-take_secret ttl us e name value cache _ refl h) (λ _ h. inl h)

IsSupplied-ask :
    (ttl : ℕ) (us : List Use) (e : Surroundings) (name value : String) (cache : SecretCache)
    (o : Option (String × ℕ))
    → cache name ≡ o
    → ((x : String × ℕ) → cache name ≡ some x → Any (IsSource ttl name x) us)
    → (ask ttl e name cache (valid_entry e.at_test o)).0 ≡ some value
    → IsSupplied ttl us e name value
unfolding IsSupplied valid_entry
IsSupplied-ask ttl us e name value cache none there founded h =
    IsSupplied-ask_again ttl us e name value cache h
IsSupplied-ask ttl us e name value cache (some (v, expires_at)) there founded h =
    if-elim (λ o. (ask ttl e name cache o).0 ≡ some value → IsSupplied ttl us e name value)
      (ltb e.at_test expires_at) (some v) none
      (λ valid same. inr (
        inr (
          expires_at,
          ltb→lt _ _ valid,
          founded (value, expires_at)
              (there ∙ ap (λ w. some (w, expires_at)) (some-injective _ _ same)),
        )))
      (λ _. IsSupplied-ask_again ttl us e name value cache) h

checked-some :
    (required : Bool) (o : Option String) {value : String}
    → checked required o ≡ some (some value)
    → o ≡ some value
checked-some false o h = some-injective _ _ h
checked-some true none h = absurd (none-ne-some _ h)
checked-some true (some v) {value} h =
    if-elim (λ o. o ≡ some (some value) → some v ≡ some value) (str_eq v "") none (some (some v))
      (λ _ g. absurd (none-ne-some _ g)) (λ _ g. some-injective _ _ g) h

-- The sources of a new manager.
from_calls :
    (ttl : ℕ) (us : List Use) (name : String) (x : String × ℕ)
    → (no_cache name ≡ some x) ⊎ Any (IsSource ttl name x) us
    → Any (IsSource ttl name x) us
from_calls ttl us name x (inl there) = absurd (none-ne-some x there)
from_calls ttl us name x (inr source) = source

-- A secret that a call of get_secret gives, after any calls on a new manager, comes from the
-- environment, or from the service in this call, or in a call whose answer came less than the time to
-- live before.
pub get_secret-IsSupplied :
    (ttl : ℕ) (us : List Use) (e : Surroundings) (required : Bool) (name value : String)
    → (get_secret ttl e required name (use_secrets ttl us no_cache)).0 ≡ some (some value)
    → IsSupplied ttl us e name value
unfolding get_secret provider_secret
get_secret-IsSupplied ttl us e required name value h =
    IsSupplied-ask ttl us e name value (use_secrets ttl us no_cache) _ refl
      (λ x there. from_calls ttl us name x (use_secrets-sources ttl us no_cache name x there))
      (checked-some required _ h)
