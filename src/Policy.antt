-- ===== src/Policy.antt =====
-- backend/services/policy_service.py: PolicyService, and the policies of
-- backend/repositories/policy_repository.py. What the repository returns at the time of a call is
-- an argument; times are microseconds.
pub mod Decision
pub mod Staleness
use title_trust.Prelude.{
  ℕ, ◌+◌, Bool, true, false, ◌&&◌, ◌||◌, not, String, Option, none, some, List, [], ◌∷◌, ◌++◌, any,
  ltb, if◌then◌else◌, str_eq, seconds,
}
use title_trust.Text.{Text, codes, text_eq}

pub data Effect : Type 0 where
  allow deny other : Effect

-- Attributes are JSON values `V`; `none` is a missing key as well as null.
pub record Statement (V : Type 0) : Type 0 where
  pub effect : Effect
  pub actions : List String
  pub roles : List String
  pub owner_only : Bool
  pub required_attributes : List (String × Option V)

pub record Membership (V : Type 0) : Type 0 where
  pub roles : List String
  pub attributes : String → Option V

-- A resource that is not empty. An empty one is no resource, as in the code.
pub record Resource : Type 0 where
  pub organization_id : Option String
  pub user_id : Option String

pub data Reason : Type 0 where
  no_membership tenant_boundary explicit_deny policy_allow no_matching_allow : Reason

abbrev is_text : Option String → String → Bool
is_text none t = false
is_text (some s) t = str_eq s t

-- `resource and resource.get("organization_id") not in {None, organization_id}`
pub violates : Option Resource → String → Bool
violates none org = false
violates (some r) org = elim r.organization_id [ none ↦ false | some o ↦ not (str_eq o org) ]

-- `not resource or resource.get("user_id") != user_id`
is_not_owner : Option Resource → String → Bool
is_not_owner none user = true
is_not_owner (some r) user = not (is_text r.user_id user)

abbrev pub is_deny : Effect → Bool
is_deny deny = true
is_deny _ = false

abbrev pub is_allow : Effect → Bool
is_allow allow = true
is_allow _ = false

abbrev member : String → List String → Bool
member x l = any (str_eq x) l

-- Whether two sets meet: `not roles.isdisjoint(…)`.
abbrev meets : List String → List String → Bool
meets xs ys = any (λ x. member x ys) xs

-- `same` is the equality of JSON values.
module _ {V : Type 0} (same : V → V → Bool) where
  abbrev differs : Option V → Option V → Bool
  differs none none = false
  differs none (some v) = true
  differs (some v) none = true
  differs (some v) (some v') = not (same v v')

  abbrev lacks : (String → Option V) → List (String × Option V) → Bool
  lacks attributes required = any (λ (x : String × _). differs (attributes x.0) x.1) required

  -- The four `continue` tests of the loop of `evaluate`: whether a statement counts.
  pub applies : String → String → Option Resource → Membership V → Statement V → Bool
  unfolding is_not_owner
  applies action user resource m s =
      if not (member action s.actions)
      then false
      else (if not (meets m.roles s.roles)
          then false
          else (if s.owner_only && is_not_owner resource user
              then false
              else not (lacks m.attributes s.required_attributes)))

  -- The loop over the statements, with the flags `explicit_deny` and `allow`.
  pub scan :
      String
      → String
      → Option Resource
      → Membership V
      → List (Statement V)
      → Bool × Bool
      → Bool × Bool
  unfolding applies
  scan action user resource m [] flags = flags
  scan action user resource m (s ∷ rest) (denied, allowed) = scan action user resource m rest (
      if not (applies action user resource m s)
      then (denied, allowed)
      else (if is_deny s.effect
          then (true, allowed)
          else (if is_allow s.effect then (denied, true) else (denied, allowed))))

  -- `evaluate` once the membership and the policy are known.
  pub decide :
      String
      → String
      → String
      → Option Resource
      → Option (Membership V)
      → List (Statement V)
      → Bool × Reason
  unfolding violates scan
  decide action org user resource none statements = (false, no_membership)
  decide action org user resource (some m) statements =
      if violates resource org
      then (false, tenant_boundary)
      else (let (denied, allowed) = scan action user resource m statements (false, false) in
          if denied
          then (false, explicit_deny)
          else (if allowed then (true, policy_allow) else (false, no_matching_allow)))

-- A cache: the time at which an entry was read, and what was read.
pub record PolicyService (V : Type 0) : Type 0 where
  pub policy_cache : String → Option (ℕ × List (Statement V))
  pub membership_cache : Text → Option (ℕ × Membership V)

-- `f"{organization_id}:{user_id}"`
abbrev pub membership_key : String → String → Text
membership_key org user = codes org ++ (codes ":" ++ codes user)

-- The test for a cached entry.
abbrev pub fresh {ℓ} : {A : Type ℓ} → ℕ → ℕ → Option (ℕ × A) → Option A
fresh ttl now none = none
fresh ttl now (some (time, a)) = if ltb now (time + seconds ttl) then some a else none

module _ {V : Type 0} where
  pub cached_policy :
      ℕ
      → ℕ
      → (String → List (Statement V))
      → String
      → PolicyService V
      → List (Statement V) × PolicyService V
  cached_policy ttl now repository org w = elim (fresh ttl now (w.policy_cache org)) [
    | some policy ↦ (policy, w)
    | none ↦ (
      repository org,
      record w {
        policy_cache = λ o. if str_eq org o then some (now, repository org) else w.policy_cache o;
      },
    )
  ]

  pub cached_membership :
      ℕ
      → ℕ
      → (String → String → Option (Membership V))
      → String
      → String
      → PolicyService V
      → Option (Membership V) × PolicyService V
  cached_membership ttl now repository org user w =
      elim (fresh ttl now (w.membership_cache (membership_key org user))) [
        | some m ↦ (some m, w)
        | none ↦ elim (repository org user) [
          | none ↦ (none, w)
          | some m ↦ (
            some m,
            record w {
              membership_cache = λ k.
                  if text_eq (membership_key org user) k
                  then some (now, m)
                  else w.membership_cache k;
            },
          )
        ]
      ]

  -- `evaluate`. The policy is read only where there is a membership and no violation.
  pub evaluate :
      (V → V → Bool)
      → ℕ
      → ℕ
      → (String → List (Statement V))
      → (String → String → Option (Membership V))
      → String
      → String
      → String
      → Option Resource
      → PolicyService V
      → (Bool × Reason) × PolicyService V
  unfolding cached_policy cached_membership decide
  evaluate same ttl now policies memberships action org user resource w =
      let (found, w') = cached_membership ttl now memberships org user w in
      elim found [
        | none ↦ ((false, no_membership), w')
        | some m ↦
            if violates resource org
            then ((false, tenant_boundary), w')
            else (let (statements, w'') = cached_policy ttl now policies org w' in
                (decide same action org user resource (some m) statements, w''))
      ]
