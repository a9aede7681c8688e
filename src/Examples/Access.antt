-- ===== src/Examples/Access.antt =====
-- Roles, and a policy with a statement that denies.
use title_trust.Prelude.{
  ◌≡◌, arith, Bool, true, false, String, Option, none, some, List, [], ◌∷◌, any, str_eq,
}
use title_trust.Authz.{audit_start, role_of, permitted}
use title_trust.Authz.Ranks.{is_enough, permitted-rank}
use title_trust.Policy.{Effect, allow, deny, Statement, Membership, Resource, PolicyService, decide}
use title_trust.Policy.Decision.{judged, decide-judged}
use title_trust.Policy.Staleness.{ReadBy}

abbrev names : List String
names = "guest" ∷ "auditor" ∷ []

permitted-rank_example :
    permitted audit_start names ≡ any (λ name. is_enough audit_start (role_of name)) names
permitted-rank_example = permitted-rank audit_start names

abbrev statement : Effect → Bool → Statement String
statement e owner = record {
  effect = e;
  actions = "audit:read" ∷ [];
  roles = "auditor" ∷ [];
  owner_only = owner;
  required_attributes = [];
}

abbrev statements : List (Statement String)
statements = statement allow false ∷ statement deny true ∷ []

abbrev membership : Membership String
membership = record { roles = "auditor" ∷ []; attributes = λ key. none }

abbrev resource : Option Resource
resource = some (record { organization_id = some "org"; user_id = some "u2" })

decide-judged_example :
    decide str_eq "audit:read" "org" "u1" resource (some membership) statements
    ≡ judged str_eq "audit:read" "org" "u1" resource (some membership) statements
decide-judged_example =
    decide-judged str_eq "audit:read" "org" "u1" resource (some membership) statements

-- Caches in which everything was read at 0.
abbrev caches : PolicyService String
caches = record {
  policy_cache = λ org. some (0, statements);
  membership_cache = λ key. some (0, membership);
}

caches-ReadBy : ReadBy 0 caches
caches-ReadBy = record {
  policies_by = λ org t p e. ground arith;
  memberships_by = λ key t m e. ground arith;
}

abbrev policies : String → List (Statement String)
policies org = []

abbrev memberships : String → String → Option (Membership String)
memberships org user = none
