-- ===== src/Authz.antt =====
-- backend/domain/authz.py and the test of roles in backend/core/authorization.py. A set of roles or
-- of permissions is a list of its members, of which only membership counts.
pub mod Ranks
use title_trust.Prelude.{
  ◌==◌, ℕ, Bool, String, Option, none, some, List, [], ◌∷◌, ◌++◌, any, str_eq, if◌then◌else◌,
}

pub data Role : Type 0 where
  super_admin auditor analyst reviewer : Role

pub data Permission : Type 0 where
  audit_start audit_read audit_retry forensic_run geospatial_run titbits_read : Permission
  device_session_manage : Permission

-- `Role(raw)`; `none` is the ValueError.
unfoldable pub role_of : String → Option Role
role_of raw =
    if str_eq raw "super_admin"
    then some super_admin
    else (if str_eq raw "auditor"
        then some auditor
        else (if str_eq raw "analyst"
            then some analyst
            else (if str_eq raw "reviewer" then some reviewer else none)))

-- `ROLE_HIERARCHY`
abbrev pub role_hierarchy : Role → List Role
role_hierarchy super_admin = super_admin ∷ auditor ∷ analyst ∷ reviewer ∷ []
role_hierarchy auditor = auditor ∷ analyst ∷ reviewer ∷ []
role_hierarchy analyst = analyst ∷ reviewer ∷ []
role_hierarchy reviewer = reviewer ∷ []

-- `ROLE_PERMISSIONS`
abbrev pub role_permissions : Role → List Permission
role_permissions super_admin =
    audit_start ∷ audit_read ∷ audit_retry ∷ forensic_run ∷ geospatial_run ∷ titbits_read
    ∷ device_session_manage ∷ []
role_permissions auditor =
    audit_read ∷ audit_retry ∷ forensic_run ∷ geospatial_run ∷ titbits_read ∷ device_session_manage
    ∷ []
role_permissions analyst =
    audit_start ∷ audit_read ∷ forensic_run ∷ geospatial_run ∷ titbits_read ∷ device_session_manage
    ∷ []
role_permissions reviewer = audit_read ∷ titbits_read ∷ device_session_manage ∷ []

-- `_expand_roles`: names that are no role are left out.
pub expand_roles : List String → List Role
expand_roles [] = []
expand_roles (raw ∷ rest) =
    let resolved = expand_roles rest in
    elim (role_of raw) [ none ↦ resolved | some r ↦ role_hierarchy r ++ resolved ]

-- `_permissions_for_roles`
pub permissions_for_roles : List Role → List Permission
permissions_for_roles [] = []
permissions_for_roles (r ∷ roles) = role_permissions r ++ permissions_for_roles roles

-- The members of `Permission`, told apart by their place.
abbrev pub number : Permission → ℕ
number audit_start = 0
number audit_read = 1
number audit_retry = 2
number forensic_run = 3
number geospatial_run = 4
number titbits_read = 5
number device_session_manage = 6

-- `permission in permissions`, the test of `require_permission`.
pub permitted : Permission → List String → Bool
unfolding expand_roles permissions_for_roles
permitted p raw = any (λ q. number p == number q) (permissions_for_roles (expand_roles raw))
