-- ===== src/Authz/Ranks.antt =====
-- The hierarchy as ranks: each permission has the lowest rank that has it.
use title_trust.Prelude.{
  ◌==◌, ℕ, ◌≡◌, ◌∙◌, refl, Bool, false, ◌||◌, String, Option, none, some, List, [], ◌∷◌, ◌++◌, any,
  leb, arith, any-append,
}
use title_trust.Authz.{
  Role, super_admin, auditor, analyst, reviewer, Permission, audit_start, audit_read, audit_retry,
  forensic_run, geospatial_run, titbits_read, device_session_manage, role_of, role_hierarchy,
  role_permissions, expand_roles, permissions_for_roles, number, permitted,
}

abbrev rank : Role → ℕ
rank super_admin = 3
rank auditor = 2
rank analyst = 1
rank reviewer = 0

abbrev lowest_rank : Permission → ℕ
lowest_rank audit_start = 1
lowest_rank audit_read = 0
lowest_rank audit_retry = 2
lowest_rank forensic_run = 1
lowest_rank geospatial_run = 1
lowest_rank titbits_read = 0
lowest_rank device_session_manage = 0

-- A name is enough for a permission if it is that of a role of a rank that has it.
abbrev pub is_enough : Permission → Option Role → Bool
is_enough p none = false
is_enough p (some r) = leb (lowest_rank p) (rank r)

has : Permission → List Role → Bool
unfolding permissions_for_roles
has p roles = any (λ q. number p == number q) (permissions_for_roles roles)

has-append : (p : Permission) (rs ss : List Role) → has p (rs ++ ss) ≡ (has p rs || has p ss)
unfolding has permissions_for_roles
has-append p [] ss = refl
has-append p (r ∷ rs) ss = ground (
  arith,
  has-append p rs ss,
  any-append (λ q. number p == number q) (role_permissions r) (permissions_for_roles (rs ++ ss)),
  any-append (λ q. number p == number q) (role_permissions r) (permissions_for_roles rs),
)

has-hierarchy :
    (p : Permission) (r : Role) → has p (role_hierarchy r) ≡ leb (lowest_rank p) (rank r)
unfolding has permissions_for_roles
has-hierarchy audit_start super_admin = refl
has-hierarchy audit_start auditor = refl
has-hierarchy audit_start analyst = refl
has-hierarchy audit_start reviewer = refl
has-hierarchy audit_read super_admin = refl
has-hierarchy audit_read auditor = refl
has-hierarchy audit_read analyst = refl
has-hierarchy audit_read reviewer = refl
has-hierarchy audit_retry super_admin = refl
has-hierarchy audit_retry auditor = refl
has-hierarchy audit_retry analyst = refl
has-hierarchy audit_retry reviewer = refl
has-hierarchy forensic_run super_admin = refl
has-hierarchy forensic_run auditor = refl
has-hierarchy forensic_run analyst = refl
has-hierarchy forensic_run reviewer = refl
has-hierarchy geospatial_run super_admin = refl
has-hierarchy geospatial_run auditor = refl
has-hierarchy geospatial_run analyst = refl
has-hierarchy geospatial_run reviewer = refl
has-hierarchy titbits_read super_admin = refl
has-hierarchy titbits_read auditor = refl
has-hierarchy titbits_read analyst = refl
has-hierarchy titbits_read reviewer = refl
has-hierarchy device_session_manage super_admin = refl
has-hierarchy device_session_manage auditor = refl
has-hierarchy device_session_manage analyst = refl
has-hierarchy device_session_manage reviewer = refl

-- A user with the named roles has a permission exactly if one of the names is that of a role whose
-- rank reaches the lowest rank that the permission wants. The union of the hierarchies and of
-- their permissions comes to one comparison.
pub permitted-rank :
    (p : Permission) (raw : List String)
    → permitted p raw ≡ any (λ name. is_enough p (role_of name)) raw
unfolding permitted expand_roles has permissions_for_roles
permitted-rank p [] = refl
permitted-rank p (name ∷ rest) = named (role_of name) refl (permitted-rank p rest)
  where
    named :
        (o : Option Role)
        → role_of name ≡ o
        → permitted p rest ≡ any (λ n. is_enough p (role_of n)) rest
        → has p (expand_roles (name ∷ rest)) ≡ any (λ n. is_enough p (role_of n)) (name ∷ rest)
    named none e ih = rw (e, expand_roles) ih
    named (some r) e ih =
        rw (e, expand_roles)
          (has-append p (role_hierarchy r) (expand_roles rest) ∙ rw (has-hierarchy p r, ih) refl)
