-- ===== src/Policy/Decision.antt =====
-- What `evaluate` allows, without the order of the statements.
use title_trust.Prelude.{
  ◌≡◌, ◌∙◌, refl, Bool, true, false, not, ◌&&◌, ◌||◌, String, Option, none, some, List, [], ◌∷◌,
  any, if◌then◌else◌,
}
use title_trust.Policy.{
  Effect, allow, deny, other, Statement, Membership, Resource, Reason, no_membership,
  tenant_boundary, explicit_deny, policy_allow, no_matching_allow, violates, is_deny, is_allow,
  applies, scan, decide,
}

module _ {V : Type 0} (same : V → V → Bool) (action org user : String)
    (resource : Option Resource) where
  -- Whether a statement that counts has an effect.
  abbrev pub says : (Effect → Bool) → Membership V → Statement V → Bool
  says effect m s = applies same action user resource m s && effect s.effect

  -- One round of the loop, on the flags.
  abbrev counted : Bool → Effect → Bool × Bool → Bool × Bool
  counted b e (denied, allowed) =
      if not b
      then (denied, allowed)
      else (if is_deny e
          then (true, allowed)
          else (if is_allow e then (denied, true) else (denied, allowed)))

  counted-or :
      (b : Bool) (e : Effect) (f : Bool × Bool) (x y : Bool)
      → ◌≡◌ {A = Bool × Bool}
          ((counted b e f).0 || x, (counted b e f).1 || y)
          (f.0 || ((b && is_deny e) || x), f.1 || ((b && is_allow e) || y))
  counted-or false e f x y = refl
  counted-or true deny (true, a) x y = refl
  counted-or true deny (false, a) x y = refl
  counted-or true allow (d, true) x y = refl
  counted-or true allow (d, false) x y = refl
  counted-or true other f x y = refl

  scan-any :
      (m : Membership V) (statements : List (Statement V)) (f : Bool × Bool)
      → scan same action user resource m statements f
        ≡ (f.0 || any (says is_deny m) statements, f.1 || any (says is_allow m) statements)
  unfolding scan
  scan-any m [] (true, true) = refl
  scan-any m [] (true, false) = refl
  scan-any m [] (false, true) = refl
  scan-any m [] (false, false) = refl
  scan-any m (s ∷ rest) f =
      scan-any m rest (counted (applies same action user resource m s) s.effect f)
      ∙ counted-or (applies same action user resource m s) s.effect f (any (says is_deny m) rest)
          (any (says is_allow m) rest)

  -- The decision with no loop: a deny that counts is stronger than every allow, wherever the two
  -- stand, and without an allow that counts nothing is allowed.
  abbrev pub judged : Option (Membership V) → List (Statement V) → Bool × Reason
  judged none statements = (false, no_membership)
  judged (some m) statements =
      if violates resource org
      then (false, tenant_boundary)
      else (if any (says is_deny m) statements
          then (false, explicit_deny)
          else (if any (says is_allow m) statements
              then (true, policy_allow)
              else (false, no_matching_allow)))

  -- The loop of `evaluate` over the statements decides as `judged`: no membership, then a
  -- violation of the tenant boundary, then any statement that counts and denies, then any that
  -- counts and allows; in particular the order of the statements does not matter.
  pub decide-judged :
      (found : Option (Membership V)) (statements : List (Statement V))
      → decide same action org user resource found statements ≡ judged found statements
  unfolding decide
  decide-judged none statements = refl
  decide-judged (some m) statements = rw (scan-any m statements (false, false)) refl
