-- ===== src/Policy/Staleness.antt =====
-- How long an answer of `evaluate` can rest on what the repository no longer says.
use title_trust.Prelude.{
  ap, ℕ, ◌+◌, ◌≤◌, ◌<◌, ◌≡◌, refl, Bool, String, Option, none, some, List, seconds, arith, lt→ltb,
  Bool-cases, inl, inr,
}
use title_trust.Text.{Text}
use title_trust.Policy.{
  Statement, Membership, Resource, PolicyService, membership_key, fresh, violates, cached_policy,
  cached_membership, decide, evaluate,
}

-- Every entry was read at `time` or before.
pub record ReadBy {V : Type 0} (time : ℕ) (w : PolicyService V) : Type 0 where
  pub policies_by :
      (org : String) (t : ℕ) (p : List (Statement V)) → w.policy_cache org ≡ some (t, p) → t ≤ time
  pub memberships_by :
      (key : Text) (t : ℕ) (m : Membership V) → w.membership_cache key ≡ some (t, m) → t ≤ time

expired {ℓ} :
    {A : Type ℓ} (ttl now time : ℕ) (o : Option (ℕ × A))
    → ((t : ℕ) (a : A) → o ≡ some (t, a) → t ≤ time)
    → time + seconds ttl ≤ now
    → fresh ttl now o ≡ none
expired ttl now time none h k = refl
expired ttl now time (some (t, a)) h k = let q = h t a refl in ground arith

module _ {V : Type 0} (same : V → V → Bool) (ttl now : ℕ) (policies : String → List (Statement V))
    (memberships : String → String → Option (Membership V)) (action org user : String)
    (resource : Option Resource) (w : PolicyService V) where
  -- Once the time to live has passed since the last read that is cached, the answer is that of
  -- what the repository says now: a membership that was taken away, or a policy that was changed,
  -- counts from then on at the latest.
  evaluate-current :
      (time : ℕ)
      → ReadBy time w
      → time + seconds ttl ≤ now
      → (evaluate same ttl now policies memberships action org user resource w).0
        ≡ decide same action org user resource (memberships org user) (policies org)
  unfolding evaluate decide cached_membership cached_policy
  evaluate-current time h k = found (memberships org user) refl
    where
      no_entry : fresh ttl now (w.membership_cache (membership_key org user)) ≡ none
      no_entry = expired ttl now time _ (h.memberships_by (membership_key org user)) k

      no_policy : fresh ttl now (w.policy_cache org) ≡ none
      no_policy = expired ttl now time _ (h.policies_by org) k

      found :
          (o : Option (Membership V))
          → memberships org user ≡ o
          → (evaluate same ttl now policies memberships action org user resource w).0
            ≡ decide same action org user resource o (policies org)
      found none e = rw (no_entry, e, evaluate, cached_membership)
      found (some m) e =
          let entry : (cached_membership ttl now memberships org user w).0 ≡ some m =
            rw (no_entry, e, cached_membership) in
          let kept : (cached_policy ttl now policies org
                (cached_membership ttl now memberships org user w).1).0
              ≡ policies org =
            rw (no_entry, e, cached_membership, no_policy, cached_policy) in
          elim (Bool-cases (violates resource org)) [
            | inl v ↦ rw (entry, v, evaluate, decide)
            | inr v ↦ rw (entry, kept, v, evaluate, decide)
          ]

  -- An answer that rests on entries that are still fresh is that of the entries, whatever the
  -- repository says by now.
  evaluate-cached :
      (m : Membership V) (t : ℕ) (statements : List (Statement V)) (u : ℕ)
      → w.membership_cache (membership_key org user) ≡ some (t, m)
      → now < t + seconds ttl
      → w.policy_cache org ≡ some (u, statements)
      → now < u + seconds ttl
      → evaluate same ttl now policies memberships action org user resource w
        ≡ (decide same action org user resource (some m) statements, w)
  unfolding evaluate decide cached_membership cached_policy
  evaluate-cached m t statements u e h f k =
      let entry : cached_membership ttl now memberships org user w ≡ (some m, w) =
        rw (e, lt→ltb _ _ h, cached_membership) in
      let policy : cached_policy ttl now policies org w ≡ (statements, w) =
        rw (f, lt→ltb _ _ k, cached_policy) in
      let same_caches : (cached_membership ttl now memberships org user w).1 ≡ w =
        ap (λ (r : Option (Membership V) × PolicyService V). r.1) entry in
      elim (Bool-cases (violates resource org)) [
        | inl v ↦ rw (entry, same_caches, v, evaluate, decide)
        | inr v ↦ rw (entry, same_caches, policy, v, evaluate, decide)
      ]
