-- ===== src/Agent/Closed.antt =====
-- Rules that carry an invariant through the parts of a step. `P` is what the state keeps; `Q` is what
-- the session's document keeps, also while the sync service writes the status and the findings; and
-- where a step returns, the document has been saved and has `P`.
use title_trust.Prelude.{
  ℕ, ◌≡◌, refl, Bool, true, false, String, Option, none, some, ◌⊎◌, inl, inr, List, [], ◌∷◌, ◌++◌,
  if◌then◌else◌,
}
use title_trust.Text.{Text}
use title_trust.Agent.Memory.{Note}
use title_trust.Agent.{
  AgentState, MarathonState, Check, image_analyzed, historical_chain_checked, location_checked,
  Artifact,
}
use title_trust.Agent.Monad.{
  World, server_timestamp, Exit, ok, reply, access_denied, raised, M, pass_on, ◌>>=◌, ◌>>◌, pure,
  if_some, either, skip, get, update, remember, set_status, save, finish, finish_now, deny, raise,
  handle, attempt, Update, sync, push,
}
use title_trust.Agent.Checks.{same_check, registered, is_valid, register_evidence, mark}

-- A predicate that reads the checklist, the evidence and the count of steps.
pub record Reads (P : MarathonState → Type 0) : Type 0 where
  pub at :
      (s t : MarathonState)
      → t.progress_checklist ≡ s.progress_checklist
      → t.verification_evidence ≡ s.verification_evidence
      → t.total_steps ≡ s.total_steps
      → P s
      → P t

-- What a step does to the checklist outside of the records keeps `P`.
pub record Frame (P Q : MarathonState → Type 0) : Type 0 where
  pub reads : Reads P
  pub reads_doc : Reads Q
  pub widen : (s : MarathonState) → P s → Q s
  pub mark_image : (s : MarathonState) → P s → P (mark image_analyzed false s)
  pub mark_location : (s : MarathonState) → P s → P (mark location_checked true s)
  pub register :
      (c : Check) (a : Artifact) (s : MarathonState)
      → same_check c historical_chain_checked ≡ false
      → is_valid a ≡ true
      → P s
      → P (registered c a s)

-- A step that returned has stored what has `P`.
unfoldable pub Stored : {A : Type 0} → (MarathonState → Type 0) → Exit A × World → Type 0
Stored P (ok a, w) = Unit {0}
Stored P (reply s n, w) = P w.doc
Stored P (access_denied t, w) = Unit {0}
Stored P (raised t, w) = Unit {0}

unfoldable pub After : {A : Type 0} → (P Q : MarathonState → Type 0) → Exit A × World → Type 0
After P Q r = P r.1.state × Q r.1.doc × Stored P r

pub record Keeps {A : Type 0} (P Q : MarathonState → Type 0) (m : M A) : Type 0 where
  pub at : (w : World) → P w.state → Q w.doc → After P Q (m w)

-- The same from a document that has been saved.
pub record Saved {A : Type 0} (P Q : MarathonState → Type 0) (m : M A) : Type 0 where
  pub at : (w : World) → P w.state → P w.doc → After P Q (m w)

pub After-if :
    {A : Type 0} (P Q : MarathonState → Type 0) (b : Bool) (m n : M A) (w : World)
    → (b ≡ true → After P Q (m w))
    → (b ≡ false → After P Q (n w))
    → After P Q ((if b then m else n) w)
After-if P Q true m n w hm hn = hm refl
After-if P Q false m n w hm hn = hn refl

module _ {A : Type 0} {P Q : MarathonState → Type 0} where
  After-bind :
      {B : Type 0} (r : Exit A × World) (f : A → M B)
      → After P Q r
      → ((a : A) → Keeps P Q (f a))
      → After P Q (pass_on r f)
  unfolding pass_on Stored After
  After-bind (ok a, w) f (p, q, _) k = (k a).at w p q
  After-bind (reply s n, w) f h k = h
  After-bind (access_denied t, w) f h k = h
  After-bind (raised t, w) f h k = h

  pub Keeps-bind :
      {B : Type 0} (m : M A) (f : A → M B)
      → Keeps P Q m
      → ((a : A) → Keeps P Q (f a))
      → Keeps P Q (m >>= f)
  unfolding ◌>>=◌
  Keeps-bind m f km kf = record { at = λ w p q. After-bind (m w) f (km.at w p q) kf }

  pub Keeps-get :
      (f : MarathonState → M A)
      → ((s : MarathonState) → P s → Keeps P Q (f s))
      → Keeps P Q (get >>= f)
  unfolding ◌>>=◌ get pass_on
  Keeps-get f k = record { at = λ w p q. (k w.state p).at w p q }

  pub Keeps-if :
      (b : Bool) (m n : M A)
      → (b ≡ true → Keeps P Q m)
      → (b ≡ false → Keeps P Q n)
      → Keeps P Q (if b then m else n)
  Keeps-if true m n km kn = km refl
  Keeps-if false m n km kn = kn refl

  pub Keeps-if_some :
      {B : Type 0} (o : Option B) (f : B → M A) (m : M A)
      → ((b : B) → Keeps P Q (f b))
      → Keeps P Q m
      → Keeps P Q (if_some o f m)
  unfolding if_some
  Keeps-if_some none f m kf km = km
  Keeps-if_some (some b) f m kf km = kf b

  pub Keeps-either :
      {B : Type 0} (x : Text ⊎ B) (f : Text → M A) (g : B → M A)
      → ((t : Text) → Keeps P Q (f t))
      → ((b : B) → Keeps P Q (g b))
      → Keeps P Q (either x f g)
  unfolding either
  Keeps-either (inl t) f g kf kg = kf t
  Keeps-either (inr b) f g kf kg = kg b

  pub Keeps-pure : (a : A) → Keeps P Q (pure a)
  unfolding pure After Stored
  Keeps-pure a = record { at = λ w p q. (p, q, tt) }

  pub Keeps-deny : (t : Text) → Keeps P Q (deny {A = A} t)
  unfolding deny After Stored
  Keeps-deny t = record { at = λ w p q. (p, q, tt) }

  pub Keeps-raise : (t : Text) → Keeps P Q (raise {A = A} t)
  unfolding raise After Stored
  Keeps-raise t = record { at = λ w p q. (p, q, tt) }

  After-handle :
      (h j : Text → M A) (r : Exit A × World)
      → ((t : Text) → Keeps P Q (h t))
      → ((t : Text) → Keeps P Q (j t))
      → After P Q r
      → After P Q (handle h j r)
  unfolding handle After Stored
  After-handle h j (ok a, w) kh kj r = r
  After-handle h j (reply s n, w) kh kj r = r
  After-handle h j (access_denied t, w) kh kj (p, q, _) = (kh t).at w p q
  After-handle h j (raised t, w) kh kj (p, q, _) = (kj t).at w p q

  pub Keeps-attempt :
      (h j : Text → M A) (m : M A)
      → ((t : Text) → Keeps P Q (h t))
      → ((t : Text) → Keeps P Q (j t))
      → Keeps P Q m
      → Keeps P Q (attempt h j m)
  unfolding attempt
  Keeps-attempt h j m kh kj km = record { at = λ w p q. After-handle h j (m w) kh kj (km.at w p q) }

  pub Keeps-save : (f : Unit {0} → M A) → Frame P Q → Saved P Q (f tt) → Keeps P Q (save >>= f)
  unfolding ◌>>=◌ save pass_on
  Keeps-save f fr k = record {
    at = λ w p q. k.at (record w { doc = w.state; last_update = server_timestamp }) p p;
  }

  After-save :
      (r : Exit (Unit {0}) × World) (f : Unit {0} → M A)
      → After P Q r
      → Saved P Q (f tt)
      → After P Q (pass_on (pass_on r (λ _. save)) f)
  unfolding pass_on save After Stored
  After-save (ok a, w) f (p, q, _) k =
      k.at (record w { doc = w.state; last_update = server_timestamp }) p p
  After-save (reply s n, w) f h k = h
  After-save (access_denied t, w) f h k = h
  After-save (raised t, w) f h k = h

  pub Keeps-then_save :
      (m : M (Unit {0})) (f : Unit {0} → M A)
      → Keeps P Q m
      → Saved P Q (f tt)
      → Keeps P Q ((m >> save) >>= f)
  unfolding ◌>>=◌
  Keeps-then_save m f km k = record { at = λ w p q. After-save (m w) f (km.at w p q) k }

  pub Saved-if : (b : Bool) (m n : M A) → Saved P Q m → Saved P Q n → Saved P Q (if b then m else n)
  Saved-if true m n km kn = km
  Saved-if false m n km kn = kn

  pub Saved-Keeps : (m : M A) → Frame P Q → Keeps P Q m → Saved P Q m
  Saved-Keeps m fr k = record { at = λ w p d. k.at w p (fr.widen w.doc d) }

  pub Saved-pure : (a : A) → Frame P Q → Saved P Q (pure a)
  Saved-pure a fr = Saved-Keeps (pure a) fr (Keeps-pure a)

  pub Saved-finish : (s : AgentState) (n : ℕ) → Frame P Q → Saved P Q (finish {A = A} s n)
  unfolding finish After Stored
  Saved-finish s n fr = record { at = λ w p d. (p, fr.widen w.doc d, d) }

  pub Saved-finish_now : Frame P Q → Saved P Q (finish_now {A = A})
  unfolding finish_now After Stored
  Saved-finish_now fr = record { at = λ w p d. (p, fr.widen w.doc d, d) }

  pub Saved-get :
      (f : MarathonState → M A) → ((s : MarathonState) → Saved P Q (f s)) → Saved P Q (get >>= f)
  unfolding ◌>>=◌ get pass_on
  Saved-get f k = record { at = λ w p d. (k w.state).at w p d }

  pub Saved-sync :
      (u : Update) (f : Unit {0} → M A) → Frame P Q → Saved P Q (f tt) → Saved P Q (sync u >>= f)
  unfolding ◌>>=◌ sync pass_on
  Saved-sync u f fr k = record {
    at = λ w p d. let w' = (sync u w).1 in k.at w' p (fr.reads.at w.doc w'.doc refl refl refl d);
  }

module _ {P Q : MarathonState → Type 0} where
  pub Keeps-skip : Keeps P Q skip
  unfolding skip After Stored
  Keeps-skip = record { at = λ w p q. (p, q, tt) }

  pub Keeps-save_last : Frame P Q → Keeps P Q save
  unfolding save After Stored
  Keeps-save_last fr = record { at = λ w p q. (p, fr.widen w.state p, tt) }

  pub Keeps-update :
      (f : MarathonState → MarathonState)
      → ((s : MarathonState) → P s → P (f s))
      → Keeps P Q (update f)
  unfolding update After Stored
  Keeps-update f k = record { at = λ w p q. (k w.state p, q, tt) }

  -- An update that leaves the checklist, the evidence and the count of steps.
  pub Keeps-quiet :
      (f : MarathonState → MarathonState)
      → Frame P Q
      → ((s : MarathonState) → (f s).progress_checklist ≡ s.progress_checklist)
      → ((s : MarathonState) → (f s).verification_evidence ≡ s.verification_evidence)
      → ((s : MarathonState) → (f s).total_steps ≡ s.total_steps)
      → Keeps P Q (update f)
  Keeps-quiet f fr c v t = Keeps-update f (λ s. fr.reads.at s (f s) (c s) (v s) (t s))

  pub Keeps-remember : (n : Note) → Frame P Q → Keeps P Q (remember n)
  unfolding remember
  Keeps-remember n fr =
      Keeps-quiet (λ s. record s { memory = s.memory ++ n ∷ [] }) fr (λ s. refl) (λ s. refl)
        (λ s. refl)

  pub Keeps-set_status : (x : AgentState) → Frame P Q → Keeps P Q (set_status x)
  unfolding set_status
  Keeps-set_status x fr =
      Keeps-quiet (λ s. record s { status = x }) fr (λ s. refl) (λ s. refl) (λ s. refl)

  pub Keeps-sync : (u : Update) → Frame P Q → Keeps P Q (sync u)
  unfolding sync After Stored
  Keeps-sync u fr = record {
    at = λ w p q. (p, fr.reads_doc.at w.doc (sync u w).1.doc refl refl refl q, tt);
  }

  pub Keeps-push : (b : Bool) (title : String) → Keeps P Q (push b title)
  unfolding push After Stored
  Keeps-push b title = record { at = λ w p q. (p, q, tt) }

  pub Keeps-register :
      (c : Check) (a : Artifact)
      → ((s : MarathonState) → is_valid a ≡ true → P s → P (registered c a s))
      → Keeps P Q (register_evidence c a)
  unfolding register_evidence
  Keeps-register c a k =
      Keeps-if (is_valid a) _ _ (λ v. Keeps-update _ (λ s. k s v)) (λ _. Keeps-raise _)

pub ruleset keeps_rules = (
  Keeps-bind, Keeps-get, Keeps-if, Keeps-if_some, Keeps-either, Keeps-pure, Keeps-deny, Keeps-raise,
  Keeps-attempt, Keeps-save, Keeps-then_save, Saved-if, Saved-pure, Saved-finish, Saved-finish_now,
  Saved-get, Saved-sync, Keeps-skip, Keeps-save_last, Keeps-quiet, Keeps-remember, Keeps-set_status,
  Keeps-sync, Keeps-push, refl,
)
