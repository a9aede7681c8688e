-- ===== src/Agent/Monad.antt =====
-- The calls that a step makes on the session's document and on the user, and how a step ends.
use title_trust.Prelude.{
  ℕ, Bool, String, Option, none, some, ◌⊎◌, inl, inr, List, [], ◌∷◌, ◌++◌, if◌then◌else◌,
}
use title_trust.Text.{Text}
use title_trust.Agent.Memory.{Note}
use title_trust.Agent.{AgentState, MarathonState, Finding}

-- What a document has as `last_update`: nothing, a number, or the time that Firestore puts for
-- SERVER_TIMESTAMP.
pub data Stamp : Type 0 where
  missing : Stamp
  seconds : ℕ → Stamp
  server_timestamp : Stamp

-- `state` is the object that the step works on, `doc` what the session's document has of it. The
-- rest of the document is written by the sync service and not read.
pub record World : Type 0 where
  pub state : MarathonState
  pub doc : MarathonState
  pub last_update : Stamp
  pub audit_conclusion : Option Text
  pub percent_complete : ℕ
  -- titles of the notifications sent to the owner
  pub pushed : List String

-- A part of a step goes on, makes the step return a status and a delay, or raises a
-- SourceDocumentAccessError or another exception. What it has changed stays changed.
pub data Exit (A : Type 0) : Type 0 where
  ok : A → Exit A
  reply : AgentState → ℕ → Exit A
  access_denied : Text → Exit A
  raised : Text → Exit A

abbrev pub M : Type 0 → Type 0
M A = World → Exit A × World

unfoldable pub pass_on : {A B : Type 0} → Exit A × World → (A → M B) → Exit B × World
pass_on (ok a, w) f = f a w
pass_on (reply s n, w) f = (reply s n, w)
pass_on (access_denied t, w) f = (access_denied t, w)
pass_on (raised t, w) f = (raised t, w)

infixl 5 ◌>>=◌ ◌>>◌
unfoldable pub ◌>>=◌ : {A B : Type 0} → M A → (A → M B) → M B
unfolding pass_on
◌>>=◌ m f w = pass_on (m w) f

abbrev pub ◌>>◌ : {B : Type 0} → M (Unit {0}) → M B → M B
m >> k = m >>= λ _. k

unfoldable pub pure : {A : Type 0} → A → M A
pure a w = (ok a, w)

-- `if o: … else: …` on an optional value.
unfoldable pub if_some : {A B : Type 0} → Option A → (A → M B) → M B → M B
if_some none f m = m
if_some (some a) f m = f a

-- A call that has an error or a value.
unfoldable pub either : {A B : Type 0} → Text ⊎ A → (Text → M B) → (A → M B) → M B
either (inl t) f g = f t
either (inr a) f g = g a

unfoldable pub skip : M (Unit {0})
skip w = (ok tt, w)

unfoldable pub get : M MarathonState
get w = (ok w.state, w)

unfoldable pub update : (MarathonState → MarathonState) → M (Unit {0})
update f w = (ok tt, record w { state = f w.state })

unfoldable pub remember : Note → M (Unit {0})
unfolding update
remember n = update (λ s. record s { memory = s.memory ++ n ∷ [] })

unfoldable pub set_status : AgentState → M (Unit {0})
unfolding update
set_status x = update (λ s. record s { status = x })

-- `save_state`: the number that it gives for `last_update` is replaced by the repository's `update`.
unfoldable pub save : M (Unit {0})
save w = (ok tt, record w { doc = w.state; last_update = server_timestamp })

-- `return {"status": …, "next_tick_seconds": …}`
unfoldable pub finish : {A : Type 0} → AgentState → ℕ → M A
finish s n w = (reply s n, w)

unfoldable pub finish_now : {A : Type 0} → M A
finish_now w = (reply w.state.status 0, w)

unfoldable pub deny : {A : Type 0} → Text → M A
deny t w = (access_denied t, w)

unfoldable pub raise : {A : Type 0} → Text → M A
raise t w = (raised t, w)

-- What the two handlers of a `try` make of its exit.
unfoldable pub handle : {A : Type 0} → (Text → M A) → (Text → M A) → Exit A × World → Exit A × World
handle on_denied on_raised (ok a, w) = (ok a, w)
handle on_denied on_raised (reply s n, w) = (reply s n, w)
handle on_denied on_raised (access_denied t, w) = on_denied t w
handle on_denied on_raised (raised t, w) = on_raised t w

-- `try: …` with a handler for SourceDocumentAccessError and one for the other exceptions.
unfoldable pub attempt : {A : Type 0} → (Text → M A) → (Text → M A) → M A → M A
unfolding handle
attempt on_denied on_raised m w = handle on_denied on_raised (m w)

-- The keyword arguments of `update_session_state` that the document keeps; logs and thoughts for
-- the screen are left out.
pub record Update : Type 0 where
  pub status : Option AgentState
  pub percent : Option ℕ
  pub findings : List Finding
  pub conclusion : Option Text

abbrev pub nothing : Update
nothing = record { status = none; percent = none; findings = []; conclusion = none }

abbrev or_old {ℓ} : {A : Type ℓ} → Option A → A → A
or_old none a = a
or_old (some b) a = b

abbrev or_old_list {ℓ} : {A : Type ℓ} → List A → List A → List A
or_old_list [] old = old
or_old_list (x ∷ xs) old = x ∷ xs

-- services/sync_service.py: `update_session_state` merges into the same document. An exception of
-- the database is caught there; the database is taken to answer.
unfoldable pub sync : Update → M (Unit {0})
sync u w = (
  ok tt,
  record w {
    doc = record w.doc {
      status = or_old u.status w.doc.status;
      findings = or_old_list u.findings w.doc.findings;
    };
    last_update = server_timestamp;
    percent_complete = or_old u.percent w.percent_complete;
    audit_conclusion = elim u.conclusion [ none ↦ w.audit_conclusion | some t ↦ some t ];
  },
)

-- `send_push_notification`, for an owner that is known.
unfoldable pub push : Bool → String → M (Unit {0})
push has_owner title w =
    (ok tt, record w { pushed = if has_owner then w.pushed ++ title ∷ [] else w.pushed })
