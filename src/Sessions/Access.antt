-- ===== src/Sessions/Access.antt =====
-- backend/services/session_service.py: what the requests of one user do to the sessions of another.
use title_trust.Prelude.{
  ℕ, ◌≡◌, ◌≢◌, refl, sym, ap, ◌∙◌, inl, inr, false, String, str_eq, eq_iff, eq_refl, Option, none,
  some, List, [], ◌∷◌, All, if_true, if_false, if-elim, Bool-cases,
}
use title_trust.Text.{Text}
use mathlib.Core.Option.{some-injective, none-ne-some}
use title_trust.Agent.{
  AgentConfig, AgentState, idle, running, sleeping, completed, flagged, failed, waiting_for_user,
  queued,
}
use title_trust.Agent.Monad.{Exit, ok, reply, access_denied, raised}
use title_trust.Agent.Tools.{Env}
use title_trust.Agent.Step.{run_single_step}
use title_trust.Sessions.{
  Session, SessionService, Answer, refused, is_empty, append_event, tick_completed,
}
use title_trust.Sessions.Start.{
  StartAnswer, create_session_from_source, create_new, announce, announce_with, announce_keyed,
}
use title_trust.Sessions.Steps.{
  tick, get_status, retry, own_session, after_tick, schedule_if_running, can_retry, stepped,
}
use title_trust.Sessions.Files.{
  StartRequest, start_marathon, start_new, create_uploaded, is_supported,
}

-- A request to the routes of the audits, each by a user.
pub data Request : Type 0 where
  start_request : String → StartRequest → Request
  tick_request : AgentConfig → Env → String → String → Request
  status_request : String → String → Request
  retry_request : String → String → Request

abbrev user_of : Request → String
user_of (start_request id r) = r.user_id
user_of (tick_request c e id user) = user
user_of (status_request id user) = user
user_of (retry_request id user) = user

unfoldable pub perform : Request → SessionService → SessionService
unfolding start_marathon tick get_status retry
perform (start_request id r) v = (start_marathon id r v).1
perform (tick_request c e id user) v = (tick c e id user v).1
perform (status_request id user) v = (get_status id user v).1
perform (retry_request id user) v = (retry id user v).1

unfoldable pub perform_all : List Request → SessionService → SessionService
unfolding perform
perform_all [] v = v
perform_all (r ∷ rs) v = perform_all rs (perform r v)

-- The session is as it was.
abbrev Untouched : String → SessionService → SessionService → Type 0
Untouched id v v' = v'.sessions id ≡ v.sessions id

-- A session of another user, or one that is not there, has another id.
other_id :
    (id j user : String) (v : SessionService) (s t : Session)
    → v.sessions id ≡ some s
    → s.user_id ≢ user
    → v.sessions j ≡ some t
    → t.user_id ≡ user
    → str_eq j id ≡ false
other_id id j user v s t there foreign found owner = elim (Bool-cases (str_eq j id)) [
  | inl same ↦ absurd (
      foreign (
        ap (λ x. x.user_id)
          (some-injective _ _ (sym there ∙ ap v.sessions (sym ((eq_iff j id).0 same)) ∙ found))
        ∙ owner))
  | inr different ↦ different
]

-- What holds of the two errors and of every answer to the owner.
pub own_session-elim :
    {A : Type 0} (F : Answer A × SessionService → Type 0) (user : String) (v : SessionService)
    (o : Option Session) (f : Session → Answer A × SessionService)
    → ((n : ℕ) → F (refused n, v))
    → ((t : Session) → o ≡ some t → t.user_id ≡ user → F (f t))
    → F (own_session user v o f)
own_session-elim F user v none f e k = e 404
own_session-elim F user v (some t) f e k =
    if-elim F (str_eq t.user_id user) (f t) (refused 403, v)
      (λ owner. k t refl ((eq_iff t.user_id user).0 owner)) (λ _. e 403)

pub own_session-own :
    {A : Type 0} (user : String) (v : SessionService) (o : Option Session)
    (f : Session → Answer A × SessionService) (s : Session)
    → o ≡ some s
    → s.user_id ≡ user
    → own_session user v o f ≡ f s
own_session-own user v o f s there owner =
    ap (λ p. own_session user v p f) there
    ∙ if_true _ _ _ (ap (λ u. str_eq u user) owner ∙ eq_refl user)

own_session-Untouched :
    {A : Type 0} (id j user : String) (v : SessionService) (s : Session)
    (f : Session → Answer A × SessionService)
    → v.sessions id ≡ some s
    → s.user_id ≢ user
    → ((t : Session) → str_eq j id ≡ false → Untouched id v (f t).1)
    → Untouched id v (own_session user v (v.sessions j) f).1
own_session-Untouched {A} id j user v s f there foreign k =
    own_session-elim (λ (r : Answer A × SessionService). Untouched id v r.1) user v (v.sessions j) f
      (λ _. refl) (λ t found owner. k t (other_id id j user v s t there foreign found owner))

pub schedule_if_running-ticks :
    (id : String) (status : AgentState) (n : ℕ) (v : SessionService)
    → schedule_if_running id status n v
      ≡ record v { ticks = (schedule_if_running id status n v).ticks }
unfolding schedule_if_running
schedule_if_running-ticks id idle n v = refl
schedule_if_running-ticks id running n v = refl
schedule_if_running-ticks id sleeping n v = refl
schedule_if_running-ticks id completed n v = refl
schedule_if_running-ticks id flagged n v = refl
schedule_if_running-ticks id failed n v = refl
schedule_if_running-ticks id waiting_for_user n v = refl
schedule_if_running-ticks id queued n v = refl

-- Behind its step a tick writes events and ticks only.
pub after_tick-frame :
    (id user : String) (v : SessionService) (exit : Exit (Unit {0}))
    → let v' = (after_tick id user v exit).1 in
      v' ≡ record v { audit_events = v'.audit_events; ticks = v'.ticks }
unfolding after_tick
after_tick-frame id user v (ok _) = refl
after_tick-frame id user v (reply status n) =
    let v' = append_event id (tick_completed status n) user v in
    schedule_if_running-ticks id status n v'
    ∙ ap (λ e. record v { audit_events = e; ticks = (schedule_if_running id status n v').ticks })
        (sym (ap (λ x. x.audit_events) (schedule_if_running-ticks id status n v')))
after_tick-frame id user v (access_denied t) = refl
after_tick-frame id user v (raised t) = refl

pub announce_keyed-sessions :
    (key : Option String) (id user : String) (name uri : Text) (v : SessionService)
    → (announce_keyed key id user name uri v).1.sessions ≡ v.sessions
unfolding announce_keyed announce
announce_keyed-sessions none id user name uri v = refl
announce_keyed-sessions (some key) id user name uri v =
    if-elim (λ (r : Answer StartAnswer × SessionService). r.1.sessions ≡ v.sessions) (is_empty key)
      _ _ (λ _. refl) (λ _. registered-sessions (v.idempotency key))
  where
    registered-sessions :
        (o : Option (String × String))
        → (announce_with id user name uri key v o).1.sessions ≡ v.sessions
    registered-sessions none = refl
    registered-sessions (some taken) = refl

create_new-Untouched :
    (id : String) (r : StartRequest) (j : String) (name uri : Text) (v : SessionService)
    (s : Session) (o : Option Session)
    → v.sessions id ≡ some s
    → v.sessions j ≡ o
    → Untouched id v (create_new r.idempotency_key j r.user_id r.organization_id name uri v o).1
unfolding announce_keyed create_new
create_new-Untouched id r j name uri v s (some t) there found = refl
create_new-Untouched id r j name uri v s none there found =
    ap (λ f. f id) (announce_keyed-sessions r.idempotency_key j r.user_id name uri _)
    ∙ if_false (str_eq j id) _ _ (elim (Bool-cases (str_eq j id)) [
      | inl same ↦
          absurd (none-ne-some s (sym found ∙ ap v.sessions ((eq_iff j id).0 same) ∙ there))
      | inr different ↦ different
    ])

start_new-Untouched :
    (id j : String) (r : StartRequest) (v : SessionService) (s : Session) (o : Option StartAnswer)
    → v.sessions id ≡ some s
    → Untouched id v (start_new j r v o).1
unfolding create_session_from_source is_supported
start_new-Untouched id j r v s (some a) there = refl
start_new-Untouched id j r v s none there =
    if-elim (λ (x : Answer StartAnswer × SessionService). Untouched id v x.1)
      (is_supported r.filename) (create_uploaded j r v r.source) (refused 400, v)
      (λ _. uploaded-Untouched r.source) (λ _. refl)
  where
    uploaded-Untouched : (source : Option Text) → Untouched id v (create_uploaded j r v source).1
    uploaded-Untouched none = refl
    uploaded-Untouched (some uri) = create_new-Untouched id r j _ uri v s _ there refl

perform-foreign :
    (id : String) (r : Request) (v : SessionService) (s : Session)
    → v.sessions id ≡ some s
    → s.user_id ≢ user_of r
    → (perform r v).sessions id ≡ some s
unfolding perform start_marathon tick get_status retry
perform-foreign id (start_request j r) v s there foreign =
    start_new-Untouched id j r v s _ there ∙ there
perform-foreign id (tick_request c e j user) v s there foreign =
    own_session-Untouched id j user v s _ there foreign (λ t other.
      let (exit, w) = run_single_step c e t.world in
      ap (λ x. x.sessions id) (after_tick-frame j user (stepped j t w v) exit)
      ∙ if_false _ (some (record t { world = w })) _ other)
    ∙ there
perform-foreign id (status_request j user) v s there foreign =
    own_session-Untouched id j user v s _ there foreign (λ t other. refl) ∙ there
perform-foreign id (retry_request j user) v s there foreign =
    own_session-Untouched id j user v s _ there foreign (λ t other.
      if-elim (λ (x : Answer String × SessionService). Untouched id v x.1)
        (can_retry t.world.doc.status) _ _ (λ _. if_false _ _ _ other) (λ _. refl))
    ∙ there

-- Whatever users other than its owner request - audits that start with any ids and keys, ticks,
-- retries and looks at any sessions - a session stays as it is.
pub perform_all-foreign :
    (id : String) (rs : List Request) (v : SessionService) (s : Session)
    → v.sessions id ≡ some s
    → All (λ r. s.user_id ≢ user_of r) rs
    → (perform_all rs v).sessions id ≡ some s
unfolding perform_all
perform_all-foreign id [] v s there foreign = there
perform_all-foreign id (r ∷ rs) v s there (foreign, rest) =
    perform_all-foreign id rs (perform r v) s (perform-foreign id r v s there foreign) rest
