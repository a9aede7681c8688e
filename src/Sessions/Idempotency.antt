-- ===== src/Sessions/Idempotency.antt =====
-- backend/services/session_service.py: what an idempotency key does to the start of an audit.
use title_trust.Prelude.{
  ◌≡◌, ◌≢◌, refl, sym, ap, ◌∙◌, Bool, true, false, String, str_eq, eq_refl, eq_iff, Option, none,
  some, List, [], ◌∷◌, if◌then◌else◌, if_true, if_false, if-elim, not_equal,
}
use mathlib.Core.Path.{subst}
use mathlib.Core.Bool.{true≢false}
use mathlib.Core.Option.{some-injective, none-ne-some}
use title_trust.Text.{Text}
use title_trust.Sessions.{
  Session, SessionService, Answer, refused, answered, crashed, put_session, is_empty,
}
use title_trust.Sessions.Start.{
  StartAnswer, create_session_from_source, create_new, announce, announce_with, announce_keyed,
  existing_idempotent_session, same_user, new_session, status_or_queued,
}
use title_trust.Sessions.Steps.{tick, get_status, retry, stepped, can_retry}
use title_trust.Sessions.Files.{
  StartRequest, start_marathon, start_new, create_uploaded, is_supported, name_or_upload,
}
use title_trust.Sessions.Access.{
  Request, start_request, tick_request, status_request, retry_request, perform, perform_all,
  own_session-elim, after_tick-frame,
}
use title_trust.Agent.Step.{run_single_step}

-- A key that is registered for a user gives the user's session back.
existing-registered :
    (key user id : String) (v : SessionService)
    → is_empty key ≡ false
    → is_empty id ≡ false
    → v.idempotency key ≡ some (id, user)
    → existing_idempotent_session (some key) user v ≡ some (id, status_or_queued (v.sessions id))
unfolding existing_idempotent_session
existing-registered key user id v k i there =
    if_false _ _ _ k
    ∙ ap (same_user v.sessions user) there
    ∙ if_true _ _ _ (eq_refl user)
    ∙ if_false _ _ _ i

test_both :
    {A : Type 0} (b c : Bool) (x : A) {a : A}
    → (if b then (if c then none else some x) else none) ≡ some a
    → (b ≡ true) × (c ≡ false) × (x ≡ a)
test_both true true x h = absurd (none-ne-some _ h)
test_both true false x h = (refl, refl, some-injective _ _ h)
test_both false c x h = absurd (none-ne-some _ h)

same_user-some :
    (sessions : String → Option Session) (user : String) (o : Option (String × String))
    (a : StartAnswer)
    → same_user sessions user o ≡ some a
    → (o ≡ some (a.0, user)) × (is_empty a.0 ≡ false)
same_user-some sessions user none a h = absurd (none-ne-some _ h)
same_user-some sessions user (some (id, owner)) a h =
    let (mine, there, same) = test_both _ _ _ h in
    (
      ap some (λ i. ((same i).0, (eq_iff owner user).0 mine i)),
      ap (λ (x : StartAnswer). is_empty x.0) (sym same) ∙ there,
    )

-- A start that answers has the key registered for its session and its user.
Registered : String → String → Answer StartAnswer × SessionService → Type 0
Registered key user (answered a, v) =
    (v.idempotency key ≡ some (a.0, user)) × (is_empty a.0 ≡ false)
Registered key user (refused n, v) = Unit {0}
Registered key user (crashed, v) = Unit {0}

module _ (key : String) (present : is_empty key ≡ false) where
  announce_with-Registered :
      (id user : String) (name uri : Text) (v : SessionService) (o : Option (String × String))
      → is_empty id ≡ false
      → Registered key user (announce_with id user name uri key v o)
  unfolding announce_with announce Registered
  announce_with-Registered id user name uri v none there = (if_true _ _ _ (eq_refl key), there)
  announce_with-Registered id user name uri v (some taken) there = tt

  create_new-Registered :
      (id user org : String) (name uri : Text) (v : SessionService) (o : Option Session)
      → is_empty id ≡ false
      → Registered key user (create_new (some key) id user org name uri v o)
  unfolding create_new announce_keyed announce Registered
  create_new-Registered id user org name uri v (some s) there = tt
  create_new-Registered id user org name uri v none there =
      if-elim (Registered key user) (is_empty key) _ _
        (λ missing. absurd (true≢false (sym missing ∙ present)))
        (λ _. announce_with-Registered id user name uri _ _ there)

  create_uploaded-Registered :
      (id : String) (r : StartRequest) (v : SessionService) (o : Option Text)
      → r.idempotency_key ≡ some key
      → is_empty id ≡ false
      → Registered key r.user_id (create_uploaded id r v o)
  unfolding create_session_from_source Registered
  create_uploaded-Registered id r v none keyed there = tt
  create_uploaded-Registered id r v (some uri) keyed there =
      subst
        (λ k. Registered key r.user_id (
          create_new k id r.user_id r.organization_id (name_or_upload r.filename) uri v
            (v.sessions id)))
        (sym keyed) (create_new-Registered id r.user_id r.organization_id _ uri v _ there)

  start_new-Registered :
      (id : String) (r : StartRequest) (v : SessionService) (o : Option StartAnswer)
      → r.idempotency_key ≡ some key
      → is_empty id ≡ false
      → existing_idempotent_session (some key) r.user_id v ≡ o
      → Registered key r.user_id (start_new id r v o)
  unfolding existing_idempotent_session Registered
  start_new-Registered id r v (some a) keyed there found =
      same_user-some v.sessions r.user_id (v.idempotency key) a
        (sym (if_false _ _ _ present) ∙ found)
  start_new-Registered id r v none keyed there found =
      if-elim (Registered key r.user_id) (is_supported r.filename) (create_uploaded id r v r.source)
        (refused 400, v) (λ _. create_uploaded-Registered id r v r.source keyed there) (λ _. tt)

-- Nothing takes a key back.
Holds : String → String × String → SessionService → Type 0
Holds key x v = v.idempotency key ≡ some x

module _ (key : String) (x : String × String) where
  Answered : {A : Type 0} → Answer A × SessionService → Type 0
  Answered r = Holds key x r.1

  announce_with-Holds :
      (id user : String) (name uri : Text) (k : String) (v : SessionService)
      (o : Option (String × String))
      → v.idempotency k ≡ o
      → Holds key x v
      → Answered (announce_with id user name uri k v o)
  unfolding announce_with announce Holds Answered
  announce_with-Holds id user name uri k v none free h =
      if_false (str_eq k key) _ _
        (not_equal _ _ (λ same. none-ne-some x (sym free ∙ ap v.idempotency same ∙ h)))
      ∙ h
  announce_with-Holds id user name uri k v (some taken) free h = h

  announce_keyed-Holds :
      (o : Option String) (id user : String) (name uri : Text) (v : SessionService)
      → Holds key x v
      → Answered (announce_keyed o id user name uri v)
  unfolding announce_keyed announce Holds Answered
  announce_keyed-Holds none id user name uri v h = h
  announce_keyed-Holds (some k) id user name uri v h =
      if-elim Answered (is_empty k) (announce id user name uri v)
        (announce_with id user name uri k v (v.idempotency k)) (λ _. h)
        (λ _. announce_with-Holds id user name uri k v _ refl h)

  start_new-Holds :
      (id : String) (r : StartRequest) (v : SessionService) (o : Option StartAnswer)
      → Holds key x v
      → Answered (start_new id r v o)
  unfolding create_session_from_source create_new Holds Answered
  start_new-Holds id r v (some a) h = h
  start_new-Holds id r v none h =
      if-elim Answered (is_supported r.filename) (create_uploaded id r v r.source) (refused 400, v)
        (λ _. uploaded-Holds r.source) (λ _. h)
    where
      created-Holds :
          (uri : Text) (o : Option Session)
          → Answered (
              create_new r.idempotency_key id r.user_id r.organization_id
                (name_or_upload r.filename)
                uri
                v
                o)
      created-Holds uri none = announce_keyed-Holds r.idempotency_key id r.user_id _ uri _ h
      created-Holds uri (some s) = h

      uploaded-Holds : (source : Option Text) → Answered (create_uploaded id r v source)
      uploaded-Holds none = h
      uploaded-Holds (some uri) = created-Holds uri (v.sessions id)

  perform-Holds : (r : Request) (v : SessionService) → Holds key x v → Holds key x (perform r v)
  unfolding perform start_marathon tick get_status retry Holds Answered
  perform-Holds (start_request id r) v h = start_new-Holds id r v _ h
  perform-Holds (tick_request c e id user) v h =
      own_session-elim Answered user v _ _ (λ _. h)
        (λ t _ _.
          let (exit, w) = run_single_step c e t.world in
          ap (λ y. y.idempotency key) (after_tick-frame id user (stepped id t w v) exit) ∙ h)
  perform-Holds (status_request id user) v h =
      own_session-elim Answered user v _ _ (λ _. h) (λ t _ _. h)
  perform-Holds (retry_request id user) v h =
      own_session-elim Answered user v _ _ (λ _. h)
        (λ t _ _. if-elim Answered (can_retry t.world.doc.status) _ _ (λ _. h) (λ _. h))

  perform_all-Holds :
      (rs : List Request) (v : SessionService) → Holds key x v → Holds key x (perform_all rs v)
  unfolding perform_all
  perform_all-Holds [] v h = h
  perform_all-Holds (r ∷ rs) v h = perform_all-Holds rs (perform r v) (perform-Holds r v h)

-- Once a start with a key has given a session, every further start of the user with the key, whatever
-- its file, and whatever has been requested in between and by whom, gives that session with its
-- status and changes nothing.
pub start_marathon-again :
    (key : String) (id id' : String) (r r' : StartRequest) (v v' : SessionService) (a : StartAnswer)
    (rs : List Request)
    → is_empty key ≡ false
    → is_empty id ≡ false
    → r.idempotency_key ≡ some key
    → r'.idempotency_key ≡ some key
    → r'.user_id ≡ r.user_id
    → start_marathon id r v ≡ (answered a, v')
    → let v'' = perform_all rs v' in
      start_marathon id' r' v'' ≡ (answered (a.0, status_or_queued (v''.sessions a.0)), v'')
unfolding start_marathon Registered Holds
start_marathon-again key id id' r r' v v' a rs present there keyed keyed' same given =
    let v'' = perform_all rs v' in
    let (registered, nonempty) = subst (Registered key r.user_id) given (
      start_new-Registered key present id r v _ keyed there
        (ap (λ k. existing_idempotent_session k r.user_id v) (sym keyed))) in
    ap (start_new id' r' v'') (
      ap (λ k. existing_idempotent_session k r'.user_id v'') keyed'
      ∙ ap (λ u. existing_idempotent_session (some key) u v'') same
      ∙ existing-registered key r.user_id a.0 v'' present nonempty
          (perform_all-Holds key (a.0, r.user_id) rs v' registered))

-- A start with a key that another user has registered raises behind the write of the session: the
-- session is there, queued, and no step of it is asked for and nothing of it is logged.
pub start_marathon-key_taken :
    (key : String) (id : String) (r : StartRequest) (v : SessionService) (uri : Text)
    (owner id' : String)
    → is_empty key ≡ false
    → r.idempotency_key ≡ some key
    → v.idempotency key ≡ some (id', owner)
    → owner ≢ r.user_id
    → is_supported r.filename ≡ true
    → r.source ≡ some uri
    → v.sessions id ≡ none
    → start_marathon id r v
      ≡ (crashed, put_session id (new_session r.user_id r.organization_id uri) v)
unfolding start_marathon existing_idempotent_session create_session_from_source create_new
    announce_keyed
start_marathon-key_taken key id r v uri owner id' present keyed taken foreign supported source
      free =
    ap (λ k. start_new id r v (existing_idempotent_session k r.user_id v)) keyed
    ∙ ap (start_new id r v) (
        if_false _ _ _ present
        ∙ ap (same_user v.sessions r.user_id) taken
        ∙ if_false _ _ _ (not_equal owner r.user_id foreign))
    ∙ if_true _ _ _ supported
    ∙ ap (create_uploaded id r v) source
    ∙ ap
        (λ k.
          create_session_from_source k id r.user_id r.organization_id (name_or_upload r.filename)
            uri v)
        keyed
    ∙ ap (create_new (some key) id r.user_id r.organization_id (name_or_upload r.filename) uri v)
        free
    ∙ if_false _ _ _ present
    ∙ ap
        (announce_with id r.user_id (name_or_upload r.filename) uri key
          (put_session id (new_session r.user_id r.organization_id uri) v))
        taken
