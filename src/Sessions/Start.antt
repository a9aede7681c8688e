-- ===== src/Sessions/Start.antt =====
-- backend/services/session_service.py: how a session starts, with an idempotency key or without.
use title_trust.Prelude.{String, str_eq, Option, none, some, [], ◌∷◌, ◌++◌, if◌then◌else◌}
use title_trust.Text.{Text}
use title_trust.Agent.Memory.{received_object}
use title_trust.Agent.{AgentState, queued, new_state}
use title_trust.Agent.Monad.{World, server_timestamp}
use title_trust.Sessions.{
  Session, SessionService, Answer, refused, answered, crashed, started, is_empty, put_session,
  append_event,
}

-- `{"session_id": …, "status": …}`
abbrev pub StartAnswer : Type 0
StartAnswer = String × AgentState

abbrev pub status_or_queued : Option Session → AgentState
status_or_queued none = queued
status_or_queued (some s) = s.world.doc.status

abbrev pub same_user :
    (String → Option Session) → String → Option (String × String) → Option StartAnswer
same_user sessions user none = none
same_user sessions user (some (id, owner)) =
    if str_eq owner user
    then (if is_empty id then none else some (id, status_or_queued (sessions id)))
    else none

-- `_existing_idempotent_session` with `resolve_idempotency_key`; an empty key counts as none.
unfoldable pub existing_idempotent_session :
    Option String → String → SessionService → Option StartAnswer
existing_idempotent_session none user v = none
existing_idempotent_session (some key) user v =
    if is_empty key then none else same_user v.sessions user (v.idempotency key)

-- What a session starts with; `create` puts the time of the server.
abbrev pub initial_world : Text → World
initial_world source_uri =
    let s = record (new_state (some source_uri)) {
      status = queued;
      memory = received_object source_uri ∷ [];
    } in
    record {
      state = s;
      doc = s;
      last_update = server_timestamp;
      audit_conclusion = none;
      percent_complete = 0;
      pushed = [];
    }

abbrev pub new_session : String → String → Text → Session
new_session user org source_uri = record {
  user_id = user;
  organization_id = org;
  error = none;
  world = initial_world source_uri;
}

abbrev register_key : String → String → String → SessionService → SessionService
register_key key id user v = record v {
  idempotency = λ k. if str_eq key k then some (id, user) else v.idempotency k;
}

-- Behind the registration of the key.
unfoldable pub announce :
    String → String → Text → Text → SessionService → Answer StartAnswer × SessionService
announce id user file_name source_uri v =
    let v' = append_event id (started file_name source_uri) user v in
    (answered (id, queued), record v' { background_tasks = v'.background_tasks ++ (id, user) ∷ [] })

-- `create` on a key that is registered raises, and nothing catches it.
unfoldable pub announce_with :
    String
    → String
    → Text
    → Text
    → String
    → SessionService
    → Option (String × String)
    → Answer StartAnswer × SessionService
unfolding announce
announce_with id user file_name source_uri key v none =
    announce id user file_name source_uri (register_key key id user v)
announce_with id user file_name source_uri key v (some taken) = (crashed, v)

unfoldable pub announce_keyed :
    Option String
    → String
    → String
    → Text
    → Text
    → SessionService
    → Answer StartAnswer × SessionService
unfolding announce announce_with
announce_keyed none id user file_name source_uri v = announce id user file_name source_uri v
announce_keyed (some key) id user file_name source_uri v =
    if is_empty key
    then announce id user file_name source_uri v
    else announce_with id user file_name source_uri key v (v.idempotency key)

unfoldable pub create_new :
    Option String
    → String
    → String
    → String
    → Text
    → Text
    → SessionService
    → Option Session
    → Answer StartAnswer × SessionService
unfolding announce_keyed
create_new key id user org file_name source_uri v none =
    announce_keyed key id user file_name source_uri
      (put_session id (new_session user org source_uri) v)
create_new key id user org file_name source_uri v (some s) = (refused 409, v)

-- `_create_session_from_source`: `create` answers AlreadyExists where the id is taken.
unfoldable pub create_session_from_source :
    Option String
    → String
    → String
    → String
    → Text
    → Text
    → SessionService
    → Answer StartAnswer × SessionService
unfolding create_new
create_session_from_source key id user org file_name source_uri v =
    create_new key id user org file_name source_uri v (v.sessions id)
