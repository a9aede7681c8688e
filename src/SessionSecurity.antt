-- ===== src/SessionSecurity.antt =====
-- backend/services/session_security_service.py: SessionSecurityService, over the collections of
-- sessions and of tokens. Security events are only ever written: `events` lists them. The ids and
-- tokens that the service draws at random are arguments.
pub mod Replay
pub mod Revoke
use title_trust.Prelude.{
  ℕ, ◌+◌, Bool, true, false, not, String, Option, none, some, List, [], ◌∷◌, ◌++◌, length,
  if◌then◌else◌, str_eq, seconds, ◌&&◌, map,
}
use title_trust.Firestore.{Write, set, update, Collection}
use title_trust.Tokens.{
  TokenFamily, active, rotated, DeviceFingerprint, TokenInfo, TokenDoc, caught, store_token,
  verify_and_get_token, rotate_token, revoke_token_family,
}

-- domain/session_models.py: SessionState, the fields that the service reads or sets. The others
-- keep the defaults with which a session is made.
pub record SessionState : Type 0 where
  pub session_id : String
  pub user_id : String
  pub created_at : ℕ
  pub expires_at : ℕ
  pub last_activity_at : ℕ
  pub current_refresh_token_id : String
  pub previous_refresh_tokens : List String
  pub token_family : String
  pub generation : ℕ
  pub device_fingerprint : Option DeviceFingerprint
  pub original_ip : String
  pub current_ip : String
  pub mfa_verified : Bool
  pub mfa_verified_at : Option ℕ
  pub request_count : ℕ
  pub revoked : Bool
  pub revoked_at : Option ℕ
  pub revocation_reason : String
  pub global_logout : Bool

pub data SecurityEventType : Type 0 where
  session_created token_rotated session_revoked : SecurityEventType

pub record SecurityEvent : Type 0 where
  pub event_type : SecurityEventType
  pub session_id : String
  pub user_id : String
  pub timestamp : ℕ
  pub correlation_id : String

abbrev pub is_rotated : TokenFamily → Bool
is_rotated rotated = true
is_rotated _ = false

-- The fields that `rotate_refresh_token`, `revoke_session` and `global_logout` update.
abbrev pub mark_refreshed : String → String → ℕ → ℕ → SessionState → SessionState → SessionState
mark_refreshed old_token_id new_token_id generation now read s = record s {
  current_refresh_token_id = new_token_id;
  previous_refresh_tokens = read.previous_refresh_tokens ++ old_token_id ∷ [];
  generation = generation;
  last_activity_at = now;
  request_count = read.request_count + 1;
}

abbrev pub mark_revoked : ℕ → String → SessionState → SessionState
mark_revoked now reason s = record s {
  revoked = true;
  revoked_at = some now;
  revocation_reason = reason;
}

abbrev mark_logged_out : ℕ → SessionState → SessionState
mark_logged_out now s = record (mark_revoked now "global_logout" s) { global_logout = true }

module _ (tokens : Collection TokenDoc) (sessions : Collection SessionState) where
  open tokens use {Db as TokenDb}
  open sessions use {Db as SessionDb}

  pub record World : Type 0 where
    pub token_db : TokenDb
    pub session_db : SessionDb
    pub events : List SecurityEvent

module _ (sha256 : String → String) (tokens : Collection TokenDoc)
    (sessions : Collection SessionState) where
  open tokens use {Db as TokenDb}
  open sessions use {Db as SessionDb, get, commit, stream}

  -- `_get_session`: an exception and a missing document give None alike.
  unfoldable pub find_session : String → World tokens sessions → Option SessionState
  find_session session_id w = elim (get w.session_db session_id) [
    | none ↦ none
    | some none ↦ none
    | some (some s) ↦ some s
  ]

  pub get_session : String → World tokens sessions → Option SessionState
  unfolding find_session
  get_session session_id w = elim (find_session session_id w) [
    | none ↦ none
    | some s ↦ if s.revoked then none else some s
  ]

  abbrev event : SecurityEventType → String → String → ℕ → String → SecurityEvent
  event kind session_id user_id now correlation_id = record {
    event_type = kind;
    session_id = session_id;
    user_id = user_id;
    timestamp = now;
    correlation_id = correlation_id;
  }

  -- A batch of one write to a session and one event; `none` is the exception of the commit.
  abbrev commit_with_event :
      Write SessionState → SecurityEvent → World tokens sessions → Option (World tokens sessions)
  commit_with_event x e w = elim (commit w.session_db (x ∷ [])) [
    | none ↦ none
    | some db ↦ some (record w { session_db = db; events = w.events ++ e ∷ [] })
  ]

  abbrev first_token : String → String → ℕ → String → Option DeviceFingerprint → TokenInfo
  first_token token_id family now ip device = record {
    token_id = token_id;
    token_family = family;
    generation = 1;
    issued_at = now;
    expires_at = now + seconds 604_800;
    last_used_at = none;
    used_count = 0;
    status = active;
    ip_address = ip;
    device_fingerprint = device;
    revoked_at = none;
    revocation_reason = "";
  }

  -- `create_session`: `none` is the exception that it raises again. The answer of `store_token` is
  -- not looked at.
  unfoldable create_session :
      String
      → String
      → String
      → String
      → String
      → String
      → Option DeviceFingerprint
      → String
      → Bool
      → ℕ
      → World tokens sessions
      → Option (String × String × String) × World tokens sessions
  create_session session_id token_family refresh_token token_id correlation_id user_id device ip
        mfa_verified now w =
      let session : SessionState = record {
        session_id = session_id;
        user_id = user_id;
        created_at = now;
        expires_at = now + seconds 86_400;
        last_activity_at = now;
        current_refresh_token_id = token_id;
        previous_refresh_tokens = [];
        token_family = token_family;
        generation = 1;
        device_fingerprint = device;
        original_ip = ip;
        current_ip = ip;
        mfa_verified = mfa_verified;
        mfa_verified_at = if mfa_verified then some now else none;
        request_count = 0;
        revoked = false;
        revoked_at = none;
        revocation_reason = "";
        global_logout = false;
      } in
      let w' = record w {
        token_db =
            (store_token sha256 tokens token_id refresh_token
              (first_token token_id token_family now ip device) now w.token_db).1;
      } in
      elim (commit_with_event (set session_id session)
        (event session_created session_id user_id now correlation_id) w') [
          | none ↦ (none, w')
          | some w'' ↦ (some (session_id, refresh_token, correlation_id), w'')
        ]

  -- `revoke_session`: the tokens first, then the session, then the event, each a call of its own.
  -- `event_stored` says whether the last one is stored or raises.
  unfoldable pub revoke_session :
      String → String → String → ℕ → Bool → World tokens sessions → Bool × World tokens sessions
  revoke_session session_id reason correlation_id now event_stored w =
      elim (find_session session_id w) [
        | none ↦ (false, w)
        | some s ↦
            let w' = record w {
              token_db = (revoke_token_family tokens s.token_family reason now w.token_db).1;
            } in
            elim (commit w.session_db (update session_id (mark_revoked now reason) ∷ [])) [
              | none ↦ (false, w')
              | some db ↦
                  if event_stored
                  then (
                    true,
                    record w' {
                      session_db = db;
                      events =
                          w.events
                          ++ event session_revoked session_id s.user_id now correlation_id ∷ [];
                    },
                  )
                  else (false, record w' { session_db = db })
            ]
      ]

  abbrev next_token : String → TokenInfo → ℕ → String → SessionState → TokenInfo
  next_token new_token_id old now ip s =
      record (first_token new_token_id old.token_family now ip s.device_fingerprint) {
        generation = old.generation + 1;
      }

  -- The replay branch of `rotate_refresh_token`.
  on_replay :
      String
      → TokenInfo
      → String
      → ℕ
      → Bool
      → World tokens sessions
      → Option String × World tokens sessions
  unfolding revoke_session
  on_replay session_id old correlation_id now event_stored w =
      let w' = record w {
        token_db =
            (revoke_token_family tokens old.token_family "replay_attack_detected" now w.token_db).1;
      } in
      (
        none,
        (revoke_session session_id "replay_attack_detected" correlation_id now event_stored w').1,
      )

  -- The rest of `rotate_refresh_token`. The answer of `rotate_token` is not looked at.
  unfoldable pub refresh :
      String
      → String
      → TokenInfo
      → SessionState
      → String
      → String
      → String
      → String
      → ℕ
      → World tokens sessions
      → Option String × World tokens sessions
  refresh session_id old_token_id old s ip correlation_id new_token_id new_refresh_token now w =
      let w' = record w {
        token_db =
            (rotate_token sha256 tokens old_token_id new_token_id new_refresh_token
              (next_token new_token_id old now ip s) now w.token_db).1;
      } in
      elim (commit_with_event
        (update session_id (mark_refreshed old_token_id new_token_id (old.generation + 1) now s))
        (event token_rotated session_id s.user_id now correlation_id) w') [
          | none ↦ (none, w')
          | some w'' ↦ (some new_refresh_token, w'')
        ]

  unfoldable pub rotate_refresh_token :
      String
      → String
      → String
      → String
      → String
      → String
      → String
      → ℕ
      → Bool
      → World tokens sessions
      → Option String × World tokens sessions
  unfolding on_replay refresh
  rotate_refresh_token session_id old_token_id old_refresh_token ip correlation_id new_token_id
        new_refresh_token now event_stored w =
      elim (verify_and_get_token sha256 tokens old_token_id old_refresh_token now w.token_db) [
        | none ↦ (none, w)
        | some old ↦ elim (find_session session_id w) [
          | none ↦ (none, w)
          | some s ↦
              if is_rotated old.status
              then on_replay session_id old correlation_id now event_stored w
              else refresh session_id old_token_id old s ip correlation_id new_token_id
                  new_refresh_token now w
        ]
      ]

  -- The loop of `global_logout` over the sessions found: the token families are revoked at once,
  -- the sessions in one batch after the loop.
  logout_tokens : ℕ → List (String × SessionState) → TokenDb → TokenDb
  logout_tokens now [] db = db
  logout_tokens now ((id, s) ∷ found) db = logout_tokens now found (
      if str_eq s.token_family ""
      then db
      else (revoke_token_family tokens s.token_family "global_logout" now db).1)

  unfoldable pub global_logout : String → ℕ → World tokens sessions → ℕ × World tokens sessions
  unfolding logout_tokens
  global_logout user_id now w =
      elim (stream w.session_db (λ s. str_eq s.user_id user_id && not s.revoked)) [
        | none ↦ (0, w)
        | some found ↦
            let w' = record w { token_db = logout_tokens now found w.token_db } in
            elim (commit w.session_db
              (map (λ (x : String × SessionState). update x.0 (mark_logged_out now)) found)) [
                | none ↦ (0, w')
                | some db ↦ (length found, record w' { session_db = db })
              ]
      ]
