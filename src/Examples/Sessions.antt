-- ===== src/Examples/Sessions.antt =====
-- A session with its token, in memory and in a database that takes no writes.
use title_trust.Prelude.{◌≡◌, refl, Bool, true, false, String, Option, none, List, [], ◌∷◌}
use title_trust.Firestore.{Collection}
use title_trust.Firestore.Memory.{memory}
use title_trust.Tokens.{
  TokenInfo, TokenDoc, active, rotated, new_doc, rotate_token, revoke_token_family,
}
use title_trust.Tokens.Revocation.{AllOrNothing, revoke_token_family-all}
use title_trust.SessionSecurity.{
  SessionState, World, find_session, rotate_refresh_token, revoke_session,
}

-- Any function will do for the digest.
abbrev digest : String → String
digest s = s

abbrev info : TokenInfo
info = record {
  token_id = "t1";
  token_family = "fam";
  generation = 1;
  issued_at = 0;
  expires_at = 900;
  last_used_at = none;
  used_count = 0;
  status = active;
  ip_address = "10.0.0.1";
  device_fingerprint = none;
  revoked_at = none;
  revocation_reason = "";
}

abbrev next_info : TokenInfo
next_info = record info { token_id = "t2"; generation = 2 }

abbrev other_info : TokenInfo
other_info = record next_info { token_id = "t3" }

abbrev session : SessionState
session = record {
  session_id = "s1";
  user_id = "u1";
  created_at = 0;
  expires_at = 900;
  last_activity_at = 0;
  current_refresh_token_id = "t1";
  previous_refresh_tokens = [];
  token_family = "fam";
  generation = 1;
  device_fingerprint = none;
  original_ip = "10.0.0.1";
  current_ip = "10.0.0.1";
  mfa_verified = false;
  mfa_verified_at = none;
  request_count = 0;
  revoked = false;
  revoked_at = none;
  revocation_reason = "";
  global_logout = false;
}

abbrev tokens : Collection TokenDoc
tokens = memory TokenDoc

abbrev sessions : Collection SessionState
sessions = memory SessionState

abbrev db : tokens.Db
db = ("t1", new_doc digest "secret" info 0) ∷ []

abbrev session_db : sessions.Db
session_db = ("s1", session) ∷ []

abbrev after : tokens.Db
after = (rotate_token digest tokens "t1" "t2" "secret2" next_info 5 db).1

abbrev twice : tokens.Db
twice = (rotate_token digest tokens "t1" "t3" "secret3" other_info 6 after).1

revoke_token_family-all_example :
    AllOrNothing tokens "fam" "logout" 9 db (revoke_token_family tokens "fam" "logout" 9 db)
revoke_token_family-all_example = revoke_token_family-all tokens "fam" "logout" 9 db

abbrev world : World tokens sessions
world = record { token_db = db; session_db = session_db; events = [] }

abbrev rotated_doc : TokenDoc
rotated_doc = new_doc digest "secret" (record info { status = rotated }) 0

abbrev replayed : World tokens sessions
replayed = record world { token_db = ("t1", rotated_doc) ∷ [] }

abbrev answer : Option String × World tokens sessions
answer =
    rotate_refresh_token digest tokens sessions "s1" "t1" "secret" "10.0.0.9" "c" "t2" "secret2" 5
      true world

-- The same documents, where no write is taken.
abbrev read_only : Collection TokenDoc
read_only = record {
  Db = List (String × TokenDoc);
  get = tokens.get;
  commit = λ d xs. none;
  stream = tokens.stream;
  docs = tokens.docs;
  get_docs = tokens.get_docs;
  docs-commit = λ d xs d' e j. absurd (cc e);
  assoc-stream = tokens.assoc-stream;
}

abbrev stuck_world : World read_only sessions
stuck_world = record { token_db = db; session_db = session_db; events = [] }

abbrev stuck_answer : Option String × World read_only sessions
stuck_answer =
    rotate_refresh_token digest read_only sessions "s1" "t1" "secret" "10.0.0.9" "c" "t2" "secret2"
      5 true stuck_world

abbrev revoked_answer : Bool × World tokens sessions
revoked_answer = revoke_session digest tokens sessions "s1" "logout" "c" 9 true world

revoked_true : revoked_answer.0 ≡ true
unfolding revoke_session find_session
revoked_true = refl
