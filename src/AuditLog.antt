-- ===== src/AuditLog.antt =====
-- backend/repositories/audit_event_repository.py: the audit events of a session, each with the hash
-- of the one before. The digest and the rendering of payloads are arguments; so is the database.
pub mod Chain
pub mod Tamper
pub mod Memory
use title_trust.Prelude.{
  ℕ, zero, suc, ◌+◌, ◌-◌, ◌≤◌, ◌≡◌, ◌⊎◌, Bool, true, false, Option, none, some, List, [], ◌∷◌, ◌++◌,
  All, length, replicate,
}
use title_trust.Prelude.{◌>>=◌}
use title_trust.Text.{Text, codes, text_eq, decimal}

-- What one `append` writes. `created_at` is filled in by the database and left out.
pub record AuditEvent (P : Type 0) : Type 0 where
  pub session_id : Text
  pub sequence : ℕ
  pub event_type : Text
  pub payload : P
  pub actor_id : Option Text
  pub previous_hash : Text
  pub event_hash : Text
  pub created_at_epoch : ℕ

-- `json.dumps(payload, sort_keys=True, default=str)` and the hexadecimal SHA-256 of a text.
pub record Hashing (P : Type 0) : Type 0 where
  pub canonical : P → Text
  pub sha256 : Text → Text

module _ {P : Type 0} where
  abbrev pub of_session : Text → AuditEvent P → Bool
  of_session s e = text_eq e.session_id s

  abbrev pub Occurs : AuditEvent P → List (AuditEvent P) → Type 0
  Occurs e [] = ⊥
  Occurs e (x ∷ xs) = (x ≡ e) ⊎ Occurs e xs

  -- A document of the session with the greatest sequence, if the session has documents.
  pub IsLatest : Text → List (AuditEvent P) → Option (AuditEvent P) → Type 0
  IsLatest s es none = All (λ e. of_session s e ≡ false) es
  IsLatest s es (some l) =
      Occurs l es
      × (of_session s l ≡ true)
      × All (λ e. of_session s e ≡ true → e.sequence ≤ l.sequence) es

  abbrev pub hash_of : Option (AuditEvent P) → Text
  hash_of none = []
  hash_of (some e) = e.event_hash

  abbrev pub next_sequence : Option (AuditEvent P) → ℕ
  next_sequence none = 1
  next_sequence (some e) = e.sequence + 1

-- Firestore, as `append` uses it: a collection to which documents are only added, here in the order
-- in which they were. A transaction reads and writes at one time; `none` in front is an exception.
pub record Log (P : Type 0) : Type 1 where
  pub Db : Type 0
  pub events : Db → List (AuditEvent P)
  -- `where("session_id", "==", …).order_by("sequence", DESCENDING).limit(1)`
  pub latest : Db → Text → Option (Option (AuditEvent P))
  -- `create` of a document with an id, and the commit
  pub create : Db → Text → AuditEvent P → Option Db
  pub latest-IsLatest :
      (db : Db) (s : Text) (o : Option (AuditEvent P))
      → latest db s ≡ some o
      → IsLatest s (events db) o
  pub events-create :
      (db : Db) (id : Text) (e : AuditEvent P) (db' : Db)
      → create db id e ≡ some db'
      → events db' ≡ events db ++ e ∷ []

abbrev or_empty : Option Text → Text
or_empty none = []
or_empty (some t) = t

-- A field of the text that is hashed, and what follows it.
abbrev field : Text → Text → Text
field t rest = t ++ b':' ∷ rest

-- `f"{n:06d}"`
abbrev padded : ℕ → Text
padded n = replicate (6 - length (decimal n)) b'0' ++ decimal n

pub document_id : Text → ℕ → Text
document_id session_id sequence = session_id ++ b'-' ∷ padded sequence

module _ {P : Type 0} (h : Hashing P) where
  -- The text that is hashed, with a colon between its fields.
  unfoldable pub hashed_text : Text → ℕ → Text → Option Text → Text → P → Text
  hashed_text session_id sequence event_type actor_id previous_hash payload = field session_id (
      field (decimal sequence)
        (field event_type (field (or_empty actor_id) (field previous_hash (h.canonical payload)))))

  -- The event that follows `previous`.
  pub next_event : Option (AuditEvent P) → Text → Text → P → Option Text → ℕ → AuditEvent P
  unfolding hashed_text
  next_event previous session_id event_type payload actor_id now =
      let sequence = next_sequence previous in
      let previous_hash = hash_of previous in
      record {
        session_id = session_id;
        sequence = sequence;
        event_type = event_type;
        payload = payload;
        actor_id = actor_id;
        previous_hash = previous_hash;
        event_hash =
            h.sha256 (hashed_text session_id sequence event_type actor_id previous_hash payload);
        created_at_epoch = now;
      }

  -- `append`: the hash of the new event and the database, or an exception.
  pub append : (log : Log P) → log.Db → Text → Text → P → Option Text → ℕ → Option (Text × log.Db)
  unfolding next_event document_id
  append log db session_id event_type payload actor_id now = do
    previous ← log.latest db session_id
    let e = next_event previous session_id event_type payload actor_id now
    db' ← log.create db (document_id session_id e.sequence) e
    some (e.event_hash, db')

-- The arguments of a call of `append`.
pub record Entry (P : Type 0) : Type 0 where
  pub session_id : Text
  pub event_type : Text
  pub payload : P
  pub actor_id : Option Text
  pub now : ℕ

module _ {P : Type 0} (h : Hashing P) (log : Log P) where
  abbrev after_append : log.Db → Option (Text × log.Db) → log.Db
  after_append db none = db
  after_append db (some (t, db')) = db'

  -- Calls for any sessions, one after another; a call that raises changes nothing.
  pub append_all : log.Db → List (Entry P) → log.Db
  unfolding append
  append_all db [] = db
  append_all db (c ∷ cs) =
      append_all
        (after_append db (append h log db c.session_id c.event_type c.payload c.actor_id c.now)) cs
