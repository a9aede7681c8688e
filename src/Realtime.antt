-- ===== src/Realtime.antt =====
-- backend/realtime/broadcaster.py: Broadcaster without Redis, and InMemoryEventStore of
-- backend/realtime/store.py. A payload is the event that it is the JSON text of: reading it back
-- gives that event. Each operation is one step: the changes of the buffer and of the queues are made
-- under the broadcaster's lock, but `publish` takes its sequence number in front of the lock, so that
-- two calls at once may take the same number, which a sequence of whole steps does not show.
pub mod Queues
pub mod Replay
pub mod Bounds
use title_trust.Prelude.{
  ℕ, zero, suc, ◌+◌, ◌-◌, ◌*◌, ◌==◌, Bool, true, false, ◌&&◌, not, String, Option, none, some, List,
  [], ◌∷◌, ◌++◌, map, length, drop, ltb, leb, if◌then◌else◌, str_eq, seconds,
}

pub record Settings : Type 0 where
  pub max_queue_size : ℕ
  pub replay_buffer_size : ℕ
  pub max_event_payload_bytes : ℕ
  pub heartbeat_interval_seconds : ℕ

-- An event; `B` is what the broadcaster does not read. A missing key and null are `none`.
pub record Event (B : Type 0) : Type 0 where
  pub event_type : Option String
  pub event_id : Option String
  pub ts : Option ℕ
  pub session_id : Option String
  -- `event["payload"]["session_id"]`
  pub payload_session_id : Option String
  pub sequence_id : Option ℕ
  pub origin_instance_id : Option String
  pub stream_offset : Option String
  pub body : B

-- A subscriber; `key` tells its queue from the others.
pub record Subscriber (B : Type 0) : Type 0 where
  pub key : ℕ
  pub queue : List (Event B)
  pub last_active : ℕ

pub record Broadcaster (B : Type 0) : Type 0 where
  pub subscribers : List (Subscriber B)
  pub replay_buffer : List (Event B)
  pub store : List (String × Event B)
  pub seq_counters : String → ℕ

-- `append` of a `deque(maxlen=n)`
abbrev pub push {ℓ} : {A : Type ℓ} → ℕ → A → List A → List A
push n x l = drop (length l + 1 - n) (l ++ x ∷ [])

-- `put_nowait` of an `asyncio.Queue(maxsize=n)`, which has no bound for 0; `none` is QueueFull.
abbrev pub put_nowait {ℓ} : {A : Type ℓ} → ℕ → A → List A → Option (List A)
put_nowait n x q = if not (n == 0) && leb n (length q) then none else some (q ++ x ∷ [])

abbrev pub has_id : {B : Type 0} → String → Event B → Bool
has_id id e = elim e.event_id [ none ↦ false | some i ↦ str_eq i id ]

-- The events after the first one with the id, as `register` and `InMemoryEventStore.replay` find
-- them.
pub after_id {ℓ} : {A : Type ℓ} → (A → Bool) → List A → List A
after_id is_last [] = []
after_id is_last (x ∷ xs) = let rest = after_id is_last xs in if is_last x then xs else rest

-- `x or y` of two texts or nulls.
abbrev or_else : Option String → Option String → Option String
or_else none y = y
or_else (some s) y = if str_eq s "" then y else some s

module _ {B : Type 0} (c : Settings) where
  -- The body of the loop of `_fanout_raw`.
  pub offer : ℕ → Event B → Subscriber B → Subscriber B
  offer now e s = elim (put_nowait c.max_queue_size e s.queue) [
    | none ↦ s
    | some q ↦ record s { queue = q; last_active = now }
  ]

  pub fanout_raw : ℕ → Event B → Broadcaster B → Broadcaster B
  unfolding offer
  fanout_raw now e b = record b {
    replay_buffer = push c.replay_buffer_size e b.replay_buffer;
    subscribers = map (offer now e) b.subscribers;
  }

  -- The last loop of `register`: it ends at the first QueueFull.
  pub fill : List (Event B) → List (Event B) → List (Event B)
  fill [] q = q
  fill (e ∷ items) q = elim (put_nowait c.max_queue_size e q) [ none ↦ q | some q' ↦ fill items q' ]

  -- The events that `register` replays.
  pub replayed : Option String → List (Event B) → List (Event B)
  unfolding after_id
  replayed none buffer = buffer
  replayed (some id) buffer = after_id (has_id id) buffer

  pub register : ℕ → Option String → ℕ → Broadcaster B → Subscriber B × Broadcaster B
  unfolding fill replayed
  register key last_event_id now b =
      let sub : Subscriber B = record {
        key = key;
        queue = fill (replayed last_event_id b.replay_buffer) [];
        last_active = now;
      } in
      (sub, record b { subscribers = sub ∷ b.subscribers })

  pub without : (Subscriber B → Bool) → List (Subscriber B) → List (Subscriber B)
  without gone [] = []
  without gone (s ∷ subs) = let rest = without gone subs in if gone s then rest else s ∷ rest

  pub unregister : ℕ → Broadcaster B → Broadcaster B
  unfolding without
  unregister key b = record b { subscribers = without (λ s. s.key == key) b.subscribers }

  -- `_prune_inactive`; the interval is taken to the other side of the comparison.
  pub prune_inactive : ℕ → Broadcaster B → Broadcaster B
  unfolding without
  prune_inactive now b = record b {
    subscribers =
        without (λ s. ltb (s.last_active + seconds (c.heartbeat_interval_seconds * 4)) now)
          b.subscribers;
  }

  -- `q.get()` of the stream that reads from a queue: the queue loses its first event.
  unfoldable pub get : ℕ → Broadcaster B → Broadcaster B
  get key b = record b {
    subscribers =
        map
          (λ (s : Subscriber B). record s {
            queue = if s.key == key then drop 1 s.queue else s.queue;
          })
          b.subscribers;
  }

  -- The flush of `stop`: each queue that has room gets the shutdown event.
  pub flush : Event B → Subscriber B → Subscriber B
  flush shutdown s = elim (put_nowait c.max_queue_size shutdown s.queue) [
    | none ↦ s
    | some q ↦ record s { queue = q }
  ]

  pub stop : Event B → Broadcaster B → Broadcaster B
  unfolding flush
  stop shutdown b = record b { subscribers = map (flush shutdown) b.subscribers }

  -- `InMemoryEventStore`, made with the size of the replay buffer. The id is drawn by `append`.
  pub store_append : String → Event B → List (String × Event B) → List (String × Event B)
  store_append id e buffer = push c.replay_buffer_size (id, e) buffer

  -- `items[-count:]` is all of them where `count` is 0.
  unfoldable store_replay : Option String → ℕ → List (String × Event B) → List (Event B)
  unfolding after_id
  store_replay none count buffer =
      map (λ (x : String × Event B). x.1)
        (if count == 0 then buffer else drop (length buffer - count) buffer)
  store_replay (some id) count buffer =
      map (λ (x : String × Event B). x.1)
        (after_id (λ (x : String × Event B). str_eq x.0 id) buffer)

  abbrev pub with_defaults : ℕ → String → Event B → Event B
  with_defaults now id e = record e {
    ts = elim e.ts [ none ↦ some now | some t ↦ some t ];
    event_id = elim e.event_id [ none ↦ some id | some i ↦ some i ];
  }

  abbrev pub session_of : Event B → Option String
  session_of e = or_else (or_else e.session_id e.payload_session_id) none

  -- The event with its number, if it has a session, and the counters after it.
  pub assign_sequence : Event B → (String → ℕ) → Event B × (String → ℕ)
  assign_sequence e counters = elim (session_of e) [
    | none ↦ (e, counters)
    | some s ↦ (
      record e { sequence_id = some (counters s + 1) },
      λ j. if str_eq s j then counters s + 1 else counters j,
    )
  ]

  -- `publish`: `size` is the number of bytes of an event's JSON text, `instance` the id of the
  -- broadcaster, `fresh` an id for an event without one and `offset` the id that the store draws.
  pub publish :
      (Event B → ℕ)
      → String
      → ℕ
      → String
      → String
      → Event B
      → Broadcaster B
      → Option String × Broadcaster B
  unfolding fanout_raw assign_sequence store_append
  publish size instance now fresh offset e b = elim e.event_type [
    | none ↦ (none, b)
    | some kind ↦
        let (numbered, counters) = assign_sequence (with_defaults now fresh e) b.seq_counters in
        let event = record numbered { origin_instance_id = some instance } in
        let b' = record b { seq_counters = counters } in
        if ltb c.max_event_payload_bytes (size event) then (none, b') else (
          some offset,
          fanout_raw now (record event { stream_offset = some offset })
              (record b' { store = store_append offset event b.store }),
        )
  ]
