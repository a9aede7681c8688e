-- ===== src/Realtime/Bounds.antt =====
-- What holds of the broadcaster after any operations.
use title_trust.Prelude.{
  ℕ, ◌+◌, ◌-◌, ◌≤◌, ◌==◌, ◌≡◌, refl, Bool, String, Option, none, some, List, [], ◌∷◌, ◌++◌, map,
  length, length-append, length-drop, drop, ltb, if◌then◌else◌, arith, All, Bool-cases,
  Option-cases, inl, inr,
}
use title_trust.Realtime.{
  Settings, Event, Subscriber, Broadcaster, push, put_nowait, offer, fill, register, without,
  unregister, prune_inactive, get, stop, flush, store_append, assign_sequence, with_defaults,
  publish, fanout_raw,
}
use title_trust.Realtime.Queues.{Fits}

-- The operations, each with what it takes from its surroundings.
pub data Operation (B : Type 0) : Type 0 where
  registering : (key : ℕ) (last_event_id : Option String) (now : ℕ) → Operation B
  unregistering : (key : ℕ) → Operation B
  pruning : (now : ℕ) → Operation B
  getting : (key : ℕ) → Operation B
  stopping : Event B → Operation B
  publishing : (now : ℕ) (fresh offset : String) → Event B → Operation B

abbrev pub new : {B : Type 0} → Broadcaster B
new = record { subscribers = []; replay_buffer = []; store = []; seq_counters = λ s. 0 }

module _ {B : Type 0} (c : Settings) (size : Event B → ℕ) (instance_id : String) where
  abbrev pub perform : Operation B → Broadcaster B → Broadcaster B
  perform (registering key last now) b = (register c key last now b).1
  perform (unregistering key) b = unregister c key b
  perform (pruning now) b = prune_inactive c now b
  perform (getting key) b = get c key b
  perform (stopping e) b = stop c e b
  perform (publishing now fresh offset e) b = (publish c size instance_id now fresh offset e b).1

  abbrev pub perform_all : List (Operation B) → Broadcaster B → Broadcaster B
  perform_all [] b = b
  perform_all (o ∷ os) b = perform_all os (perform o b)

  pub record Inv (b : Broadcaster B) : Type 0 where
    pub queues : All (λ s. Fits c.max_queue_size s.queue) b.subscribers
    pub buffer : length b.replay_buffer ≤ c.replay_buffer_size
    pub stored : length b.store ≤ c.replay_buffer_size

  abbrev AllFit : List (Subscriber B) → Type 0
  AllFit l = All (λ s. Fits c.max_queue_size s.queue) l

  length-push : {A : Type 0} (n : ℕ) (x : A) (l : List A) → length (push n x l) ≤ n
  length-push n x l =
      omega (arith, length-drop (length l + 1 - n) (l ++ x ∷ []), length-append l (x ∷ []))

  put_nowait-Fits :
      (x : Event B) (q q' : List (Event B))
      → put_nowait c.max_queue_size x q ≡ some q'
      → Fits c.max_queue_size q'
  put_nowait-Fits x q q' e = elim (Bool-cases (c.max_queue_size == 0)) [
    | inl z ↦ inl (ground arith)
    | inr z ↦ inr (ground (arith, length-append q (x ∷ [])))
  ]

  offer-Fits :
      (now : ℕ) (e : Event B) (s : Subscriber B)
      → Fits c.max_queue_size s.queue
      → Fits c.max_queue_size (offer c now e s).queue
  unfolding offer
  offer-Fits now e s h = elim (Option-cases (put_nowait c.max_queue_size e s.queue)) [
    | inl k ↦ rw (k, offer) h
    | inr (q, k) ↦ rw (k, offer) (put_nowait-Fits e s.queue q k)
  ]

  AllFit-map :
      (f : Subscriber B → Subscriber B) (l : List (Subscriber B))
      → ((s : Subscriber B) → Fits c.max_queue_size s.queue → Fits c.max_queue_size (f s).queue)
      → AllFit l
      → AllFit (map f l)
  AllFit-map f [] h k = tt
  AllFit-map f (s ∷ l) h k = (h s k.0, AllFit-map f l h k.1)

  AllFit-without :
      (gone : Subscriber B → Bool) (l : List (Subscriber B)) → AllFit l → AllFit (without c gone l)
  unfolding without
  AllFit-without gone [] k = tt
  AllFit-without gone (s ∷ l) k = elim (Bool-cases (gone s)) [
    | inl g ↦ rw (g, without) (AllFit-without gone l k.1)
    | inr g ↦ rw (g, without) (k.0, AllFit-without gone l k.1)
  ]

  fill-Fits :
      (items q : List (Event B)) → Fits c.max_queue_size q → Fits c.max_queue_size (fill c items q)
  unfolding fill
  fill-Fits [] q h = h
  fill-Fits (e ∷ items) q h = elim (Option-cases (put_nowait c.max_queue_size e q)) [
    | inl k ↦ rw (k, fill) h
    | inr (q', k) ↦ rw (k, fill) (fill-Fits items q' (put_nowait-Fits e q q' k))
  ]

  flush-Fits :
      (e : Event B) (s : Subscriber B)
      → Fits c.max_queue_size s.queue
      → Fits c.max_queue_size (flush c e s).queue
  unfolding flush
  flush-Fits e s h = elim (Option-cases (put_nowait c.max_queue_size e s.queue)) [
    | inl k ↦ rw (k, flush) h
    | inr (q, k) ↦ rw (k, flush) (put_nowait-Fits e s.queue q k)
  ]

  stop-Inv : (e : Event B) (b : Broadcaster B) → Inv b → Inv (stop c e b)
  unfolding stop
  stop-Inv e b v = record {
    queues = AllFit-map _ b.subscribers (flush-Fits e) v.queues;
    buffer = v.buffer;
    stored = v.stored;
  }

  get-Inv : (key : ℕ) (b : Broadcaster B) → Inv b → Inv (get c key b)
  unfolding get
  get-Inv key b v = record {
    queues = AllFit-map _ b.subscribers (λ s h. read s h) v.queues;
    buffer = v.buffer;
    stored = v.stored;
  }
    where
      read :
          (s : Subscriber B)
          → Fits c.max_queue_size s.queue
          → Fits c.max_queue_size (if s.key == key then drop 1 s.queue else s.queue)
      read s (inl z) = inl z
      read s (inr h) = inr (ground (arith, length-drop 1 s.queue))

  publish-Inv :
      (now : ℕ) (fresh offset : String) (e : Event B) (b : Broadcaster B)
      → Inv b
      → Inv (publish c size instance_id now fresh offset e b).1
  unfolding publish fanout_raw store_append
  publish-Inv now fresh offset e b v = typed e.event_type refl
    where
      event : Event B
      event = record (assign_sequence c (with_defaults c now fresh e) b.seq_counters).0 {
        origin_instance_id = some instance_id;
      }

      typed :
          (o : Option String)
          → e.event_type ≡ o
          → Inv (publish c size instance_id now fresh offset e b).1
      typed none t = rw (t, publish) v
      typed (some kind) t = elim (Bool-cases (ltb c.max_event_payload_bytes (size event))) [
        | inl big ↦
            rw (t, big, publish)
              (record { queues = v.queues; buffer = v.buffer; stored = v.stored })
        | inr fine ↦
            rw (t, fine, publish)
              (record {
                queues = AllFit-map _ b.subscribers (λ s. offer-Fits now _ s) v.queues;
                buffer = length-push c.replay_buffer_size _ b.replay_buffer;
                stored = length-push c.replay_buffer_size _ b.store;
              })
      ]

  perform-Inv : (o : Operation B) (b : Broadcaster B) → Inv b → Inv (perform o b)
  unfolding register unregister prune_inactive
  perform-Inv (registering key last now) b v = record {
    queues = (fill-Fits _ [] (inr (omega arith)), v.queues);
    buffer = v.buffer;
    stored = v.stored;
  }
  perform-Inv (unregistering key) b v = record {
    queues = AllFit-without _ b.subscribers v.queues;
    buffer = v.buffer;
    stored = v.stored;
  }
  perform-Inv (pruning now) b v = record {
    queues = AllFit-without _ b.subscribers v.queues;
    buffer = v.buffer;
    stored = v.stored;
  }
  perform-Inv (getting key) b v = get-Inv key b v
  perform-Inv (stopping e) b v = stop-Inv e b v
  perform-Inv (publishing now fresh offset e) b v = publish-Inv now fresh offset e b v

  perform_all-kept : (os : List (Operation B)) (b : Broadcaster B) → Inv b → Inv (perform_all os b)
  perform_all-kept [] b v = v
  perform_all-kept (o ∷ os) b v = perform_all-kept os (perform o b) (perform-Inv o b v)

  -- After any operations on a new broadcaster, in any order: no queue holds more than its size,
  -- unless that is 0, and neither the replay buffer nor the store more than the buffer's size.
  pub perform_all-Inv : (os : List (Operation B)) → Inv (perform_all os new)
  perform_all-Inv os =
      perform_all-kept os new (record { queues = tt; buffer = omega arith; stored = omega arith })
