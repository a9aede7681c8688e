-- ===== src/Examples/Streams.antt =====
-- A broadcaster whose queues hold two events.
use title_trust.Prelude.{ℕ, String, none, some, List, [], ◌∷◌}
use title_trust.Realtime.{Settings, Event, Subscriber, Broadcaster}
use title_trust.Realtime.Bounds.{
  Operation, registering, getting, publishing, new, perform_all, Inv, perform_all-Inv,
}

abbrev settings : Settings
settings = record {
  max_queue_size = 2;
  replay_buffer_size = 3;
  max_event_payload_bytes = 100;
  heartbeat_interval_seconds = 15;
}

abbrev event : String → Event ℕ
event id = record {
  event_type = some "note";
  event_id = some id;
  ts = none;
  session_id = some "s";
  payload_session_id = none;
  sequence_id = none;
  origin_instance_id = none;
  stream_offset = none;
  body = 0;
}

abbrev subscriber : Subscriber ℕ
subscriber = record { key = 1; queue = event "a" ∷ []; last_active = 0 }

abbrev broadcaster : Broadcaster ℕ
broadcaster = record {
  subscribers = subscriber ∷ [];
  replay_buffer = event "a" ∷ event "b" ∷ event "c" ∷ [];
  store = [];
  seq_counters = λ s. 0;
}

abbrev later : List (ℕ × Event ℕ)
later = (5, event "d") ∷ (6, event "e") ∷ []

abbrev size : Event ℕ → ℕ
size e = e.body

abbrev operations : List (Operation ℕ)
operations =
    registering 1 none 3
    ∷ publishing 4 "x" "m1" (event "a")
    ∷ publishing 5 "y" "m2" (record (event "b") { body = 200 })
    ∷ publishing 6 "z" "m3" (event "c")
    ∷ getting 1
    ∷ []

perform_all-Inv_example : Inv settings size "i" (perform_all settings size "i" operations new)
perform_all-Inv_example = perform_all-Inv settings size "i" operations
