-- ===== src/Realtime/Replay.antt =====
-- What a client that connects again gets of the events it has missed.
use title_trust.Prelude.{
  ℕ, zero, suc, ◌≡◌, ◌∙◌, refl, Bool, true, false, String, Option, none, some, List, [], ◌∷◌, ◌++◌,
  All, arith, inr,
}
use title_trust.Realtime.{Settings, Event, Broadcaster, has_id, after_id, replayed, register}
use title_trust.Realtime.Queues.{capped, fill-capped}

module _ {A : Type 0} (is_last : A → Bool) where
  after_id-found :
      (before after : List A) (x : A)
      → All (λ y. is_last y ≡ false) before
      → is_last x ≡ true
      → after_id is_last (before ++ x ∷ after) ≡ after
  unfolding after_id
  after_id-found [] after x h e = ground arith
  after_id-found (y ∷ before) after x h e = ground (arith, after_id-found before after x h.1 e)

  after_id-missing : (l : List A) → All (λ y. is_last y ≡ false) l → after_id is_last l ≡ []
  unfolding after_id
  after_id-missing [] h = refl
  after_id-missing (y ∷ l) h = ground (arith, after_id-missing l h.1)

module _ {B : Type 0} (c : Settings) (key now : ℕ) (b : Broadcaster B) where
  capped-empty : (n : ℕ) → capped {A = Event B} n [] ≡ []
  capped-empty zero = refl
  capped-empty (suc n) = ground arith

  register-queue :
      (last : Option String)
      → (register c key last now b).0.queue
        ≡ capped c.max_queue_size (replayed c last b.replay_buffer)
  unfolding register
  register-queue last = fill-capped c (replayed c last b.replay_buffer) [] (inr (omega arith))

  -- A client that registers with the id of an event gets, of the replay buffer, the events after
  -- the first one with that id, in their order, as many as its queue holds. Where the buffer has
  -- no event with that id it gets none at all, and without an id it gets the buffer.
  register-replayed :
      (id : String)
      → ((before after : List (Event B)) (e : Event B)
          → b.replay_buffer ≡ before ++ e ∷ after
          → All (λ x. has_id id x ≡ false) before
          → has_id id e ≡ true
          → (register c key (some id) now b).0.queue ≡ capped c.max_queue_size after)
        × (All (λ x. has_id id x ≡ false) b.replay_buffer
            → (register c key (some id) now b).0.queue ≡ [])
        × ((register c key none now b).0.queue ≡ capped c.max_queue_size b.replay_buffer)
  unfolding replayed
  register-replayed id = (
    λ before after e s h k.
        register-queue (some id)
        ∙ rw (s, replayed, after_id-found (has_id id) before after e h k) refl,
    λ h.
        register-queue (some id)
        ∙ rw (replayed, after_id-missing (has_id id) b.replay_buffer h)
            (capped-empty c.max_queue_size),
    register-queue none,
  )
