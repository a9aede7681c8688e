-- ===== src/RateLimit/Bound.antt =====
-- The in-memory store against the list of all the times at which it has recorded a hit.
use title_trust.Prelude.{
  ℕ, ◌+◌, ◌-◌, ◌≤◌, ◌≡◌, refl, ◌∙◌, ap, Bool, true, false, String, List, [], ◌∷◌, ◌++◌, length,
  length-append, sym, ltb, if◌then◌else◌, eq_refl, seconds, arith, All, All-append, Bool-cases, inl,
  inr,
}
use title_trust.Window.{
  All-zero, recent, count_in, IsSorted, drop_old, recent-recent, drop_old-recent, IsSorted-recent,
  recent-append, count_in-append, count_in-le-recent, All-le_trans, IsSorted-append,
}
use title_trust.RateLimit.{
  Events, empty, drop_expired, hit_events, Verdict, allowed, too_many_requests, enforce_rate_limit,
}

-- A hit of exactly `window_seconds` ago still counts.
abbrev pub span_of : ℕ → ℕ
span_of window_seconds = seconds window_seconds + 1

drop_expired-drop_old :
    (window now : ℕ) (events : List ℕ)
    → drop_expired window now events ≡ drop_old (span_of window) now events
unfolding drop_expired
drop_expired-drop_old window now [] = refl
drop_expired-drop_old window now (e ∷ events) =
    ground (arith, drop_expired-drop_old window now events)

-- What the whole history would answer: whether a hit at `now` is recorded.
abbrev records : ℕ → ℕ → ℕ → List ℕ → Bool
records limit window now h = ltb (length (recent (span_of window) now h)) limit

abbrev extend : ℕ → ℕ → ℕ → List ℕ → List ℕ
extend limit window now h = if records limit window now h then h ++ now ∷ [] else h

-- The deque holds the recent part of the history.
pub record Represents (window last : ℕ) (deque h : List ℕ) : Type 0 where
  pub recent_part : deque ≡ recent (span_of window) last h
  pub sorted : IsSorted h
  pub past : All (λ e. e ≤ last) h

module _ (limit window : ℕ) {last now : ℕ} (later : last ≤ now) {deque h : List ℕ}
    (r : Represents window last deque h) where
  kept-recent : drop_expired window now deque ≡ recent (span_of window) now h
  kept-recent =
      drop_expired-drop_old window now deque
      ∙ drop_old-recent (span_of window) now deque
          (rw r.recent_part (IsSorted-recent _ last h r.sorted))
      ∙ ap (recent (span_of window) now) r.recent_part
      ∙ recent-recent (span_of window) last now h later

  -- The answers of `hit`, by the recent part of the history.
  hit_events-room :
      records limit window now h ≡ true
      → hit_events limit window now deque ≡ (
        limit - (length (recent (span_of window) now h) + 1),
        recent (span_of window) now h ++ now ∷ [],
      )
  unfolding hit_events
  hit_events-room room =
      rw kept-recent (ground (arith, length-append (recent (span_of window) now h) (now ∷ [])))

  hit_events-full :
      records limit window now h ≡ false
      → hit_events limit window now deque ≡ (0, recent (span_of window) now h)
  unfolding hit_events
  hit_events-full full = rw kept-recent (ground arith)

  hit_events-Represents :
      Represents window now (hit_events limit window now deque).1 (extend limit window now h)
  hit_events-Represents =
      let past' = All-le_trans last now h later r.past in
      elim (Bool-cases (records limit window now h)) [
        | inl room ↦
            rw (hit_events-room room, room)
              (record {
                recent_part = sym (recent-append (span_of window) now h (omega arith));
                sorted = IsSorted-append h now r.sorted past';
                past = All-append (λ e. e ≤ now) h (now ∷ []) past' (omega arith);
              })
        | inr full ↦
            rw (hit_events-full full, full)
              (record { recent_part = refl; sorted = r.sorted; past = past' })
      ]

  hit_events-remaining :
      (hit_events limit window now deque).0 ≡ limit - (length (recent (span_of window) now h) + 1)
  hit_events-remaining = elim (Bool-cases (records limit window now h)) [
    | inl room ↦ rw (hit_events-room room)
    | inr full ↦ rw (hit_events-full full) (ground arith)
  ]

abbrev is_allowed : Verdict → Bool
is_allowed allowed = true
is_allowed too_many_requests = false

-- The verdicts on requests with one key, at the times of the list.
abbrev pub verdicts : String → ℕ → List ℕ → Events → List Bool
verdicts key limit [] events = []
verdicts key limit (now ∷ times) events =
    let (v, events') = enforce_rate_limit key limit now events in
    is_allowed v ∷ verdicts key limit times events'

-- The specification: a request passes if, with it, fewer than `limit` hits are recent.
abbrev pub specified : ℕ → List ℕ → List ℕ → List Bool
specified limit [] h = []
specified limit (now ∷ times) h =
    ltb (length (recent (span_of 60) now h) + 1) limit
    ∷ specified limit times (extend limit 60 now h)

module _ (key : String) (limit : ℕ) {last now : ℕ} (later : last ≤ now) (events : Events)
    {h : List ℕ} (r : Represents 60 last (events key) h) where
  enforce-Represents :
      Represents 60 now ((enforce_rate_limit key limit now events).1 key) (extend limit 60 now h)
  unfolding enforce_rate_limit
  enforce-Represents = rw eq_refl (hit_events-Represents limit 60 later r)

  enforce-is_allowed :
      is_allowed (enforce_rate_limit key limit now events).0
      ≡ ltb (length (recent (span_of 60) now h) + 1) limit
  unfolding enforce_rate_limit
  enforce-is_allowed = rw (hit_events-remaining limit 60 later r) (ground arith)

verdicts-Represents :
    (key : String) (limit last : ℕ) (times : List ℕ) (events : Events) (h : List ℕ)
    → All (λ t. last ≤ t) times
    → IsSorted times
    → Represents 60 last (events key) h
    → verdicts key limit times events ≡ specified limit times h
verdicts-Represents key limit last [] events h a s r = refl
verdicts-Represents key limit last (now ∷ times) events h a s r = cc (
  enforce-is_allowed key limit a.0 events r,
  verdicts-Represents key limit now times (enforce_rate_limit key limit now events).1
      (extend limit 60 now h) s.0 s.1 (enforce-Represents key limit a.0 events r),
)

-- From an empty store, requests with one key at times that do not go back get the verdicts that
-- the list of all recorded hits gives: one passes exactly if the hits of the last 60 seconds,
-- itself included, are fewer than the limit.
pub verdicts-specified :
    (key : String) (limit : ℕ) (times : List ℕ)
    → IsSorted times
    → verdicts key limit times empty ≡ specified limit times []
verdicts-specified key limit times s =
    verdicts-Represents key limit 0 times empty [] (All-zero times) s
      (record { recent_part = refl; sorted = tt; past = tt })

-- The times at which a request passed.
abbrev pub admitted : String → ℕ → List ℕ → Events → List ℕ
admitted key limit [] events = []
admitted key limit (now ∷ times) events =
    let (v, events') = enforce_rate_limit key limit now events in
    let rest = admitted key limit times events' in if is_allowed v then now ∷ rest else rest

-- `a` are the times of the requests that have passed, among the recorded hits `h`.
record Passed (limit : ℕ) (a h : List ℕ) : Type 0 where
  among : (t : ℕ) → count_in (span_of 60) t a ≤ count_in (span_of 60) t h
  bounded : (t : ℕ) → count_in (span_of 60) t a ≤ limit - 1

Passed-denied :
    (limit now : ℕ) (a h : List ℕ) → Passed limit a h → Passed limit a (extend limit 60 now h)
Passed-denied limit now a h p = record {
  among = λ t. elim (Bool-cases (records limit 60 now h)) [
    | inl room ↦ rw room (omega (arith, p.among t, count_in-append (span_of 60) t h now))
    | inr full ↦ rw full (p.among t)
  ];
  bounded = p.bounded;
}

Passed-allowed :
    (limit now : ℕ) (a h : List ℕ)
    → ltb (length (recent (span_of 60) now h) + 1) limit ≡ true
    → Passed limit a h
    → Passed limit (a ++ now ∷ []) (extend limit 60 now h)
Passed-allowed limit now a h v p =
    let room : records limit 60 now h ≡ true = ground arith in
    record {
      among = λ t. rw room (
          omega (
            arith,
            p.among t,
            count_in-append (span_of 60) t h now,
            count_in-append (span_of 60) t a now,
          ));
      bounded = λ t. ground (
        arith,
        count_in-append (span_of 60) t a now,
        p.among t,
        p.bounded t,
        count_in-le-recent (span_of 60) t now h,
      );
    }

admitted-Passed :
    (key : String) (limit last : ℕ) (times : List ℕ) (events : Events) (a h : List ℕ) (t : ℕ)
    → All (λ x. last ≤ x) times
    → IsSorted times
    → Represents 60 last (events key) h
    → Passed limit a h
    → count_in (span_of 60) t a + count_in (span_of 60) t (admitted key limit times events)
      ≤ limit - 1
admitted-Passed key limit last [] events a h t later s r p = omega (arith, p.bounded t)
admitted-Passed key limit last (now ∷ times) events a h t later s r p =
    let events' = (enforce_rate_limit key limit now events).1 in
    let r' = enforce-Represents key limit later.0 events r in
    let v = enforce-is_allowed key limit later.0 events r in
    elim (Bool-cases (ltb (length (recent (span_of 60) now h) + 1) limit)) [
      | inl pass ↦ rw (v ∙ pass) (
          ground (
            arith,
            count_in-append (span_of 60) t a now,
            admitted-Passed key limit now times events' (a ++ now ∷ []) (extend limit 60 now h) t
                s.0 s.1 r' (Passed-allowed limit now a h pass p),
          ))
      | inr stop ↦ rw (v ∙ stop) (
          admitted-Passed key limit now times events' a (extend limit 60 now h) t s.0 s.1 r'
            (Passed-denied limit now a h p))
    ]

-- Of the requests with one key, at times that do not go back, fewer than `limit` pass in any
-- window of 60 seconds (both ends included), and none where the limit is 0 or 1.
pub admitted-bounded :
    (key : String) (limit : ℕ) (times : List ℕ) (t : ℕ)
    → IsSorted times
    → count_in (span_of 60) t (admitted key limit times empty) ≤ limit - 1
admitted-bounded key limit times t s = omega (
  arith,
  admitted-Passed key limit 0 times empty [] [] t (All-zero times) s
      (record { recent_part = refl; sorted = tt; past = tt })
      (record { among = λ t'. omega arith; bounded = λ t'. omega arith }),
)
