-- ===== src/Gemini/Capacity.antt =====
-- The rate limit of `_await_capacity`, and that it ends.
use title_trust.Prelude.{
  ℕ, max, le→leb, length-append, ◌+◌, ◌-◌, ◌≤◌, ◌<◌, ◌≡◌, ◌∙◌, ap, sym, refl, Bool, true, false,
  some, List, [], ◌∷◌, ◌++◌, length, ltb, leb, if◌then◌else◌, seconds, arith, All, All-append,
  Bool-cases, inl, inr, ◌⊎◌,
}
use title_trust.Window.{
  All-zero, recent, count_in, IsSorted, drop_old, recent-recent, drop_old-recent, IsSorted-recent,
  recent-append, count_in-append, count_in-le-recent, All-le_trans, IsSorted-append,
}
use title_trust.Gemini.{
  oldest, Config, Round, drop_expired, proceed, sleep_for, round, await_capacity,
}

drop_expired-drop_old :
    (period now : ℕ) (stamps : List ℕ)
    → drop_expired period now stamps ≡ drop_old (seconds period) now stamps
unfolding drop_expired
drop_expired-drop_old period now [] = refl
drop_expired-drop_old period now (e ∷ stamps) =
    ground (arith, drop_expired-drop_old period now stamps)

abbrev proceeds : Round → Bool
proceeds proceed = true
proceeds (sleep_for t) = false

-- The times at which calls went on, when rounds were made at the times of the list, by any threads.
abbrev pub calls : Config → List ℕ → List ℕ → List ℕ
calls c [] stamps = []
calls c (now ∷ times) stamps =
    let (r, kept) = round c now stamps in
    let rest = calls c times kept in if proceeds r then now ∷ rest else rest

-- The stamps are the recent ones of all calls that went on, of which no window has too many.
pub record Represents (c : Config) (last : ℕ) (stamps h : List ℕ) : Type 0 where
  pub recent_part : stamps ≡ recent (seconds c.period_seconds) last h
  pub sorted : IsSorted h
  pub past : All (λ e. e ≤ last) h
  pub bounded : (t : ℕ) → count_in (seconds c.period_seconds) t h ≤ c.max_calls

module _ (c : Config) (positive : 0 < c.period_seconds) {last now : ℕ} (later : last ≤ now)
    {stamps h : List ℕ} (r : Represents c last stamps h) where
  kept-recent : drop_expired c.period_seconds now stamps ≡ recent (seconds c.period_seconds) now h
  kept-recent =
      drop_expired-drop_old c.period_seconds now stamps
      ∙ drop_old-recent _ now stamps (rw r.recent_part (IsSorted-recent _ last h r.sorted))
      ∙ ap (recent (seconds c.period_seconds) now) r.recent_part
      ∙ recent-recent (seconds c.period_seconds) last now h later

  past' : All (λ e. e ≤ now) h
  past' = All-le_trans last now h later r.past

  room : Bool
  room = ltb (length (recent (seconds c.period_seconds) now h)) c.max_calls

  round-room :
      room ≡ true
      → round c now stamps ≡ (proceed, recent (seconds c.period_seconds) now h ++ now ∷ [])
  unfolding round room
  round-room t = rw (kept-recent, t)

  round-full :
      room ≡ false
      → (proceeds (round c now stamps).0 ≡ false)
        × ((round c now stamps).1 ≡ recent (seconds c.period_seconds) now h)
  unfolding round room
  round-full t = rw (kept-recent, t) (refl, refl)

  round-Represents :
      Represents c now
        (round c now stamps).1
        (if proceeds (round c now stamps).0 then h ++ now ∷ [] else h)
  unfolding room
  round-Represents = elim (Bool-cases room) [
    | inl t ↦ rw (round-room t) (record {
      recent_part = sym (recent-append (seconds c.period_seconds) now h (omega arith));
      sorted = IsSorted-append h now r.sorted past';
      past = All-append (λ e. e ≤ now) h (now ∷ []) past' (omega arith);
      bounded = λ s. ground (
        arith,
        count_in-append (seconds c.period_seconds) s h now,
        r.bounded s,
        count_in-le-recent (seconds c.period_seconds) s now h,
      );
    })
    | inr t ↦
        rw ((round-full t).0, (round-full t).1)
          (record { recent_part = refl; sorted = r.sorted; past = past'; bounded = r.bounded })
  ]

calls-bounded :
    (c : Config) (last : ℕ) (times : List ℕ) (stamps h : List ℕ) (t : ℕ)
    → 0 < c.period_seconds
    → All (λ x. last ≤ x) times
    → IsSorted times
    → Represents c last stamps h
    → count_in (seconds c.period_seconds) t h
        + count_in (seconds c.period_seconds) t (calls c times stamps)
      ≤ c.max_calls
calls-bounded c last [] stamps h t k later s r = omega (arith, r.bounded t)
calls-bounded c last (now ∷ times) stamps h t k later s r =
    let next = round-Represents c k later.0 r in
    elim (Bool-cases (proceeds (round c now stamps).0)) [
      | inl p ↦ rw p (
          ground (
            arith,
            count_in-append (seconds c.period_seconds) t h now,
            calls-bounded c now times (round c now stamps).1 (h ++ now ∷ []) t k s.0 s.1
                (rw p at next),
          ))
      | inr p ↦ rw p (calls-bounded c now times (round c now stamps).1 h t k s.0 s.1 (rw p at next))
    ]

-- With a positive period and rounds of `_await_capacity`, of any threads, at times that do not go
-- back: at most `max_calls` calls go on in any window of the period (its end left out).
pub calls-le-max_calls :
    (c : Config) (times : List ℕ) (t : ℕ)
    → 0 < c.period_seconds
    → IsSorted times
    → count_in (seconds c.period_seconds) t (calls c times []) ≤ c.max_calls
calls-le-max_calls c times t k s = omega (
  arith,
  calls-bounded c 0 times [] [] t k (All-zero times) s
      (record { recent_part = refl; sorted = tt; past = tt; bounded = λ u. omega arith }),
)

length-drop_expired :
    (period now : ℕ) (stamps : List ℕ) → length (drop_expired period now stamps) ≤ length stamps
unfolding drop_expired
length-drop_expired period now [] = omega arith
length-drop_expired period now (e ∷ stamps) = ground (arith, length-drop_expired period now stamps)

-- After the sleep the oldest stamp has expired.
length-drop_expired_slept :
    (c : Config) (now now' : ℕ) (kept : List ℕ)
    → 0 < length kept
    → now + max 10_000 (oldest kept now + seconds c.period_seconds - now) ≤ now'
    → length (drop_expired c.period_seconds now' kept) < length kept
unfolding drop_expired
length-drop_expired_slept c now now' [] n h = absurd (omega arith)
length-drop_expired_slept c now now' (e ∷ rest) n h =
    let expired : leb (e + seconds c.period_seconds) now' ≡ true = le→leb _ _ (omega arith) in
    rw expired (omega (arith, length-drop_expired c.period_seconds now' rest))

round-after_sleep :
    (c : Config) (now now' s : ℕ) (stamps : List ℕ)
    → 0 < c.max_calls
    → length stamps ≤ c.max_calls
    → (round c now stamps).0 ≡ sleep_for s
    → now + s ≤ now'
    → proceeds (round c now' (round c now stamps).1).0 ≡ true
unfolding round
round-after_sleep c now now' s stamps k l e h =
    elim (Bool-cases (ltb (length (drop_expired c.period_seconds now stamps)) c.max_calls)) [
      | inl t ↦ absurd (ground arith)
      | inr f ↦
          (let slept : now
                  + max 10_000 (
                      oldest (drop_expired c.period_seconds now stamps) now
                      + seconds c.period_seconds
                      - now)
                ≤ now' =
              ground arith in
            rw f (
              ground (
                arith,
                length-drop_expired c.period_seconds now stamps,
                length-drop_expired_slept c now now' (drop_expired c.period_seconds now stamps)
                    (ground arith) slept,
              )))
    ]

length-round :
    (c : Config) (now : ℕ) (stamps : List ℕ)
    → length stamps ≤ c.max_calls
    → length (round c now stamps).1 ≤ c.max_calls
unfolding round
length-round c now stamps l = ground (
  arith,
  length-drop_expired c.period_seconds now stamps,
  length-append (drop_expired c.period_seconds now stamps) (now ∷ []),
)

Round-cases : (r : Round) → (r ≡ proceed) ⊎ ((s : ℕ) × (r ≡ sleep_for s))
Round-cases proceed = inl refl
Round-cases (sleep_for s) = inr (s, refl)

proceed_lem : (r : Round) → proceeds r ≡ true → r ≡ proceed
proceed_lem proceed h = refl
proceed_lem (sleep_for s) h = cc

-- With no other thread in between, and a sleep that lasts at least as long as it was asked to,
-- `_await_capacity` ends in its second round at the latest, with no more stamps than calls.
await_capacity-ends :
    (c : Config) (now now' : ℕ) (stamps : List ℕ)
    → 0 < c.max_calls
    → length stamps ≤ c.max_calls
    → ((s : ℕ) → (round c now stamps).0 ≡ sleep_for s → now + s ≤ now')
    → (kept : List ℕ) × (await_capacity c (now ∷ now' ∷ []) stamps ≡ some kept)
      × (length kept ≤ c.max_calls)
unfolding await_capacity
await_capacity-ends c now now' stamps k l slept = elim (Round-cases (round c now stamps).0) [
  | inl p ↦ rw (p, await_capacity) ((round c now stamps).1, refl, length-round c now stamps l)
  | inr (s, e) ↦
      rw (e, await_capacity)
        (rw
          (proceed_lem _ (round-after_sleep c now now' s stamps k l e (slept s e)), await_capacity)
          (
            (round c now' (round c now stamps).1).1,
            refl,
            length-round c now' _ (length-round c now stamps l),
          ))
]
