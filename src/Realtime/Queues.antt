-- ===== src/Realtime/Queues.antt =====
-- What a subscriber's queue holds that nobody reads from.
use title_trust.Prelude.{
  ℕ, zero, suc, ◌≤◌, ◌==◌, ◌≡◌, ◌∙◌, sym, refl, ap, none, some, List, [], ◌∷◌, ◌++◌, map, length,
  length-append, take, if◌then◌else◌, arith, Bool-cases, inl, inr, ◌⊎◌, Option-cases,
}
use title_trust.Realtime.{
  Settings, Event, Subscriber, Broadcaster, put_nowait, offer, fanout_raw, fill,
}

-- What a queue of this size keeps of a list: all of it where the size is 0, or the first events.
abbrev pub capped {ℓ} : {A : Type ℓ} → ℕ → List A → List A
capped n l = if n == 0 then l else take n l

module _ {A : Type 0} where
  append-nil : (l : List A) → l ++ [] ≡ l
  append-nil [] = refl
  append-nil (x ∷ l) = ap (λ r. x ∷ r) (append-nil l)

  append_assoc : (l r s : List A) → (l ++ r) ++ s ≡ l ++ (r ++ s)
  append_assoc [] r s = refl
  append_assoc (x ∷ l) r s = ap (λ t. x ∷ t) (append_assoc l r s)

  take-all : (n : ℕ) (l : List A) → length l ≤ n → take n l ≡ l
  take-all zero [] h = refl
  take-all zero (x ∷ l) h = absurd (omega arith)
  take-all (suc n) [] h = refl
  take-all (suc n) (x ∷ l) h = ap (λ r. x ∷ r) (take-all n l (omega arith))

  take-full : (n : ℕ) (l r : List A) → n ≤ length l → take n (l ++ r) ≡ take n l
  take-full zero l r h = refl
  take-full (suc n) [] r h = absurd (omega arith)
  take-full (suc n) (x ∷ l) r h = ap (λ t. x ∷ t) (take-full n l r (omega arith))

  length-take : (n : ℕ) (l : List A) → length (take n l) ≤ n
  length-take zero l = omega arith
  length-take (suc n) [] = omega arith
  length-take (suc n) (x ∷ l) = omega (arith, length-take n l)

  -- A queue of a size that is no bound, or with no more than it may hold.
  abbrev pub Fits : ℕ → List A → Type 0
  Fits n q = (n ≡ 0) ⊎ (length q ≤ n)

  capped-full :
      (n : ℕ) (q r : List A) (x : A) → Fits n q → put_nowait n x q ≡ none → capped n (q ++ r) ≡ q
  capped-full n q r x (inl z) e = ground arith
  capped-full n q r x (inr h) e = ground (arith, take-full n q r, take-all n q)

  capped-room :
      (n : ℕ) (q q' r : List A) (x : A)
      → put_nowait n x q ≡ some q'
      → (q ++ (x ∷ r) ≡ q' ++ r) × Fits n q'
  capped-room n q q' r x e = (
    ground (arith, append_assoc q (x ∷ []) r),
    elim (Bool-cases (n == 0)) [
      | inl z ↦ inl (ground arith)
      | inr z ↦ inr (ground (arith, length-append q (x ∷ [])))
    ],
  )

module _ {B : Type 0} (c : Settings) where
  -- Events that come to one subscriber at their times.
  abbrev offer_all : List (ℕ × Event B) → Subscriber B → Subscriber B
  offer_all [] s = s
  offer_all ((now, e) ∷ es) s = offer_all es (offer c now e s)

  abbrev events_of : List (ℕ × Event B) → List (Event B)
  events_of es = map (λ (x : ℕ × Event B). x.1) es

  abbrev fanout_all : List (ℕ × Event B) → Broadcaster B → Broadcaster B
  fanout_all [] b = b
  fanout_all ((now, e) ∷ es) b = fanout_all es (fanout_raw c now e b)

  offer-none :
      (now : ℕ) (e : Event B) (s : Subscriber B)
      → put_nowait c.max_queue_size e s.queue ≡ none
      → offer c now e s ≡ s
  unfolding offer
  offer-none now e s k = rw (k, offer) refl

  queue-offer :
      (now : ℕ) (e : Event B) (s : Subscriber B) (q : List (Event B))
      → put_nowait c.max_queue_size e s.queue ≡ some q
      → (offer c now e s).queue ≡ q
  unfolding offer
  queue-offer now e s q k = rw (k, offer) refl

  capped-nil : (n : ℕ) (q : List (Event B)) → Fits n q → q ≡ capped n (q ++ [])
  capped-nil n q (inl z) = ground (arith, append-nil q)
  capped-nil n q (inr h) = ground (arith, append-nil q, take-all n q)

  offer_all-queue :
      (es : List (ℕ × Event B)) (s : Subscriber B)
      → Fits c.max_queue_size s.queue
      → (offer_all es s).queue ≡ capped c.max_queue_size (s.queue ++ events_of es)
  offer_all-queue [] s h = capped-nil c.max_queue_size s.queue h
  offer_all-queue ((now, e) ∷ es) s h =
      elim (Option-cases (put_nowait c.max_queue_size e s.queue)) [
        | inl k ↦
            (ap (λ (t : Subscriber B). (offer_all es t).queue) (offer-none now e s k)
              ∙ offer_all-queue es s h
              ∙ capped-full c.max_queue_size s.queue (events_of es) e h k
              ∙ sym (capped-full c.max_queue_size s.queue (e ∷ events_of es) e h k))
        | inr (q, k) ↦
            (let (same, fits) = capped-room c.max_queue_size s.queue q (events_of es) e k in
              let after = queue-offer now e s q k in
              offer_all-queue es (offer c now e s) (rw after fits)
              ∙ ap (λ l. capped c.max_queue_size l) (rw after refl ∙ sym same))
      ]

  map-map :
      (f g : Subscriber B → Subscriber B) (l : List (Subscriber B))
      → map f (map g l) ≡ map (λ s. f (g s)) l
  map-map f g [] = refl
  map-map f g (s ∷ l) = ap (λ r. f (g s) ∷ r) (map-map f g l)

  map-same : (l : List (Subscriber B)) → l ≡ map (λ s. s) l
  map-same [] = refl
  map-same (s ∷ l) = ap (λ r. s ∷ r) (map-same l)

  fanout_all-subscribers :
      (es : List (ℕ × Event B)) (b : Broadcaster B)
      → (fanout_all es b).subscribers ≡ map (offer_all es) b.subscribers
  unfolding fanout_raw
  fanout_all-subscribers [] b = map-same b.subscribers
  fanout_all-subscribers ((now, e) ∷ es) b =
      fanout_all-subscribers es (fanout_raw c now e b)
      ∙ map-map (offer_all es) (offer c now e) b.subscribers

  -- Events that are fanned out while nobody reads: each subscriber is offered all of them, and a
  -- queue that fits its size then holds what it held with those events behind it, in their order,
  -- cut at its size. So a slow reader loses the newest events and never an older one.
  fanout_all-capped :
      (es : List (ℕ × Event B)) (b : Broadcaster B)
      → ((fanout_all es b).subscribers ≡ map (offer_all es) b.subscribers)
        × ((s : Subscriber B)
            → Fits c.max_queue_size s.queue
            → (offer_all es s).queue ≡ capped c.max_queue_size (s.queue ++ events_of es))
  fanout_all-capped es b = (fanout_all-subscribers es b, offer_all-queue es)

  -- Filling a queue that fits: what fits of the items behind it.
  pub fill-capped :
      (items q : List (Event B))
      → Fits c.max_queue_size q
      → fill c items q ≡ capped c.max_queue_size (q ++ items)
  unfolding fill
  fill-capped [] q h = capped-nil c.max_queue_size q h
  fill-capped (e ∷ items) q h = elim (Option-cases (put_nowait c.max_queue_size e q)) [
    | inl k ↦ rw (k, fill) (sym (capped-full c.max_queue_size q (e ∷ items) e h k))
    | inr (q', k) ↦
        (let (same, fits) = capped-room c.max_queue_size q q' items e k in
          rw (k, fill) (fill-capped items q' fits ∙ ap (λ l. capped c.max_queue_size l) (sym same)))
  ]
