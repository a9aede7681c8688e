-- ===== src/Window.antt =====
-- Sliding windows over the times of events: the shared theory of the rate limits.
use title_trust.Prelude.{
  ℕ, suc, ◌+◌, ◌≤◌, ◌<◌, ◌≡◌, refl, ◌&&◌, List, [], ◌∷◌, ◌++◌, arith, length, All, All-append, ltb,
  leb, if◌then◌else◌, Bool-cases, inl, inr,
}

-- The events not older than `span` at `now`.
abbrev pub recent : ℕ → ℕ → List ℕ → List ℕ
recent span now [] = []
recent span now (e ∷ h) =
    let rest = recent span now h in if ltb now (e + span) then e ∷ rest else rest

-- How many events lie in the window of length `span` that starts at `t`.
abbrev pub count_in : ℕ → ℕ → List ℕ → ℕ
count_in span t [] = 0
count_in span t (e ∷ h) =
    let rest = count_in span t h in if leb t e && ltb e (t + span) then suc rest else rest

abbrev pub IsSorted : List ℕ → Type 0
IsSorted [] = Unit
IsSorted (e ∷ h) = All (λ x. e ≤ x) h × IsSorted h

-- What a deque drops from its left end until the first event that is recent.
abbrev pub drop_old : ℕ → ℕ → List ℕ → List ℕ
drop_old span now [] = []
drop_old span now (e ∷ h) = if leb (e + span) now then drop_old span now h else e ∷ h

pub recent-recent :
    (span now now' : ℕ) (h : List ℕ)
    → now ≤ now'
    → recent span now' (recent span now h) ≡ recent span now' h
recent-recent span now now' [] k = refl
recent-recent span now now' (e ∷ h) k = ground (arith, recent-recent span now now' h k)

recent-All : (span now : ℕ) (h : List ℕ) → All (λ e. now < e + span) h → recent span now h ≡ h
recent-All span now [] a = refl
recent-All span now (e ∷ h) a = ground (arith, recent-All span now h a.1)

All-later :
    (span now b : ℕ) (h : List ℕ)
    → now < b + span
    → All (λ x. b ≤ x) h
    → All (λ e. now < e + span) h
All-later span now b [] k a = tt
All-later span now b (e ∷ h) k a = (omega (arith, a.0), All-later span now b h k a.1)

pub drop_old-recent :
    (span now : ℕ) (h : List ℕ) → IsSorted h → drop_old span now h ≡ recent span now h
drop_old-recent span now [] s = refl
drop_old-recent span now (e ∷ h) s = elim (Bool-cases (leb (e + span) now)) [
  | inl old ↦ ground (arith, drop_old-recent span now h s.1)
  | inr young ↦ ground (arith, recent-All span now h (All-later span now e h (ground arith) s.0))
]

All-recent :
    (b span now : ℕ) (h : List ℕ) → All (λ x. b ≤ x) h → All (λ x. b ≤ x) (recent span now h)
All-recent b span now [] a = tt
All-recent b span now (e ∷ h) a = elim (Bool-cases (ltb now (e + span))) [
  | inl young ↦ rw young (a.0, All-recent b span now h a.1)
  | inr old ↦ rw old (All-recent b span now h a.1)
]

pub IsSorted-recent : (span now : ℕ) (h : List ℕ) → IsSorted h → IsSorted (recent span now h)
IsSorted-recent span now [] s = tt
IsSorted-recent span now (e ∷ h) s = elim (Bool-cases (ltb now (e + span))) [
  | inl young ↦ rw young (All-recent e span now h s.0, IsSorted-recent span now h s.1)
  | inr old ↦ rw old (IsSorted-recent span now h s.1)
]

pub recent-append :
    (span now : ℕ) (h : List ℕ)
    → 0 < span
    → recent span now (h ++ now ∷ []) ≡ recent span now h ++ now ∷ []
recent-append span now [] k = ground arith
recent-append span now (e ∷ h) k = ground (arith, recent-append span now h k)

pub count_in-append :
    (span t : ℕ) (h : List ℕ) (now : ℕ)
    → count_in span t (h ++ now ∷ []) ≡ count_in span t h + count_in span t (now ∷ [])
count_in-append span t [] now = omega arith
count_in-append span t (e ∷ h) now = ground (arith, count_in-append span t h now)

-- A window that holds `now` holds recent events only.
pub count_in-le-recent :
    (span t now : ℕ) (h : List ℕ) → now < t + span → count_in span t h ≤ length (recent span now h)
count_in-le-recent span t now [] k = omega arith
count_in-le-recent span t now (e ∷ h) k = ground (arith, count_in-le-recent span t now h k)

pub All-le_trans : (b b' : ℕ) (h : List ℕ) → b ≤ b' → All (λ x. x ≤ b) h → All (λ x. x ≤ b') h
All-le_trans b b' [] k a = tt
All-le_trans b b' (e ∷ h) k a = (omega (arith, a.0), All-le_trans b b' h k a.1)

pub IsSorted-append :
    (h : List ℕ) (now : ℕ) → IsSorted h → All (λ x. x ≤ now) h → IsSorted (h ++ now ∷ [])
IsSorted-append [] now s a = (tt, tt)
IsSorted-append (e ∷ h) now s a =
    (All-append (λ x. e ≤ x) h (now ∷ []) s.0 (a.0, tt), IsSorted-append h now s.1 a.1)

pub All-zero : (l : List ℕ) → All (λ t. 0 ≤ t) l
All-zero [] = tt
All-zero (x ∷ l) = (omega arith, All-zero l)
