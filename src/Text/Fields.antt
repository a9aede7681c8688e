-- ===== src/Text/Fields.antt =====
-- Texts that are put together from fields with a separator: when the fields can be read back.
use title_trust.Prelude.{
  ℕ, zero, suc, ◌+◌, ◌-◌, ◌*◌, ◌/◌, ◌%◌, ◌≤◌, ◌≡◌, ◌≢◌, refl, sym, ap, ◌⊎◌, ◌<◌, ◌∙◌, Bool, true,
  false, [], ◌∷◌, ◌++◌, ltb, arith, All, All-append, ltb→lt,
}
use title_trust.Text.{Text, text_eq, digits, decimal}
use mathlib.Core.Path.{ap₂}
use mathlib.Core.List.{head-eq_of_cons-eq, tail-eq_of_cons-eq}

pub text_eq_refl : (s : Text) → text_eq s s ≡ true
text_eq_refl [] = refl
text_eq_refl (c ∷ s) = ground (arith, text_eq_refl s)

pub text_eq→≡ : (s t : Text) → text_eq s t ≡ true → s ≡ t
text_eq→≡ [] [] h = refl
text_eq→≡ [] (d ∷ t) h = ground arith
text_eq→≡ (c ∷ s) [] h = ground arith
text_eq→≡ (c ∷ s) (d ∷ t) h = grind (arith, text_eq→≡ s t)

-- The character does not occur.
abbrev pub IsFree : ℕ → Text → Type 0
IsFree sep = All (λ c. c ≢ sep)

-- A first field that ends at a separator is the same in texts that are.
pub field_unique :
    (sep : ℕ) (s t u v : Text)
    → IsFree sep s
    → IsFree sep t
    → s ++ sep ∷ u ≡ t ++ sep ∷ v
    → (s ≡ t) × (u ≡ v)
field_unique sep [] [] u v hs ht h = (refl, tail-eq_of_cons-eq h)
field_unique sep [] (d ∷ t) u v hs ht h = absurd (ht.0 (sym (head-eq_of_cons-eq h)))
field_unique sep (c ∷ s) [] u v hs ht h = absurd (hs.0 (head-eq_of_cons-eq h))
field_unique sep (c ∷ s) (d ∷ t) u v hs ht h =
    let (same, rest) = field_unique sep s t u v hs.1 ht.1 (tail-eq_of_cons-eq h) in
    (ap₂ (λ x xs. x ∷ xs) (head-eq_of_cons-eq h) same, rest)

-- What the digits of a text spell behind `n`.
abbrev value : ℕ → Text → ℕ
value n [] = n
value n (c ∷ s) = value (n * 10 + (c - b'0')) s

value-append : (n : ℕ) (s t : Text) → value n (s ++ t) ≡ value (value n s) t
value-append n [] t = refl
value-append n (c ∷ s) t = value-append (n * 10 + (c - b'0')) s t

value-digits_step :
    (fuel n : ℕ) (b : Bool)
    → ltb n 10 ≡ b
    → value 0 (digits fuel (n / 10)) ≡ n / 10
    → value 0
        (elim b [ true ↦ (n + b'0') ∷ [] | false ↦ digits fuel (n / 10) ++ (n % 10 + b'0') ∷ [] ])
      ≡ n
value-digits_step fuel n true small ih = omega arith
value-digits_step fuel n false large ih =
    value-append 0 (digits fuel (n / 10)) ((n % 10 + b'0') ∷ []) ∙ omega (arith, ih)

value-digits : (fuel n : ℕ) → n ≤ fuel → value 0 (digits fuel n) ≡ n
value-digits zero n h = omega (arith, h)
value-digits (suc fuel) n h =
    value-digits_step fuel n (ltb n 10) refl (value-digits fuel (n / 10) (omega (arith, h)))

IsFree-digits_step :
    (sep fuel n : ℕ) (b : Bool)
    → sep < b'0' ⊎ b'9' < sep
    → ltb n 10 ≡ b
    → IsFree sep (digits fuel (n / 10))
    → IsFree sep
        (elim b [ true ↦ (n + b'0') ∷ [] | false ↦ digits fuel (n / 10) ++ (n % 10 + b'0') ∷ [] ])
IsFree-digits_step sep fuel n true out small ih = (omega (arith, out, ltb→lt n 10 small), tt)
IsFree-digits_step sep fuel n false out large ih =
    All-append _ (digits fuel (n / 10)) ((n % 10 + b'0') ∷ []) ih (omega (arith, out), tt)

IsFree-digits : (sep fuel n : ℕ) → sep < b'0' ⊎ b'9' < sep → IsFree sep (digits fuel n)
IsFree-digits sep zero n out = (omega (arith, out), tt)
IsFree-digits sep (suc fuel) n out =
    IsFree-digits_step sep fuel n (ltb n 10) out refl (IsFree-digits sep fuel (n / 10) out)

pub IsFree-decimal : (sep n : ℕ) → sep < b'0' ⊎ b'9' < sep → IsFree sep (decimal n)
unfolding decimal
IsFree-decimal sep n = IsFree-digits sep n n

-- Different numbers are printed differently, and without a separator.
pub decimal-injective : (m n : ℕ) → decimal m ≡ decimal n → m ≡ n
unfolding decimal
decimal-injective m n h =
    sym (value-digits m m (omega arith)) ∙ ap (value 0) h ∙ value-digits n n (omega arith)
