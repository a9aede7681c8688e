-- ===== src/Text.antt =====
-- Python's `str` as the list of its code points, and the methods of it that the program uses.
-- Texts are ASCII: `lower` changes the letters A to Z.
pub mod Fields
use Prim.Native.Char.{code}
use Prim.Native.String.{String}
use title_trust.Prelude.{
  ℕ, zero, suc, ◌+◌, ◌/◌, ◌%◌, ltb, ◌≡◌, refl, Bool, true, false, ◌&&◌, ◌||◌, List, [], ◌∷◌, ◌++◌,
  arith, leb, ◌==◌, map, if◌then◌else◌,
}

abbrev pub Text : Type 0
Text = List ℕ

abbrev pub codes : String → Text
codes String.[] = []
codes (String.◌∷◌ c s) = code c ∷ codes s

unfoldable pub lower : Text → Text
lower = map (λ c. if leb b'A' c && leb c b'Z' then c + 32 else c)

abbrev pub starts_with : Text → Text → Bool
starts_with [] s = true
starts_with (c ∷ p) [] = false
starts_with (c ∷ p) (d ∷ s) = c == d && starts_with p s

-- `p in s`
unfoldable pub contains : Text → Text → Bool
contains p [] = starts_with p []
contains p (c ∷ s) = starts_with p (c ∷ s) || contains p s

-- `s == t`
abbrev pub text_eq : Text → Text → Bool
text_eq [] [] = true
text_eq [] (d ∷ t) = false
text_eq (c ∷ s) [] = false
text_eq (c ∷ s) (d ∷ t) = c == d && text_eq s t

starts_with-append : (p t : Text) → starts_with p (p ++ t) ≡ true
starts_with-append [] t = refl
starts_with-append (c ∷ p) t = ground (arith, starts_with-append p t)

contains-prefix : (p t : Text) → starts_with p t ≡ true → contains p t ≡ true
unfolding contains
contains-prefix p [] h = h
contains-prefix p (c ∷ t) h = ground arith

-- A text is in every text built around it.
contains-append : (p s t : Text) → contains p (s ++ (p ++ t)) ≡ true
unfolding contains
contains-append p [] t = contains-prefix p (p ++ t) (starts_with-append p t)
contains-append p (c ∷ s) t = ground (arith, contains-append p s t)

abbrev pub digits : ℕ → ℕ → Text
digits zero n = (n % 10 + b'0') ∷ []
digits (suc fuel) n = elim (ltb n 10) [
  | true ↦ (n + b'0') ∷ []
  | false ↦ digits fuel (n / 10) ++ (n % 10 + b'0') ∷ []
]

-- `str(n)`; a number has no more digits than its value, and one more.
unfoldable pub decimal : ℕ → Text
decimal n = digits n n

-- `sep.join(texts)`
abbrev pub join : Text → List Text → Text
join sep [] = []
join sep (t ∷ []) = t
join sep (t ∷ u ∷ rest) = t ++ (sep ++ join sep (u ∷ rest))
