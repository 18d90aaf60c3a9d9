-- ===== src/Text.antt =====
-- Python texts that the code walks, as lists of code points, and the methods of `str` it uses.
pub mod Order
pub mod Split
pub mod Decimal
pub mod Space
pub mod Words
use curator_spec.Prelude.{
  Bool, List, String, [], any, arith, false, refl, reverse, true, ℕ, ◌&&◌, ◌==◌, ◌||◌, ◌∷◌, ◌≡◌,
}
use Prim.Native.Char.{code}

abbrev pub Text : Type 0
Text = List ℕ

-- the code points of a literal
abbrev pub codes : String → Text
codes String.[] = []
codes (String.◌∷◌ c s) = code c ∷ codes s

-- `s == t`
unfoldable pub text_eq : Text → Text → Bool
text_eq [] [] = true
text_eq (a ∷ s) (b ∷ t) = a == b && text_eq s t
text_eq _ _ = false

-- `c in s` for one character
abbrev pub has : ℕ → Text → Bool
has c s = any (λ d. d == c) s

-- `s == ""`
abbrev pub is_empty : Text → Bool
is_empty [] = true
is_empty (c ∷ s) = false

-- `s.startswith(p)`
unfoldable pub starts_with : Text → Text → Bool
starts_with s [] = true
starts_with [] (c ∷ p) = false
starts_with (b ∷ s) (c ∷ p) = b == c && starts_with s p

-- `s.endswith(p)`
unfoldable pub ends_with : Text → Text → Bool
unfolding starts_with
ends_with s p = starts_with (reverse s) (reverse p)

-- `"…" in s`
unfoldable pub contains : Text → Text → Bool
unfolding starts_with
contains [] p = is_empty p
contains (c ∷ s) p = starts_with (c ∷ s) p || contains s p

pub text_eq-eq : (s t : Text) → text_eq s t ≡ true → s ≡ t
unfolding text_eq
text_eq-eq [] [] h = refl
text_eq-eq (a ∷ s) (b ∷ t) h = ground (arith, text_eq-eq s t)
text_eq-eq [] (b ∷ t) h = ground arith
text_eq-eq (a ∷ s) [] h = ground arith

pub text_eq_refl : (s : Text) → text_eq s s ≡ true
unfolding text_eq
text_eq_refl [] = refl
text_eq_refl (a ∷ s) = ground (arith, text_eq_refl s)
