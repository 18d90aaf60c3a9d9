-- ===== src/Text/Words.antt =====
-- The words of a text that begins with a word.
use curator_spec.Text.{Text}
use curator_spec.Prelude.{
  [], all, ap, arith, false, not, refl, reverse, sym, true, ℕ, ◌++◌, ◌∙◌, ◌∷◌, ◌≡◌,
}
use mathlib.Core.List.{reverse-cons, reverse-reverse, reverse_aux}
use curator_spec.Text.Space.{words, words_from, flush, is_space}

-- no white space
abbrev pub Solid : Text → Type 0
Solid s = all (λ c. not (is_space c)) s ≡ true

words_from-append :
    (acc s rest : Text)
    → Solid s
    → words_from acc (s ++ b' ' ∷ rest) ≡ flush (reverse_aux s acc) ++ words_from [] rest
unfolding words_from
words_from-append acc [] rest h = refl
words_from-append acc (c ∷ s) rest h =
    let e : is_space c ≡ false = ground (arith, h) in
    rw e (words_from-append (c ∷ acc) s rest (ground (arith, h)))

words_from-Solid : (acc s : Text) → Solid s → words_from acc s ≡ flush (reverse_aux s acc)
unfolding words_from
words_from-Solid acc [] h = refl
words_from-Solid acc (c ∷ s) h =
    let e : is_space c ≡ false = ground (arith, h) in
    rw e (words_from-Solid (c ∷ acc) s (ground (arith, h)))

flush-append : (t : Text) (c : ℕ) → flush (t ++ c ∷ []) ≡ reverse (t ++ c ∷ []) ∷ []
unfolding flush
flush-append [] c = refl
flush-append (d ∷ t) c = refl

flush-reverse : (c : ℕ) (s : Text) → flush (reverse (c ∷ s)) ≡ (c ∷ s) ∷ []
flush-reverse c s =
    ap flush (reverse-cons c s)
    ∙ flush-append (reverse s) c
    ∙ ap (λ r. reverse r ∷ []) (sym (reverse-cons c s))
    ∙ ap (λ r. r ∷ []) (reverse-reverse (c ∷ s))

pub words-append :
    (c : ℕ) (s rest : Text) → Solid (c ∷ s) → words ((c ∷ s) ++ b' ' ∷ rest) ≡ (c ∷ s) ∷ words rest
unfolding words
words-append c s rest h =
    words_from-append [] (c ∷ s) rest h ∙ ap (λ ws. ws ++ words_from [] rest) (flush-reverse c s)

pub words-Solid : (c : ℕ) (s : Text) → Solid (c ∷ s) → words (c ∷ s) ≡ (c ∷ s) ∷ []
unfolding words
words-Solid c s h = words_from-Solid [] (c ∷ s) h ∙ flush-reverse c s
