-- ===== src/Text/Split.antt =====
-- `split`, `join` and `partition` at one character.
use curator_spec.Prelude.{
  All, List, Option, [], ap, arith, false, if◌then◌else◌, none, refl, some, true, ℕ, ◌++◌, ◌==◌,
  ◌||◌, ◌∙◌, ◌∷◌, ◌≡◌,
}
use curator_spec.Text.{Text, has}

-- a character in front of the first part
abbrev pub to_first : ℕ → List Text → List Text
to_first c [] = (c ∷ []) ∷ []
to_first c (p ∷ ps) = (c ∷ p) ∷ ps

-- `s.split(sep)`; there is always at least one part.
unfoldable pub split : ℕ → Text → List Text
split sep [] = [] ∷ []
split sep (c ∷ s) = let rest = split sep s in if c == sep then [] ∷ rest else to_first c rest

-- `sep.join(parts)`
unfoldable pub join : ℕ → List Text → Text
join sep [] = []
join sep (p ∷ []) = p
join sep (p ∷ q ∷ ps) = p ++ sep ∷ join sep (q ∷ ps)

-- `head, _, tail = s.partition(sep)`
unfoldable pub before : ℕ → Text → Text
before sep [] = []
before sep (c ∷ s) = let rest = before sep s in if c == sep then [] else c ∷ rest

unfoldable pub after : ℕ → Text → Text
after sep [] = []
after sep (c ∷ s) = let rest = after sep s in if c == sep then s else rest

abbrev pub Lacks : ℕ → Text → Type 0
Lacks sep s = has sep s ≡ false

split-Lacks : (sep : ℕ) (s : Text) → Lacks sep s → split sep s ≡ s ∷ []
unfolding split
split-Lacks sep [] h = refl
split-Lacks sep (c ∷ s) h = ground (arith, split-Lacks sep s)

split-append :
    (sep : ℕ) (s rest : Text) → Lacks sep s → split sep (s ++ sep ∷ rest) ≡ s ∷ split sep rest
unfolding split
split-append sep [] rest h = ground arith
split-append sep (c ∷ s) rest h = ground (arith, split-append sep s rest)

-- Splitting a join gives the parts back, if there is a part and none holds the separator.
pub split-join :
    (sep : ℕ) (p : Text) (ps : List Text)
    → All (Lacks sep) (p ∷ ps)
    → split sep (join sep (p ∷ ps)) ≡ p ∷ ps
unfolding join
split-join sep p [] h = split-Lacks sep p h.0
split-join sep p (q ∷ ps) h =
    split-append sep p (join sep (q ∷ ps)) h.0 ∙ ap (λ r. p ∷ r) (split-join sep q ps h.1)

pub before-append : (sep : ℕ) (s rest : Text) → Lacks sep s → before sep (s ++ sep ∷ rest) ≡ s
unfolding before
before-append sep [] rest h = ground arith
before-append sep (c ∷ s) rest h = ground (arith, before-append sep s rest)

pub before-Lacks : (sep : ℕ) (s : Text) → Lacks sep s → before sep s ≡ s
unfolding before
before-Lacks sep [] h = refl
before-Lacks sep (c ∷ s) h = ground (arith, before-Lacks sep s)

pub after-append : (sep : ℕ) (s rest : Text) → Lacks sep s → after sep (s ++ sep ∷ rest) ≡ rest
unfolding after
after-append sep [] rest h = ground arith
after-append sep (c ∷ s) rest h = ground (arith, after-append sep s rest)

pub has-append : (sep : ℕ) (s t : Text) → has sep (s ++ t) ≡ (has sep s || has sep t)
has-append sep [] t = refl
has-append sep (c ∷ s) t = ground (arith, has-append sep s t)

-- A text that holds no separator is joined to one that holds none from parts that hold none.
pub has-join :
    (c sep : ℕ) (ps : List Text) → (sep == c) ≡ false → All (Lacks c) ps → Lacks c (join sep ps)
unfolding join
has-join c sep [] n h = refl
has-join c sep (p ∷ []) n h = h.0
has-join c sep (p ∷ q ∷ ps) n h =
    ground (arith, has-append c p (sep ∷ join sep (q ∷ ps)), has-join c sep (q ∷ ps) n h.1)

-- what follows a prefix
unfoldable pub without : Text → Text → Option Text
without s [] = some s
without [] (c ∷ p) = none
without (d ∷ s) (c ∷ p) = if d == c then without s p else none

pub without-eq : (s p r : Text) → without s p ≡ some r → s ≡ p ++ r
unfolding without
without-eq s [] r h = ground arith
without-eq [] (c ∷ p) r h = ground arith
without-eq (d ∷ s) (c ∷ p) r h = ground (arith, without-eq s p r)

pub without-append : (p r : Text) → without (p ++ r) p ≡ some r
unfolding without
without-append [] r = refl
without-append (c ∷ p) r = ground (arith, without-append p r)

pub before-after : (sep : ℕ) (s : Text) → has sep s ≡ true → s ≡ before sep s ++ sep ∷ after sep s
unfolding before after
before-after sep [] h = ground arith
before-after sep (c ∷ s) h = ground (arith, before-after sep s)
