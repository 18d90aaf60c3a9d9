-- ===== src/Sources/Below.antt =====
-- is_below_or_equal of tools/validate.py, and the components of paths.
use curator_spec.Prelude.{
  Bool-cases, List, [], ap, append-nil, append_assoc, arith, if-holds, inl, inr, refl, sym, true, ℕ,
  ◌++◌, ◌==◌, ◌↔◌, ◌∙◌, ◌∷◌, ◌≡◌, ◌⊎◌,
}
use curator_spec.Text.{Text, codes, starts_with, text_eq, text_eq-eq, text_eq_refl}
use curator_spec.Text.Split.{split, join, to_first}
use curator_spec.Sources.Git.{is_below_or_equal}

abbrev NotNil : List Text → Type 0
NotNil [] = ⊥
NotNil (p ∷ ps) = Unit

to_first-NotNil : (c : ℕ) (ps : List Text) → NotNil (to_first c ps)
to_first-NotNil c [] = tt
to_first-NotNil c (p ∷ ps) = tt

split-NotNil : (sep : ℕ) (s : Text) → NotNil (split sep s)
unfolding split
split-NotNil sep [] = tt
split-NotNil sep (c ∷ s) = if-holds NotNil (c == sep) tt (to_first-NotNil c (split sep s))

to_first-append :
    (c : ℕ) (ps qs : List Text) → NotNil ps → to_first c (ps ++ qs) ≡ to_first c ps ++ qs
to_first-append c [] qs h = absurd h
to_first-append c (p ∷ ps) qs h = refl

split_at : (sep : ℕ) (s t : Text) → split sep (s ++ sep ∷ t) ≡ split sep s ++ split sep t
unfolding split
split_at sep [] t = ground arith
split_at sep (c ∷ s) t =
    ground
      (arith, split_at sep s t, to_first-append c (split sep s) (split sep t) (split-NotNil sep s))

join-to_first : (sep c : ℕ) (ps : List Text) → join sep (to_first c ps) ≡ c ∷ join sep ps
unfolding join
join-to_first sep c [] = refl
join-to_first sep c (p ∷ []) = refl
join-to_first sep c (p ∷ q ∷ ps) = refl

join_cons :
    (sep : ℕ) (p : Text) (ps : List Text) → NotNil ps → join sep (p ∷ ps) ≡ p ++ sep ∷ join sep ps
unfolding join
join_cons sep p [] h = absurd h
join_cons sep p (q ∷ ps) h = refl

join-split : (sep : ℕ) (s : Text) → join sep (split sep s) ≡ s
unfolding split join
join-split sep [] = refl
join-split sep (c ∷ s) = ground (
  arith,
  join-split sep s,
  join-to_first sep c (split sep s),
  join_cons sep [] (split sep s) (split-NotNil sep s),
)

join-append :
    (sep : ℕ) (ps qs : List Text)
    → NotNil ps
    → NotNil qs
    → join sep (ps ++ qs) ≡ join sep ps ++ sep ∷ join sep qs
unfolding join
join-append sep [] qs h k = absurd h
join-append sep (p ∷ []) qs h k = join_cons sep p qs k
join-append sep (p ∷ q ∷ ps) qs h k =
    ap (λ t. p ++ sep ∷ t) (join-append sep (q ∷ ps) qs tt k)
    ∙ sym (append_assoc p (sep ∷ join sep (q ∷ ps)) (sep ∷ join sep qs))

starts_with-eq : (s p : Text) → starts_with s p ≡ true → (t : Text) × (s ≡ p ++ t)
unfolding starts_with
starts_with-eq s [] h = (s, refl)
starts_with-eq [] (c ∷ p) h = ground arith
starts_with-eq (b ∷ s) (c ∷ p) h =
    let (t, e) = starts_with-eq s p (ground arith) in (t, ground arith)

starts_with-append : (p t : Text) → starts_with (p ++ t) p ≡ true
unfolding starts_with
starts_with-append [] t = refl
starts_with-append (c ∷ p) t = ground (arith, starts_with-append p t)

-- the components of `path` begin with those of `root`
abbrev pub Below : Text → Text → Type 0
Below path root = (rest : List Text) × (split b'/' path ≡ split b'/' root ++ rest)

same-Below : (path root : Text) → path ≡ root → Below path root
same-Below path root e = ([], ap (split b'/') e ∙ sym (append-nil (split b'/' root)))

prefix-Below : (path root : Text) → starts_with path (root ++ b'/' ∷ []) ≡ true → Below path root
prefix-Below path root h =
    let (t, e) = starts_with-eq path (root ++ b'/' ∷ []) h in
    (split b'/' t, ap (split b'/') (e ∙ append_assoc root (b'/' ∷ []) t) ∙ split_at b'/' root t)

Below-by_test :
    (path root : Text) → is_below_or_equal path root ≡ true → (root ≡ codes ".") ⊎ Below path root
unfolding is_below_or_equal
Below-by_test path root h = elim (Bool-cases (text_eq root (codes "."))) [
  | inl e ↦ inl (text_eq-eq root (codes ".") e)
  | inr e ↦ elim (Bool-cases (text_eq path root)) [
    | inl k ↦ inr (same-Below path root (text_eq-eq path root k))
    | inr k ↦ inr (prefix-Below path root (ground arith))
  ]
]

-- a path whose components begin with those of the root is the root, or the root and more
Below-eq :
    (path root : Text) (rest : List Text)
    → split b'/' path ≡ split b'/' root ++ rest
    → (path ≡ root) ⊎ ((t : Text) × (path ≡ (root ++ b'/' ∷ []) ++ t))
Below-eq path root [] e = inl (
    sym (join-split b'/' path)
    ∙ ap (join b'/') (e ∙ append-nil (split b'/' root))
    ∙ join-split b'/' root)
Below-eq path root (r ∷ rest) e = inr (
  join b'/' (r ∷ rest),
  sym (join-split b'/' path)
      ∙ ap (join b'/') e
      ∙ join-append b'/' (split b'/' root) (r ∷ rest) (split-NotNil b'/' root) tt
      ∙ ap (λ s. s ++ b'/' ∷ join b'/' (r ∷ rest)) (join-split b'/' root)
      ∙ sym (append_assoc root (b'/' ∷ []) (join b'/' (r ∷ rest))),
)

root_passes : (path root : Text) → root ≡ codes "." → is_below_or_equal path root ≡ true
unfolding is_below_or_equal
root_passes path root e = rw e (ground (arith, text_eq_refl (codes ".")))

below_passes : (path root : Text) → Below path root → is_below_or_equal path root ≡ true
unfolding is_below_or_equal
below_passes path root (rest, e) = elim (Below-eq path root rest e) [
  | inl k ↦ ground (arith, text_eq_refl path, ap (text_eq path) k)
  | inr (t, k) ↦ ground (
    arith,
    starts_with-append (root ++ b'/' ∷ []) t,
    ap (λ s. starts_with s (root ++ b'/' ∷ [])) k,
  )
]

-- A path is below a root or equal to it exactly when the root is "." or the components of the path
-- begin with those of the root.
pub below-Below :
    (path root : Text)
    → (is_below_or_equal path root ≡ true) ↔ ((root ≡ codes ".") ⊎ Below path root)
below-Below path root = (
  Below-by_test path root,
  λ h. elim h [ inl e ↦ root_passes path root e | inr b ↦ below_passes path root b ],
)
