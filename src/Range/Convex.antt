-- ===== src/Range/Convex.antt =====
-- Comparator sets as intervals, and the comparators that open a set for prereleases.
use curator_spec.Prelude.{
  Bool, Bool-cases, Elem, List, Ordering, [], all, any, arith, inl, inr, refl, true, ◌∙◌, ◌∷◌, ◌≡◌,
  ◌≢◌, ◌⊎◌,
}
use curator_spec.Text.Order.{eq_right}
use curator_spec.SemVer.{Version, semver_compare}
use curator_spec.SemVer.Compare.{semver_compare-IsComparison}
use curator_spec.Range.{
  Relation, is_eq, Comparator, anything, bound, holds, comparator_matches, opens, set_satisfies,
  range_satisfies,
}

-- `u` is not after `v`
abbrev pub NotAfter : Version → Version → Type 0
NotAfter u v = semver_compare u v ≢ Ordering.gt

Ordering-cases : (o : Ordering) → (o ≡ Ordering.lt) ⊎ ((o ≡ Ordering.eq) ⊎ (o ≡ Ordering.gt))
Ordering-cases Ordering.lt = inl refl
Ordering-cases Ordering.eq = inr (inl refl)
Ordering-cases Ordering.gt = inr (inr refl)

module _ (u v b : Version) (h : NotAfter u v) where
  below-lt : semver_compare v b ≡ Ordering.lt → semver_compare u b ≡ Ordering.lt
  below-lt p =
      ground (
        arith,
        semver_compare-IsComparison.lt_trans u v b,
        semver_compare-IsComparison.eq_left u v b,
      )

  below-eq : semver_compare v b ≡ Ordering.eq → NotAfter u b
  below-eq p e = h (eq_right semver_compare-IsComparison v b u p ∙ e)

pub NotAfter-trans : (u v w : Version) → NotAfter u v → NotAfter v w → NotAfter u w
NotAfter-trans u v w p q e = elim (Ordering-cases (semver_compare v w)) [
  | inl h ↦ ground (arith, below-lt u v w p h)
  | inr (inl h) ↦ below-eq u v w p h e
  | inr (inr h) ↦ q h
]

holds_between :
    (r : Relation) (u v w b : Version)
    → NotAfter u v
    → NotAfter v w
    → holds r (semver_compare u b) ≡ true
    → holds r (semver_compare w b) ≡ true
    → holds r (semver_compare v b) ≡ true
holds_between is_eq u v w b p q hu hw =
    ground (arith, below-lt u v b p, below-eq u v b p, below-lt v w b q, below-eq v w b q)
holds_between _ u v w b p q hu hw =
    ground (arith, below-lt u v b p, below-eq u v b p, below-lt v w b q, below-eq v w b q)

matches_between :
    (c : Comparator) (u v w : Version)
    → NotAfter u v
    → NotAfter v w
    → comparator_matches c u ≡ true
    → comparator_matches c w ≡ true
    → comparator_matches c v ≡ true
unfolding comparator_matches
matches_between anything u v w p q hu hw = refl
matches_between (bound r b) u v w p q hu hw = holds_between r u v w b p q hu hw

-- If the comparators of a set all match two versions, they match every version between the two.
set_convex :
    (cs : List Comparator) (u v w : Version)
    → NotAfter u v
    → NotAfter v w
    → all (λ c. comparator_matches c u) cs ≡ true
    → all (λ c. comparator_matches c w) cs ≡ true
    → all (λ c. comparator_matches c v) cs ≡ true
set_convex [] u v w p q hu hw = refl
set_convex (c ∷ cs) u v w p q hu hw =
    ground (arith, matches_between c u v w p q, set_convex cs u v w p q)

-- the comparator that lets a prerelease in
abbrev pub Opener : Version → Comparator → Type 0
Opener v c =
    (r : Relation) × (w : Version) × (c ≡ bound r w)
    × (w.prerelease ≢ [])
    × (w.major ≡ v.major)
    × (w.minor ≡ v.minor)
    × (w.patch ≡ v.patch)

opens-Opener : (v : Version) (c : Comparator) → opens v c ≡ true → Opener v c
unfolding opens
opens-Opener v anything h = ground arith
opens-Opener v (bound r w) h =
    (r, w, refl, λ e. ground arith, ground arith, ground arith, ground arith)

any-Elem :
    {A : Type 0} (test : A → Bool) (xs : List A)
    → any test xs ≡ true
    → (x : A) × Elem x xs × (test x ≡ true)
any-Elem test [] h = absurd (ground arith)
any-Elem test (x ∷ xs) h = elim (Bool-cases (test x)) [
  | inl e ↦ (x, inl refl, e)
  | inr n ↦ let (y, m, e) = any-Elem test xs (ground arith) in (y, inr m, e)
]

set-opener :
    (v : Version) (cs : List Comparator)
    → v.prerelease ≢ []
    → set_satisfies v cs ≡ true
    → any (opens v) cs ≡ true
unfolding set_satisfies
set-opener v cs n h = ground arith

set-matches :
    (v : Version) (cs : List Comparator)
    → set_satisfies v cs ≡ true
    → all (λ c. comparator_matches c v) cs ≡ true
unfolding set_satisfies
set-matches v cs h = ground arith

-- A prerelease is in a range only through a set whose comparators all match it, one of which names a
-- prerelease of the same major, minor and patch numbers.
pub prerelease_opened :
    (sets : List (List Comparator)) (v : Version)
    → v.prerelease ≢ []
    → range_satisfies sets v ≡ true
    → (cs : List Comparator) × Elem cs sets
      × (all (λ c. comparator_matches c v) cs ≡ true)
      × ((c : Comparator) × Elem c cs × Opener v c)
unfolding range_satisfies
prerelease_opened sets v n h =
    let (cs, m, s) = any-Elem (set_satisfies v) sets h in
    let (c, mc, o) = any-Elem (opens v) cs (set-opener v cs n s) in
    (cs, m, set-matches v cs s, (c, mc, opens-Opener v c o))
