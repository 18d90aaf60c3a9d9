-- ===== src/SemVer/Compare.antt =====
-- `semver_compare` as an order on versions.
use curator_spec.Prelude.{List, Ordering, [], ap, arith, refl, sym, ◌∙◌, ◌∷◌, ◌≡◌}
use curator_spec.Text.Order.{
  compare-IsComparison, on_key, in_turn, flip, eq_right, compare_text-IsComparison, IsComparison,
}
use curator_spec.SemVer.{
  Version, semver_compare, compare_prerelease, compare_identifiers, Text, compare_identifier,
}

identifier-IsComparison : IsComparison compare_identifier
unfolding compare_identifier
identifier-IsComparison = record {
  swap = λ a b. ground (arith, compare_text-IsComparison.swap a b);
  lt_trans = λ a b c p q. ground (arith, compare_text-IsComparison.lt_trans a b c);
  eq_left = λ a b c h. ground (arith, compare_text-IsComparison.eq_left a b c);
}

abbrev cmp_ids : List Text → List Text → Ordering
cmp_ids = compare_identifiers

identifiers-swap : (xs ys : List Text) → cmp_ids ys xs ≡ flip (cmp_ids xs ys)
unfolding compare_identifiers
identifiers-swap [] [] = refl
identifiers-swap [] (y ∷ ys) = refl
identifiers-swap (x ∷ xs) [] = refl
identifiers-swap (x ∷ xs) (y ∷ ys) =
    ground (arith, identifier-IsComparison.swap x y, identifiers-swap xs ys)

identifiers-eq_left :
    (xs ys zs : List Text) → cmp_ids xs ys ≡ Ordering.eq → cmp_ids xs zs ≡ cmp_ids ys zs
unfolding compare_identifiers
identifiers-eq_left [] [] zs h = refl
identifiers-eq_left [] (y ∷ ys) zs h = ground arith
identifiers-eq_left (x ∷ xs) [] zs h = ground arith
identifiers-eq_left (x ∷ xs) (y ∷ ys) [] h = refl
identifiers-eq_left (x ∷ xs) (y ∷ ys) (z ∷ zs) h =
    ground (arith, identifier-IsComparison.eq_left x y z, identifiers-eq_left xs ys zs)

identifiers-eq_right :
    (xs ys zs : List Text) → cmp_ids ys zs ≡ Ordering.eq → cmp_ids xs ys ≡ cmp_ids xs zs
identifiers-eq_right xs ys zs h =
    identifiers-swap ys xs ∙ ap flip (identifiers-eq_left ys zs xs h) ∙ sym (identifiers-swap zs xs)

identifiers-lt_trans :
    (xs ys zs : List Text)
    → cmp_ids xs ys ≡ Ordering.lt
    → cmp_ids ys zs ≡ Ordering.lt
    → cmp_ids xs zs ≡ Ordering.lt
unfolding compare_identifiers
identifiers-lt_trans [] [] zs p q = ground arith
identifiers-lt_trans [] (y ∷ ys) [] p q = ground arith
identifiers-lt_trans [] (y ∷ ys) (z ∷ zs) p q = refl
identifiers-lt_trans (x ∷ xs) [] zs p q = ground arith
identifiers-lt_trans (x ∷ xs) (y ∷ ys) [] p q = ground arith
identifiers-lt_trans (x ∷ xs) (y ∷ ys) (z ∷ zs) p q = ground (
  arith,
  identifier-IsComparison.lt_trans x y z,
  identifier-IsComparison.eq_left x y z,
  eq_right identifier-IsComparison y z x,
  identifiers-lt_trans xs ys zs,
)

-- what an empty prerelease changes
prerelease-swap : (xs ys : List Text) → compare_prerelease ys xs ≡ flip (compare_prerelease xs ys)
unfolding compare_prerelease
prerelease-swap [] [] = refl
prerelease-swap [] (y ∷ ys) = refl
prerelease-swap (x ∷ xs) [] = refl
prerelease-swap (x ∷ xs) (y ∷ ys) = identifiers-swap (x ∷ xs) (y ∷ ys)

prerelease-lt_trans :
    (xs ys zs : List Text)
    → compare_prerelease xs ys ≡ Ordering.lt
    → compare_prerelease ys zs ≡ Ordering.lt
    → compare_prerelease xs zs ≡ Ordering.lt
unfolding compare_prerelease
prerelease-lt_trans [] [] zs p q = ground arith
prerelease-lt_trans [] (y ∷ ys) zs p q = ground arith
prerelease-lt_trans (x ∷ xs) [] [] p q = ground arith
prerelease-lt_trans (x ∷ xs) [] (z ∷ zs) p q = ground arith
prerelease-lt_trans (x ∷ xs) (y ∷ ys) [] p q = refl
prerelease-lt_trans (x ∷ xs) (y ∷ ys) (z ∷ zs) p q =
    identifiers-lt_trans (x ∷ xs) (y ∷ ys) (z ∷ zs) p q

prerelease-eq_left :
    (xs ys zs : List Text)
    → compare_prerelease xs ys ≡ Ordering.eq
    → compare_prerelease xs zs ≡ compare_prerelease ys zs
unfolding compare_prerelease
prerelease-eq_left [] [] zs h = refl
prerelease-eq_left [] (y ∷ ys) zs h = ground arith
prerelease-eq_left (x ∷ xs) [] zs h = ground arith
prerelease-eq_left (x ∷ xs) (y ∷ ys) [] h = refl
prerelease-eq_left (x ∷ xs) (y ∷ ys) (z ∷ zs) h = identifiers-eq_left (x ∷ xs) (y ∷ ys) (z ∷ zs) h

prerelease-IsComparison : IsComparison compare_prerelease
prerelease-IsComparison = record {
  swap = prerelease-swap;
  lt_trans = prerelease-lt_trans;
  eq_left = prerelease-eq_left;
}

-- The comparison of versions is a total order up to equal precedence: swapping the sides swaps the
-- answer, "less than" is transitive, and versions that compare equal compare alike with every other.
pub semver_compare-IsComparison : IsComparison semver_compare
unfolding semver_compare
semver_compare-IsComparison = in_turn _ _ (on_key (λ (v : Version). v.major) compare-IsComparison) (
    in_turn _ _ (on_key (λ (v : Version). v.minor) compare-IsComparison) (
      in_turn _ _ (on_key (λ (v : Version). v.patch) compare-IsComparison)
        (on_key (λ (v : Version). v.prerelease) prerelease-IsComparison)))
