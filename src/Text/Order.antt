-- ===== src/Text/Order.antt =====
-- Three-way comparisons: Python's -1, 0 and 1 are `lt`, `eq` and `gt`.

use curator_spec.Prelude.{List, Ordering, [], ap, arith, compare, refl, sym, ℕ, ◌∙◌, ◌∷◌, ◌≡◌}

-- `-1` for `1` and the other way round
abbrev pub flip : Ordering → Ordering
flip Ordering.lt = Ordering.gt
flip Ordering.eq = Ordering.eq
flip Ordering.gt = Ordering.lt

-- the first difference decides
abbrev pub then_compare : Ordering → Ordering → Ordering
then_compare Ordering.lt o = Ordering.lt
then_compare Ordering.eq o = o
then_compare Ordering.gt o = Ordering.gt

-- A comparison whose order is total: swapping the sides swaps the answer, `lt` is transitive, and
-- what compares equal compares alike with everything.
pub record IsComparison {A : Type 0} (cmp : A → A → Ordering) : Type 0 where
  pub swap : (a b : A) → cmp b a ≡ flip (cmp a b)
  pub lt_trans : (a b c : A) → cmp a b ≡ Ordering.lt → cmp b c ≡ Ordering.lt → cmp a c ≡ Ordering.lt
  pub eq_left : (a b c : A) → cmp a b ≡ Ordering.eq → cmp a c ≡ cmp b c

pub eq_right :
    {A : Type 0} {cmp : A → A → Ordering} (o : IsComparison cmp) (a b c : A)
    → cmp a b ≡ Ordering.eq
    → cmp c a ≡ cmp c b
eq_right o a b c h = o.swap a c ∙ ap flip (o.eq_left a b c h) ∙ sym (o.swap b c)

pub compare-IsComparison : IsComparison (λ (a b : ℕ). compare a b)
compare-IsComparison = record {
  swap = λ a b. ground arith;
  lt_trans = λ a b c p q. ground arith;
  eq_left = λ a b c p. ground arith;
}

-- `left < right` on texts: by code points, and a proper prefix is smaller
unfoldable pub compare_text : List ℕ → List ℕ → Ordering
compare_text [] [] = Ordering.eq
compare_text [] (b ∷ t) = Ordering.lt
compare_text (a ∷ s) [] = Ordering.gt
compare_text (a ∷ s) (b ∷ t) = then_compare (compare a b) (compare_text s t)

compare_text-swap : (s t : List ℕ) → compare_text t s ≡ flip (compare_text s t)
unfolding compare_text
compare_text-swap [] [] = refl
compare_text-swap [] (b ∷ t) = refl
compare_text-swap (a ∷ s) [] = refl
compare_text-swap (a ∷ s) (b ∷ t) = ground (arith, compare_text-swap s t)

pub compare_text-eq : (s t : List ℕ) → compare_text s t ≡ Ordering.eq → s ≡ t
unfolding compare_text
compare_text-eq [] [] h = refl
compare_text-eq [] (b ∷ t) h = ground arith
compare_text-eq (a ∷ s) [] h = ground arith
compare_text-eq (a ∷ s) (b ∷ t) h = ground (arith, compare_text-eq s t)

compare_text-lt_trans :
    (s t u : List ℕ)
    → compare_text s t ≡ Ordering.lt
    → compare_text t u ≡ Ordering.lt
    → compare_text s u ≡ Ordering.lt
unfolding compare_text
compare_text-lt_trans [] [] u p q = ground arith
compare_text-lt_trans [] (b ∷ t) [] p q = ground arith
compare_text-lt_trans [] (b ∷ t) (c ∷ u) p q = refl
compare_text-lt_trans (a ∷ s) [] u p q = ground arith
compare_text-lt_trans (a ∷ s) (b ∷ t) [] p q = ground arith
compare_text-lt_trans (a ∷ s) (b ∷ t) (c ∷ u) p q =
    ground (arith, compare_text-lt_trans s t u, compare_text-eq s t, compare_text-eq t u)

pub compare_text-IsComparison : IsComparison compare_text
compare_text-IsComparison = record {
  swap = compare_text-swap;
  lt_trans = compare_text-lt_trans;
  eq_left = λ s t u h. ap (λ x. compare_text x u) (compare_text-eq s t h);
}

-- the key of a comparison
pub on_key :
    {A B : Type 0} {cmp : B → B → Ordering} (key : A → B)
    → IsComparison cmp
    → IsComparison (λ a b. cmp (key a) (key b))
on_key key o = record {
  swap = λ a b. o.swap (key a) (key b);
  lt_trans = λ a b c. o.lt_trans (key a) (key b) (key c);
  eq_left = λ a b c. o.eq_left (key a) (key b) (key c);
}

module _ {A : Type 0} (f g : A → A → Ordering) where
  in_turn_swap :
      IsComparison f
      → IsComparison g
      → (a b : A) → then_compare (f b a) (g b a) ≡ flip (then_compare (f a b) (g a b))
  in_turn_swap o r a b = ground (arith, o.swap a b, r.swap a b)

  in_turn-lt_trans :
      IsComparison f
      → IsComparison g
      → (a b c : A) → then_compare (f a b) (g a b) ≡ Ordering.lt
      → then_compare (f b c) (g b c) ≡ Ordering.lt
      → then_compare (f a c) (g a c) ≡ Ordering.lt
  in_turn-lt_trans o r a b c p q =
      ground (arith, o.lt_trans a b c, r.lt_trans a b c, o.eq_left a b c, eq_right o b c a)

  in_turn-eq_left :
      IsComparison f
      → IsComparison g
      → (a b c : A) → then_compare (f a b) (g a b) ≡ Ordering.eq
      → then_compare (f a c) (g a c) ≡ then_compare (f b c) (g b c)
  in_turn-eq_left o r a b c h = ground (arith, o.eq_left a b c, r.eq_left a b c)

  -- Two comparisons, the second for what the first finds equal.
  pub in_turn : IsComparison f → IsComparison g → IsComparison (λ a b. then_compare (f a b) (g a b))
  in_turn o r = record {
    swap = in_turn_swap o r;
    lt_trans = in_turn-lt_trans o r;
    eq_left = in_turn-eq_left o r;
  }
