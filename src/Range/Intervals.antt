-- ===== src/Range/Intervals.antt =====
-- What the operators of a range admit among the releases.
use curator_spec.Prelude.{Bool, List, [], arith, suc, true, zero, ℕ, ◌<◌, ◌↔◌, ◌∷◌, ◌≡◌, ◌≤◌, ◌⊎◌}
use curator_spec.Range.{
  Operator, plain, ge, gt, lt, le, caret, tilde, version, desugar_numbers, range_satisfies,
}

-- the range of one operator on numbers, at the release `x.y.z`
abbrev pub admits : Operator → List ℕ → ℕ → ℕ → ℕ → Bool
admits op ns x y z = range_satisfies (desugar_numbers op ns [] ∷ []) (version x y z [])

-- the order of pairs and triples
abbrev pub Below : ℕ → ℕ → Type 0 → Type 0
Below x a P = (x < a) ⊎ ((x ≡ a) × P)

-- What a reader expects of an operator. A missing number stands for all its values: `>1` is above
-- all of 1, and `<=1` reaches to the end of 1.
abbrev pub OnMajor : Operator → ℕ → ℕ → Type 0
OnMajor ge a x = a ≤ x
OnMajor gt a x = a < x
OnMajor lt a x = x < a
OnMajor le a x = x ≤ a
OnMajor _ a x = x ≡ a

abbrev pub OnMinor : Operator → ℕ → ℕ → ℕ → ℕ → Type 0
OnMinor ge a b x y = Below a x (b ≤ y)
OnMinor gt a b x y = Below a x (b < y)
OnMinor lt a b x y = Below x a (y < b)
OnMinor le a b x y = Below x a (y ≤ b)
OnMinor caret a b x y = (x ≡ a) × (b ≤ y) × ((0 < a) ⊎ (y ≡ b))
OnMinor _ a b x y = (x ≡ a) × (y ≡ b)

abbrev pub OnPatch : Operator → ℕ → ℕ → ℕ → ℕ → ℕ → ℕ → Type 0
OnPatch ge a b c x y z = Below a x (Below b y (c ≤ z))
OnPatch gt a b c x y z = Below a x (Below b y (c < z))
OnPatch lt a b c x y z = Below x a (Below y b (z < c))
OnPatch le a b c x y z = Below x a (Below y b (z ≤ c))
OnPatch caret a b c x y z =
    (x ≡ a) × (Below b y (c ≤ z)) × ((0 < a) ⊎ ((y ≡ b) × ((0 < b) ⊎ (z ≡ c))))
OnPatch tilde a b c x y z = (x ≡ a) × (y ≡ b) × (c ≤ z)
OnPatch _ a b c x y z = (x ≡ a) × (y ≡ b) × (z ≡ c)

abbrev pub OnNone : Operator → Type 0
OnNone gt = ⊥
OnNone lt = ⊥
OnNone _ = Unit

abbrev pub Expects : Operator → List ℕ → ℕ → ℕ → ℕ → Type 0
Expects op [] x y z = OnNone op
Expects op (a ∷ []) x y z = OnMajor op a x
Expects op (a ∷ b ∷ []) x y z = OnMinor op a b x y
Expects op (a ∷ b ∷ c ∷ ns) x y z = OnPatch op a b c x y z

on_none : (op : Operator) (x y z : ℕ) → (admits op [] x y z ≡ true) ↔ OnNone op
unfolding range_satisfies desugar_numbers
on_none plain x y z = ground arith
on_none _ x y z = ground arith

on_major : (op : Operator) (a x y z : ℕ) → (admits op (a ∷ []) x y z ≡ true) ↔ OnMajor op a x
unfolding range_satisfies desugar_numbers
on_major plain a x y z = ground arith
on_major _ a x y z = ground arith

on_minor :
    (op : Operator) (a b x y z : ℕ) → (admits op (a ∷ b ∷ []) x y z ≡ true) ↔ OnMinor op a b x y
unfolding range_satisfies desugar_numbers
on_minor caret zero b x y z = ground arith
on_minor caret (suc a) b x y z = ground arith
on_minor _ a b x y z = ground arith

on_patch :
    (op : Operator) (a b c : ℕ) (ns : List ℕ) (x y z : ℕ)
    → (admits op (a ∷ b ∷ c ∷ ns) x y z ≡ true) ↔ OnPatch op a b c x y z
unfolding range_satisfies desugar_numbers
on_patch caret zero zero c ns x y z = ground arith
on_patch caret zero (suc b) c ns x y z = ground arith
on_patch caret (suc a) b c ns x y z = ground arith
on_patch _ a b c ns x y z = ground arith

-- For every operator, any of no, one, two or three numbers, and every release: the range admits the
-- release exactly when the operator's reading of the numbers does.
pub operator_exact :
    (op : Operator) (ns : List ℕ) (x y z : ℕ) → (admits op ns x y z ≡ true) ↔ Expects op ns x y z
operator_exact op [] x y z = on_none op x y z
operator_exact op (a ∷ []) x y z = on_major op a x y z
operator_exact op (a ∷ b ∷ []) x y z = on_minor op a b x y z
operator_exact op (a ∷ b ∷ c ∷ ns) x y z = on_patch op a b c ns x y z
