-- ===== src/Prelude/Lists.antt =====
-- Lists measured by native numbers, membership and predicates by recursion.
use Prim.Native.Nat.{ℕ, zero, suc, ◌+◌}
use mathlib.Core.Path.{◌≡◌, refl, ap, ◌∙◌}
use curator_spec.Prelude.Tests.{Bool-cases}
use mathlib.Core.Logic.{◌↔◌, ◌⊎◌, inl, inr}
use mathlib.Core.Bool.{Bool, true, false, ◌&&◌, ◌||◌}
use mathlib.Core.List.{List, [], ◌∷◌, ◌++◌, map}
use native.Mathlib.Omega.{arith}

module _ {ℓ} {A : Type ℓ} where
  abbrev pub length : List A → ℕ
  length [] = 0
  length (x ∷ xs) = suc (length xs)

  -- Python's `any(test(x) for x in xs)` and `all(test(x) for x in xs)`
  abbrev pub any : (A → Bool) → List A → Bool
  any test [] = false
  any test (x ∷ xs) = test x || any test xs

  abbrev pub all : (A → Bool) → List A → Bool
  all test [] = true
  all test (x ∷ xs) = test x && all test xs

  -- `[x for x in xs if test(x)]`
  unfoldable pub keep : (A → Bool) → List A → List A
  keep test [] = []
  keep test (x ∷ xs) = elim (test x) [ true ↦ x ∷ keep test xs | false ↦ keep test xs ]

  pub length-append : (xs ys : List A) → length (xs ++ ys) ≡ length xs + length ys
  length-append [] ys = omega arith
  length-append (x ∷ xs) ys = omega (arith, length-append xs ys)

  pub all-append :
      (test : A → Bool) (xs ys : List A) → all test (xs ++ ys) ≡ (all test xs && all test ys)
  all-append test [] ys = refl
  all-append test (x ∷ xs) ys = ground (arith, all-append test xs ys)

-- Membership, for the data of the program, which stands in `Type 0`.
abbrev pub Elem : {A : Type 0} → A → List A → Type 0
Elem a [] = ⊥
Elem a (x ∷ xs) = (a ≡ x) ⊎ Elem a xs

pub all-Elem :
    {A : Type 0} (test : A → Bool) (a : A) (xs : List A)
    → all test xs ≡ true
    → Elem a xs
    → test a ≡ true
all-Elem test a [] h m = absurd m
all-Elem test a (x ∷ xs) h (inl e) = ground arith
all-Elem test a (x ∷ xs) h (inr m) = all-Elem test a xs (ground arith) m

module _ {ℓ κ} {A : Type ℓ} where
  abbrev pub All : (A → Type κ) → List A → Type κ
  All P [] = Unit
  All P (x ∷ xs) = P x × All P xs

  pub All-append : (P : A → Type κ) (xs ys : List A) → All P xs → All P ys → All P (xs ++ ys)
  All-append P [] ys _ hy = hy
  All-append P (x ∷ xs) ys (px, hx) hy = (px, All-append P xs ys hx hy)

pub All-Elem : {A : Type 0} (P : A → Type 0) (a : A) (xs : List A) → All P xs → Elem a xs → P a
All-Elem P a [] h m = absurd m
All-Elem P a (x ∷ xs) h (inl e) = rw e h.0
All-Elem P a (x ∷ xs) h (inr m) = All-Elem P a xs h.1 m

pub Elem-map : {A B : Type 0} (f : A → B) (a : A) (xs : List A) → Elem a xs → Elem (f a) (map f xs)
Elem-map f a [] m = absurd m
Elem-map f a (x ∷ xs) (inl e) = inl (ap f e)
Elem-map f a (x ∷ xs) (inr m) = inr (Elem-map f a xs m)

-- A member of a mapped list comes from a member of the list.
pub Elem-of_map :
    {A B : Type 0} (f : A → B) (b : B) (xs : List A)
    → Elem b (map f xs)
    → (a : A) × Elem a xs × (b ≡ f a)
Elem-of_map f b [] m = absurd m
Elem-of_map f b (x ∷ xs) (inl e) = (x, inl refl, e)
Elem-of_map f b (x ∷ xs) (inr m) = let (a, h, e) = Elem-of_map f b xs m in (a, inr h, e)

pub Elem-append : {A : Type 0} (a : A) (xs ys : List A) → Elem a (xs ++ ys) → Elem a xs ⊎ Elem a ys
Elem-append a [] ys m = inr m
Elem-append a (x ∷ xs) ys (inl e) = inl (inl e)
Elem-append a (x ∷ xs) ys (inr m) = elim (Elem-append a xs ys m) [
  | inl h ↦ inl (inr h)
  | inr h ↦ inr h
]

pub append-Elem : {A : Type 0} (a : A) (xs ys : List A) → Elem a xs ⊎ Elem a ys → Elem a (xs ++ ys)
append-Elem a [] ys (inl m) = absurd m
append-Elem a [] ys (inr m) = m
append-Elem a (x ∷ xs) ys (inl (inl e)) = inl e
append-Elem a (x ∷ xs) ys (inl (inr m)) = inr (append-Elem a xs ys (inl m))
append-Elem a (x ∷ xs) ys (inr m) = inr (append-Elem a xs ys (inr m))

-- Two first elements may change places, before lists with the same members.
pub Elem-swap :
    {A : Type 0} (a x y : A) (zs ys : List A)
    → Elem a zs ↔ Elem a (x ∷ ys)
    → Elem a (y ∷ zs) ↔ Elem a (x ∷ y ∷ ys)
Elem-swap a x y zs ys k = (
  λ m. elim m [
    | inl e ↦ inr (inl e)
    | inr n ↦ elim (k.0 n) [ inl e ↦ inl e | inr q ↦ inr (inr q) ]
  ],
  λ m. elim m [
    | inl e ↦ inr (k.1 (inl e))
    | inr n ↦ elim n [ inl e ↦ inl e | inr q ↦ inr (k.1 (inr q)) ]
  ],
)

-- a test that holds of some element
pub any-Elem :
    {A : Type 0} (test : A → Bool) (xs : List A)
    → any test xs ≡ true
    → (a : A) × Elem a xs × (test a ≡ true)
any-Elem test [] h = ground arith
any-Elem test (x ∷ xs) h = elim (Bool-cases (test x)) [
  | inl e ↦ (x, inl refl, e)
  | inr e ↦ let (a, m, e') = any-Elem test xs (ground arith) in (a, inr m, e')
]

pub Elem-any :
    {A : Type 0} (test : A → Bool) (a : A) (xs : List A)
    → Elem a xs
    → test a ≡ true
    → any test xs ≡ true
Elem-any test a [] m h = absurd m
Elem-any test a (x ∷ xs) (inl e) h = ground (arith, ap test e)
Elem-any test a (x ∷ xs) (inr m) h = ground (arith, Elem-any test a xs m)

-- a test that holds of no element
pub any-No :
    {A : Type 0} (test : A → Bool) (xs : List A)
    → any test xs ≡ false
    → (x : A) → Elem x xs
    → test x ≡ false
any-No test xs h x m = elim (Bool-cases (test x)) [
  | inl t ↦ absurd (let q = Elem-any test x xs m t in ground arith)
  | inr f ↦ f
]

-- the members of `keep test (x ∷ xs)`, by the value of `test x`
keep_by :
    {A : Type 0} (test : A → Bool) (b : Bool) (a x : A) (xs rest : List A)
    → test x ≡ b
    → Elem a rest ↔ (Elem a xs × (test a ≡ true))
    → Elem a (elim b [ true ↦ x ∷ rest | false ↦ rest ]) ↔ (Elem a (x ∷ xs) × (test a ≡ true))
keep_by test true a x xs rest e k = (
  λ m. elim m [ inl p ↦ (inl p, ap test p ∙ e) | inr n ↦ (inr (k.0 n).0, (k.0 n).1) ],
  λ (m, h). elim m [ inl p ↦ inl p | inr n ↦ inr (k.1 (n, h)) ],
)
keep_by test false a x xs rest e k = (
  λ m. (inr (k.0 m).0, (k.0 m).1),
  λ (m, h). elim m [ inl p ↦ absurd (ground (arith, ap test p)) | inr n ↦ k.1 (n, h) ],
)

-- What is kept is what is a member and passes.
pub keep-Elem :
    {A : Type 0} (test : A → Bool) (a : A) (xs : List A)
    → Elem a (keep test xs) ↔ (Elem a xs × (test a ≡ true))
unfolding keep
keep-Elem test a [] = (λ m. absurd m, λ (m, h). absurd m)
keep-Elem test a (x ∷ xs) = keep_by test (test x) a x xs (keep test xs) refl (keep-Elem test a xs)

module _ {ℓ} {A : Type ℓ} where
  abbrev pub take : ℕ → List A → List A
  take zero xs = []
  take (suc n) [] = []
  take (suc n) (x ∷ xs) = x ∷ take n xs

  abbrev pub drop : ℕ → List A → List A
  drop zero xs = xs
  drop (suc n) [] = []
  drop (suc n) (x ∷ xs) = drop n xs

  pub take-append-drop : (n : ℕ) (xs : List A) → take n xs ++ drop n xs ≡ xs
  take-append-drop zero xs = refl
  take-append-drop (suc n) [] = refl
  take-append-drop (suc n) (x ∷ xs) = ap (λ r. x ∷ r) (take-append-drop n xs)
