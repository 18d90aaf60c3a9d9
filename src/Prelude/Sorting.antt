-- ===== src/Prelude/Sorting.antt =====
-- `sorted(xs, key=…)` of Python, which keeps the order of what compares equal, where `after x y` is
-- the comparison `key(x) > key(y)`; `sorted(…)` and `set(…)` of texts.
use Prim.Native.String.{String, compare as compare_strings}
use Prim.Native.Nat.{Ordering, suc}
use mathlib.Core.Path.{◌≡◌, refl}
use mathlib.Core.Logic.{◌↔◌, inl, inr}
use mathlib.Core.Bool.{Bool, true, false}
use mathlib.Core.List.{List, [], ◌∷◌}
use native.Mathlib.Omega.{arith}
use text.Mathlib.Text.{◌==◌ as str_eq}
use curator_spec.Prelude.Lists.{All, Elem, Elem-swap, any, keep, length}
use curator_spec.Prelude.Tests.{if◌then◌else◌}

module _ {A : Type 0} (after : A → A → Bool) where
  unfoldable pub insert_by : A → List A → List A
  insert_by x [] = x ∷ []
  insert_by x (y ∷ ys) = elim (after x y) [ true ↦ y ∷ insert_by x ys | false ↦ x ∷ y ∷ ys ]

  unfoldable pub sort_by : List A → List A
  unfolding insert_by
  sort_by [] = []
  sort_by (x ∷ xs) = insert_by x (sort_by xs)

  -- what stands in front is not after what follows
  abbrev pub IsSorted : List A → Type 0
  IsSorted [] = Unit
  IsSorted (x ∷ xs) = All (λ y. after x y ≡ false) xs × IsSorted xs

  -- the laws of a comparison by a key
  pub record IsWeak : Type 0 where
    pub asymm : (x y : A) → after x y ≡ true → after y x ≡ false
    pub trans : (x y z : A) → after x y ≡ false → after y z ≡ false → after x z ≡ false

  insert_by-All : (P : A → Type 0) (x : A) (ys : List A) → P x → All P ys → All P (insert_by x ys)
  unfolding insert_by
  insert_by-All P x [] px h = (px, tt)
  insert_by-All P x (y ∷ ys) px h =
      elim (after x y) as (λ b. All P (elim b [ true ↦ y ∷ insert_by x ys | false ↦ x ∷ y ∷ ys ])) [
        | true ↦ (h.0, insert_by-All P x ys px h.1)
        | false ↦ (px, h)
      ]

  All-after :
      IsWeak
      → (x y : A) (ys : List A) → after x y ≡ false
      → All (λ z. after y z ≡ false) ys
      → All (λ z. after x z ≡ false) ys
  All-after w x y [] e h = tt
  All-after w x y (z ∷ ys) e h = (w.trans x y z e h.0, All-after w x y ys e h.1)

  IsSorted-by :
      IsWeak
      → (b : Bool) (x y : A) (ys : List A) → after x y ≡ b
      → IsSorted (y ∷ ys)
      → IsSorted (insert_by x ys)
      → IsSorted (elim b [ true ↦ y ∷ insert_by x ys | false ↦ x ∷ y ∷ ys ])
  IsSorted-by w true x y ys e h k =
      (insert_by-All (λ z. after y z ≡ false) x ys (w.asymm x y e) h.0, k)
  IsSorted-by w false x y ys e h k = ((e, All-after w x y ys e h.0), h)

  insert_by-IsSorted : IsWeak → (x : A) (ys : List A) → IsSorted ys → IsSorted (insert_by x ys)
  unfolding insert_by
  insert_by-IsSorted w x [] h = (tt, tt)
  insert_by-IsSorted w x (y ∷ ys) h =
      IsSorted-by w (after x y) x y ys refl h (insert_by-IsSorted w x ys h.1)

  pub sort_by-IsSorted : IsWeak → (xs : List A) → IsSorted (sort_by xs)
  unfolding sort_by
  sort_by-IsSorted w [] = tt
  sort_by-IsSorted w (x ∷ xs) = insert_by-IsSorted w x (sort_by xs) (sort_by-IsSorted w xs)

  -- items of which none is after another
  abbrev pub IsLevel : (A → Bool) → Type 0
  IsLevel test = (x y : A) → test x ≡ true → test y ≡ true → after x y ≡ false

  keep-insert_by :
      (test : A → Bool)
      → IsLevel test
      → (x : A) (ys : List A) → keep test (insert_by x ys) ≡ keep test (x ∷ ys)
  unfolding insert_by keep
  keep-insert_by test level x [] = refl
  keep-insert_by test level x (y ∷ ys) = ground (arith, keep-insert_by test level x ys, level x y)

  -- The sort keeps the order of items of which none is after another.
  pub keep-sort_by :
      (test : A → Bool) → IsLevel test → (xs : List A) → keep test (sort_by xs) ≡ keep test xs
  unfolding sort_by keep
  keep-sort_by test level [] = refl
  keep-sort_by test level (x ∷ xs) =
      ground (arith, keep-insert_by test level x (sort_by xs), keep-sort_by test level xs)

  pub insert_by-Elem : (a x : A) (ys : List A) → Elem a (insert_by x ys) ↔ Elem a (x ∷ ys)
  unfolding insert_by
  insert_by-Elem a x [] = (λ m. m, λ m. m)
  insert_by-Elem a x (y ∷ ys) =
      elim (after x y)
        as (λ b.
          Elem a (elim b [ true ↦ y ∷ insert_by x ys | false ↦ x ∷ y ∷ ys ])
          ↔ Elem a (x ∷ y ∷ ys)) [
            | true ↦ Elem-swap a x y (insert_by x ys) ys (insert_by-Elem a x ys)
            | false ↦ (λ m. m, λ m. m)
          ]

  -- The sort has the members of the list.
  pub sort_by-Elem : (a : A) (xs : List A) → Elem a (sort_by xs) ↔ Elem a xs
  unfolding sort_by
  sort_by-Elem a [] = (λ m. m, λ m. m)
  sort_by-Elem a (x ∷ xs) = (
    λ m. elim ((insert_by-Elem a x (sort_by xs)).0 m) [
      | inl e ↦ inl e
      | inr n ↦ inr ((sort_by-Elem a xs).0 n)
    ],
    λ m. elim m [
      | inl e ↦ (insert_by-Elem a x (sort_by xs)).1 (inl e)
      | inr n ↦ (insert_by-Elem a x (sort_by xs)).1 (inr ((sort_by-Elem a xs).1 n))
    ],
  )

  length-insert_by : (x : A) (ys : List A) → length (insert_by x ys) ≡ suc (length ys)
  unfolding insert_by
  length-insert_by x [] = refl
  length-insert_by x (y ∷ ys) = ground (arith, length-insert_by x ys)

  pub length-sort_by : (xs : List A) → length (sort_by xs) ≡ length xs
  unfolding sort_by
  length-sort_by [] = refl
  length-sort_by (x ∷ xs) = ground (arith, length-insert_by x (sort_by xs), length-sort_by xs)

-- the order of texts, by code points
abbrev pub text_after : String → String → Bool
text_after s t = elim (compare_strings s t) [ Ordering.gt ↦ true | _ ↦ false ]

-- `sorted(…)` of texts
unfoldable pub sorted : List String → List String
unfolding sort_by
sorted = sort_by text_after

pub sorted-Elem : (s : String) (ss : List String) → Elem s (sorted ss) ↔ Elem s ss
unfolding sorted
sorted-Elem s ss = sort_by-Elem text_after s ss

-- `set(…)`, as a list in which each text stands once
unfoldable pub unique : List String → List String
unique [] = []
unique (s ∷ ss) = let rest = unique ss in if any (λ t. str_eq s t) ss then rest else s ∷ rest
