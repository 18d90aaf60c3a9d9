-- ===== src/Resolution/Highest.antt =====
-- The choice among the candidates of a range in resolve_closure of tools/validate.py.
use mathlib.Core.Path.{transport}
use curator_spec.Prelude.{
  Elem-swap, All-Elem, Elem, All, Bool, List, Option, Ordering, String, [], ap, arith, false,
  if◌then◌else◌, inl, inr, none, refl, some, sym, true, ◌↔◌, ◌∙◌, ◌∷◌, ◌≡◌,
}
use curator_spec.SemVer.{Version, semver_compare}
use curator_spec.SemVer.Compare.{semver_compare-IsComparison}
use curator_spec.Range.Convex.{NotAfter, NotAfter-trans}
use curator_spec.Resolution.Candidates.{
  candidates_of, choose, Candidate, insert, sort, Ranges, admissible,
}

abbrev Before : Candidate → Candidate → Type 0
Before x y = NotAfter x.version y.version

abbrev IsAscending : List Candidate → Type 0
IsAscending [] = Unit
IsAscending (x ∷ xs) = All (Before x) xs × IsAscending xs

insert-All :
    (P : Candidate → Type 0) (x : Candidate) (ys : List Candidate)
    → P x
    → All P ys
    → All P (insert x ys)
unfolding insert
insert-All P x [] px h = (px, tt)
insert-All P x (y ∷ ys) px h =
    elim (semver_compare x.version y.version)
      as (λ o. All P (elim o [ Ordering.gt ↦ y ∷ insert x ys | _ ↦ x ∷ y ∷ ys ])) [
        | Ordering.gt ↦ (h.0, insert-All P x ys px h.1)
        | _ ↦ (px, h)
      ]

NotAfter-refl : (v : Version) → NotAfter v v
NotAfter-refl v e = ground (arith, semver_compare-IsComparison.swap v v)

All-after :
    (x y : Candidate) (ys : List Candidate) → Before x y → All (Before y) ys → All (Before x) ys
All-after x y [] p h = tt
All-after x y (z ∷ ys) p h =
    (NotAfter-trans x.version y.version z.version p h.0, All-after x y ys p h.1)

-- what stands behind a greater one is not before it
not-Before : (x y : Candidate) → semver_compare x.version y.version ≡ Ordering.gt → Before y x
not-Before x y h e = ground (arith, semver_compare-IsComparison.swap x.version y.version)

IsAscending-by :
    (o : Ordering) (x y : Candidate) (ys : List Candidate)
    → semver_compare x.version y.version ≡ o
    → IsAscending (y ∷ ys)
    → IsAscending (insert x ys)
    → IsAscending (elim o [ Ordering.gt ↦ y ∷ insert x ys | _ ↦ x ∷ y ∷ ys ])
IsAscending-by Ordering.gt x y ys e h k = (insert-All (Before y) x ys (not-Before x y e) h.0, k)
IsAscending-by Ordering.lt x y ys e h k =
    let p : Before x y = λ g. ground arith in ((p, All-after x y ys p h.0), h)
IsAscending-by Ordering.eq x y ys e h k =
    let p : Before x y = λ g. ground arith in ((p, All-after x y ys p h.0), h)

insert-IsAscending :
    (x : Candidate) (ys : List Candidate) → IsAscending ys → IsAscending (insert x ys)
unfolding insert
insert-IsAscending x [] h = (tt, tt)
insert-IsAscending x (y ∷ ys) h =
    IsAscending-by (semver_compare x.version y.version) x y ys refl h (insert-IsAscending x ys h.1)

sort-IsAscending : (xs : List Candidate) → IsAscending (sort xs)
unfolding sort
sort-IsAscending [] = tt
sort-IsAscending (x ∷ xs) = insert-IsAscending x (sort xs) (sort-IsAscending xs)

-- the members of an insertion
insert-Elem : (d x : Candidate) (ys : List Candidate) → Elem d (insert x ys) ↔ Elem d (x ∷ ys)
unfolding insert
insert-Elem d x [] = (λ m. m, λ m. m)
insert-Elem d x (y ∷ ys) =
    elim (semver_compare x.version y.version)
      as (λ o.
        Elem d (elim o [ Ordering.gt ↦ y ∷ insert x ys | _ ↦ x ∷ y ∷ ys ]) ↔ Elem d (x ∷ y ∷ ys)) [
          | Ordering.gt ↦ Elem-swap d x y (insert x ys) ys (insert-Elem d x ys)
          | _ ↦ (λ m. m, λ m. m)
        ]

sort-Elem : (d : Candidate) (xs : List Candidate) → Elem d (sort xs) ↔ Elem d xs
unfolding sort
sort-Elem d [] = (λ m. m, λ m. m)
sort-Elem d (x ∷ xs) = (
  λ m. elim ((insert-Elem d x (sort xs)).0 m) [
    | inl e ↦ inl e
    | inr n ↦ inr ((sort-Elem d xs).0 n)
  ],
  λ m. elim m [
    | inl e ↦ (insert-Elem d x (sort xs)).1 (inl e)
    | inr n ↦ (insert-Elem d x (sort xs)).1 (inr ((sort-Elem d xs).1 n))
  ],
)

module _ (ranges : Ranges) (ceiling : Option Version) where
  -- a highest admissible candidate, or that there is none
  abbrev pub IsHighest : List Candidate → Option Candidate → Type 0
  IsHighest cs none = (d : Candidate) → Elem d cs → admissible ranges ceiling d ≡ false
  IsHighest cs (some c) =
      Elem c cs
      × (admissible ranges ceiling c ≡ true)
      × ((d : Candidate)
          → Elem d cs
          → admissible ranges ceiling d ≡ true
          → NotAfter d.version c.version)

  -- the choice of the rest, by whether it found one
  chosen_by :
      (o : Option Candidate) (c : Candidate) (cs : List Candidate)
      → All (Before c) cs
      → IsHighest cs o
      → IsHighest
          (c ∷ cs)
          (elim o [ some d ↦ some d | none ↦ if admissible ranges ceiling c then some c else none ])
  chosen_by (some e) c cs b (m, good, highest) = (
    inr m,
    good,
    λ d n h. elim n [
      | inl k ↦
          transport (λ i. NotAfter ((sym k) i).version e.version) (All-Elem (Before c) e cs b m)
      | inr q ↦ highest d q h
    ],
  )
  chosen_by none c cs b h = first_by (admissible ranges ceiling c) refl
    where
      first_by :
          (b : Bool)
          → admissible ranges ceiling c ≡ b
          → IsHighest (c ∷ cs) (if b then some c else none)
      first_by true e = (
        inl refl,
        e,
        λ d n k. elim n [
          | inl q ↦
              transport (λ i. NotAfter ((sym q) i).version c.version) (NotAfter-refl c.version)
          | inr q ↦ λ g. ground (arith, h d q)
        ],
      )
      first_by false e =
          λ d n. elim n [ inl q ↦ ap (admissible ranges ceiling) q ∙ e | inr q ↦ h d q ]

  ascending-IsHighest :
      (cs : List Candidate) → IsAscending cs → IsHighest cs (choose ranges ceiling cs)
  unfolding choose
  ascending-IsHighest [] h = λ d m. absurd m
  ascending-IsHighest (c ∷ cs) h =
      chosen_by (choose ranges ceiling cs) c cs h.0 (ascending-IsHighest cs h.1)

-- a highest candidate of the sorted list is one of the list
unsorted :
    (ranges : Ranges) (ceiling : Option Version) (cs : List Candidate) (o : Option Candidate)
    → IsHighest ranges ceiling (sort cs) o
    → IsHighest ranges ceiling cs o
unsorted ranges ceiling cs none h = λ d m. h d ((sort-Elem d cs).1 m)
unsorted ranges ceiling cs (some c) (m, good, highest) =
    ((sort-Elem c cs).0 m, good, λ d n k. highest d ((sort-Elem d cs).1 n) k)

-- Of the tags of a package that are versions, the choice finds one that is in every range and not
-- above the ceiling, and that no other such tag is above; it finds none only if there is none.
pub choose-IsHighest :
    (ranges : Ranges) (ceiling : Option Version) (tags : List (String × String))
    → IsHighest ranges ceiling
        (candidates_of tags)
        (choose ranges ceiling (sort (candidates_of tags)))
choose-IsHighest ranges ceiling tags =
    unsorted ranges ceiling (candidates_of tags) (choose ranges ceiling (sort (candidates_of tags)))
      (ascending-IsHighest ranges ceiling (sort (candidates_of tags))
        (sort-IsAscending (candidates_of tags)))
