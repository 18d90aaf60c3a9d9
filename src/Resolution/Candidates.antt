-- ===== src/Resolution/Candidates.antt =====
-- The candidates of a range: the tags that are versions, in ascending order, and the one chosen.
use curator_spec.Prelude.{
  Bool, List, Option, Ordering, String, [], all, false, if◌then◌else◌, none, not, some, true, ◌&&◌,
  ◌∷◌,
}
use curator_spec.Text.{codes}
use curator_spec.SemVer.{Version, semver_parse_tag, semver_compare}
use curator_spec.Range.{Comparator, range_satisfies}

pub record Candidate : Type 0 where
  pub version : Version
  pub commit : String
  pub tag : String

unfoldable pub candidates_of : List (String × String) → List Candidate
unfolding semver_parse_tag
candidates_of [] = []
candidates_of ((t, commit) ∷ tags) =
    let rest = candidates_of tags in
    elim (semver_parse_tag (codes t)) [
      | none ↦ rest
      | some v ↦ record { version = v; commit = commit; tag = t } ∷ rest
    ]

-- `list.sort` keeps the order of what compares equal.
unfoldable pub insert : Candidate → List Candidate → List Candidate
unfolding semver_compare
insert x [] = x ∷ []
insert x (y ∷ ys) =
    let rest = insert x ys in
    elim (semver_compare x.version y.version) [ Ordering.gt ↦ y ∷ rest | _ ↦ x ∷ y ∷ ys ]

unfoldable pub sort : List Candidate → List Candidate
unfolding insert
sort [] = []
sort (x ∷ xs) = insert x (sort xs)

-- `version > ceiling`
unfoldable pub above : Version → Option Version → Bool
unfolding semver_compare
above v none = false
above v (some c) = elim (semver_compare v c) [ Ordering.gt ↦ true | _ ↦ false ]

abbrev pub Ranges : Type 0
Ranges = List (List (List Comparator))

-- the candidate is not above the ceiling, and in every range
unfoldable pub admissible : Ranges → Option Version → Candidate → Bool
unfolding above range_satisfies
admissible ranges ceiling c =
    not (above c.version ceiling) && all (λ r. range_satisfies r c.version) ranges

-- the first of the reversed candidates that is admissible, which is the last of the candidates
unfoldable pub choose : Ranges → Option Version → List Candidate → Option Candidate
unfolding admissible
choose ranges ceiling [] = none
choose ranges ceiling (c ∷ cs) = elim (choose ranges ceiling cs) [
  | some d ↦ some d
  | none ↦ if admissible ranges ceiling c then some c else none
]
