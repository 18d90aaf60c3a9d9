-- ===== src/Range.antt =====
-- Version ranges: `_parse_partial`, `_desugar`, `range_parse`, `_comparator_matches` and
-- `range_satisfies` of tools/validate.py. `RangeInvalid` is `none`.
pub mod Intervals
pub mod Convex
use curator_spec.Prelude.{
  Bool, List, Option, Ordering, [], all, any, false, if◌then◌else◌, length, ltb, none, not, some,
  suc, true, zero, ℕ, ◌&&◌, ◌++◌, ◌+◌, ◌==◌, ◌||◌, ◌∷◌,
}
use curator_spec.Text.{Text, codes, has, is_empty, text_eq, starts_with}
use curator_spec.Text.Split.{to_first, split, before, after}
use curator_spec.Text.Space.{strip, words}
use curator_spec.SemVer.{
  Version, numeric, int_of, core_text, semver_parse, semver_text, semver_compare,
}

-- the numbers in front of the first wildcard: `present[k]` holds for as many as there are
pub record Partial : Type 0 where
  pub given : List ℕ
  pub prerelease : List Text

abbrev is_wildcard : Text → Bool
is_wildcard part =
    text_eq part (codes "x") || (text_eq part (codes "X") || text_eq part (codes "*"))

-- A wildcard ends the loop, whatever stands behind it.
parse_parts : List Text → Option (List ℕ)
unfolding numeric int_of text_eq
parse_parts [] = some []
parse_parts (part ∷ parts) =
    let rest = parse_parts parts in
    if is_wildcard part
    then some []
    else if numeric part
    then (elim rest [ none ↦ none | some ns ↦ some (int_of part ∷ ns) ])
    else none

-- a prerelease needs all three numbers and is read as that of a version
parse_suffix : List ℕ → Text → Option Partial
unfolding semver_parse core_text
parse_suffix (a ∷ b ∷ c ∷ ns) pre =
    if is_empty pre then none else elim (semver_parse (core_text a b c ++ b'-' ∷ pre)) [
      | none ↦ none
      | some v ↦ some (record { given = a ∷ b ∷ c ∷ ns; prerelease = v.prerelease })
    ]
parse_suffix _ pre = none

finish_partial : Text → List ℕ → Option Partial
unfolding parse_suffix
finish_partial text ns =
    if has b'-' text
    then parse_suffix ns (after b'-' text)
    else some (record { given = ns; prerelease = [] })

unfoldable pub parse_partial : Text → Option Partial
unfolding parse_parts finish_partial split before
parse_partial text =
    let parts = split b'.' (before b'-' text) in
    if is_empty text || ltb 3 (length parts)
    then none
    else elim (parse_parts parts) [ none ↦ none | some ns ↦ finish_partial text ns ]

pub data Operator : Type 0 where
  plain exact ge gt lt le caret tilde : Operator

-- `("*", None)` is `anything`.
pub data Relation : Type 0 where
  is_eq is_gt is_ge is_lt is_le : Relation

pub data Comparator : Type 0 where
  anything : Comparator
  bound : Relation → Version → Comparator

abbrev pub version : ℕ → ℕ → ℕ → List Text → Version
version a b c ids = record { major = a; minor = b; patch = c; prerelease = ids }

-- below every prerelease of the triple
abbrev pub lowest : ℕ → ℕ → ℕ → Version
lowest a b c = version a b c (codes "0" ∷ [])

abbrev from_to : Version → Version → List Comparator
from_to v w = bound is_ge v ∷ bound is_lt w ∷ []

-- `^` keeps the first number that is not zero
desugar_caret : ℕ → ℕ → ℕ → Version → List Comparator
desugar_caret zero zero p full = from_to full (lowest 0 0 (p + 1))
desugar_caret zero (suc m) p full = from_to full (lowest 0 (suc m + 1) 0)
desugar_caret (suc a) m p full = from_to full (lowest (suc a + 1) 0 0)

desugar_caret_minor : ℕ → ℕ → List Comparator
desugar_caret_minor zero m = from_to (version 0 m 0 []) (lowest 0 (m + 1) 0)
desugar_caret_minor (suc a) m = from_to (version (suc a) m 0 []) (lowest (suc a + 1) 0 0)

-- the comparators of an operator on no number
desugar_none : Operator → List Comparator
desugar_none gt = bound is_lt (lowest 0 0 0) ∷ []
desugar_none lt = bound is_lt (lowest 0 0 0) ∷ []
desugar_none _ = anything ∷ []

-- on a major version
desugar_major : Operator → ℕ → List Comparator
desugar_major ge a = bound is_ge (version a 0 0 []) ∷ []
desugar_major gt a = bound is_ge (version (a + 1) 0 0 []) ∷ []
desugar_major lt a = bound is_lt (lowest a 0 0) ∷ []
desugar_major le a = bound is_lt (lowest (a + 1) 0 0) ∷ []
desugar_major _ a = from_to (version a 0 0 []) (lowest (a + 1) 0 0)

-- on a major and a minor version
desugar_minor : Operator → ℕ → ℕ → List Comparator
unfolding desugar_caret_minor
desugar_minor ge a b = bound is_ge (version a b 0 []) ∷ []
desugar_minor gt a b = bound is_ge (version a (b + 1) 0 []) ∷ []
desugar_minor lt a b = bound is_lt (lowest a b 0) ∷ []
desugar_minor le a b = bound is_lt (lowest a (b + 1) 0) ∷ []
desugar_minor caret a b = desugar_caret_minor a b
desugar_minor _ a b = from_to (version a b 0 []) (lowest a (b + 1) 0)

-- on all three
desugar_full : Operator → ℕ → ℕ → ℕ → List Text → List Comparator
unfolding desugar_caret
desugar_full ge a b c ids = bound is_ge (version a b c ids) ∷ []
desugar_full gt a b c ids = bound is_gt (version a b c ids) ∷ []
desugar_full lt a b c ids = bound is_lt (version a b c ids) ∷ []
desugar_full le a b c ids = bound is_le (version a b c ids) ∷ []
desugar_full caret a b c ids = desugar_caret a b c (version a b c ids)
desugar_full tilde a b c ids = from_to (version a b c ids) (lowest a (b + 1) 0)
desugar_full _ a b c ids = bound is_eq (version a b c ids) ∷ []

-- the branches of `_desugar` behind the parse
unfoldable pub desugar_numbers : Operator → List ℕ → List Text → List Comparator
unfolding desugar_none desugar_major desugar_minor desugar_full
desugar_numbers op [] ids = desugar_none op
desugar_numbers op (a ∷ []) ids = desugar_major op a
desugar_numbers op (a ∷ b ∷ []) ids = desugar_minor op a b
desugar_numbers op (a ∷ b ∷ c ∷ ns) ids = desugar_full op a b c ids

-- the first candidate that the text starts with, and the rest of the text
split_operator : Text → Operator × Text
split_operator [] = (plain, [])
split_operator (c ∷ []) =
    if c == b'>'
    then (gt, [])
    else if c == b'<'
    then (lt, [])
    else if c == b'='
    then (exact, [])
    else if c == b'^'
    then (caret, [])
    else if c == b'~'
    then (tilde, [])
    else (plain, c ∷ [])
split_operator (c ∷ d ∷ s) =
    if c == b'>' && d == b'='
    then (ge, s)
    else if c == b'<' && d == b'='
    then (le, s)
    else if c == b'>'
    then (gt, d ∷ s)
    else if c == b'<'
    then (lt, d ∷ s)
    else if c == b'='
    then (exact, d ∷ s)
    else if c == b'^'
    then (caret, d ∷ s)
    else if c == b'~'
    then (tilde, d ∷ s)
    else (plain, c ∷ d ∷ s)

unfoldable pub desugar : Text → Option (List Comparator)
unfolding split_operator parse_partial desugar_numbers
desugar primitive =
    let (op, rest) = split_operator primitive in
    elim (parse_partial rest) [
      | none ↦ none
      | some p ↦ some (desugar_numbers op p.given p.prerelease)
    ]

-- `text.split("||")`
split_bars : Text → List Text
split_bars [] = [] ∷ []
split_bars (c ∷ []) = (c ∷ []) ∷ []
split_bars (c ∷ d ∷ s) =
    let cut = [] ∷ split_bars s in
    let keep = to_first c (split_bars (d ∷ s)) in if c == b'|' && d == b'|' then cut else keep

-- `comparators.extend(_desugar(primitive))` for every word
desugar_words : List Text → Option (List Comparator)
unfolding desugar
desugar_words [] = some []
desugar_words (w ∷ ws) =
    let rest = desugar_words ws in
    elim (desugar w) [
      | none ↦ none
      | some cs ↦ elim rest [ none ↦ none | some ds ↦ some (cs ++ ds) ]
    ]

parse_sets : List Text → Option (List (List Comparator))
unfolding desugar_words strip words
parse_sets [] = some []
parse_sets (s ∷ sets) =
    let rest = parse_sets sets in
    if is_empty (strip s) then none else elim (desugar_words (words (strip s))) [
      | none ↦ none
      | some cs ↦ elim rest [ none ↦ none | some ds ↦ some (cs ∷ ds) ]
    ]

unfoldable pub range_parse : Text → Option (List (List Comparator))
unfolding split_bars parse_sets text_eq
range_parse text =
    if text_eq text (codes "latest")
    then parse_sets (split_bars (codes "*"))
    else parse_sets (split_bars text)

abbrev pub holds : Relation → Ordering → Bool
holds is_eq Ordering.eq = true
holds is_eq _ = false
holds is_gt Ordering.gt = true
holds is_gt _ = false
holds is_ge Ordering.lt = false
holds is_ge _ = true
holds is_lt Ordering.lt = true
holds is_lt _ = false
holds is_le Ordering.gt = false
holds is_le _ = true

unfoldable pub comparator_matches : Comparator → Version → Bool
unfolding semver_compare
comparator_matches anything v = true
comparator_matches (bound r w) v = holds r (semver_compare v w)

-- the comparator names a prerelease of the version's own triple
unfoldable pub opens : Version → Comparator → Bool
opens v anything = false
opens v (bound r w) =
    any (λ p. true) w.prerelease
    && (w.major == v.major && (w.minor == v.minor && w.patch == v.patch))

-- one round of the loop of `range_satisfies`: whether it returns True
unfoldable pub set_satisfies : Version → List Comparator → Bool
unfolding comparator_matches opens
set_satisfies v cs =
    all (λ c. comparator_matches c v) cs && (not (any (λ p. true) v.prerelease) || any (opens v) cs)

unfoldable pub range_satisfies : List (List Comparator) → Version → Bool
unfolding set_satisfies
range_satisfies sets v = any (set_satisfies v) sets
