-- ===== src/Tests/VersionRuns.antt =====
-- Versions and ranges at concrete texts.
use curator_spec.Prelude.{
  All, Elem, List, Ordering, [], all, none, refl, some, true, ◌++◌, ◌↔◌, ◌∷◌, ◌≡◌,
}
use curator_spec.Text.{codes}
use curator_spec.SemVer.{
  isdigit, is_part_char, Version, semver_parse, semver_text, semver_compare, core_text,
}
use curator_spec.SemVer.RoundTrip.{IsIdentifier, semver_parse-text}
use curator_spec.SemVer.LineFeed.{semver_parse-line_feed}
use curator_spec.Range.{
  caret, version, Comparator, bound, is_ge, is_lt, lowest, range_parse, range_satisfies,
  comparator_matches,
}
use curator_spec.Range.Intervals.{admits, Expects, operator_exact}
use curator_spec.Range.Convex.{Opener, prerelease_opened}

abbrev rc_one : Version
rc_one = version 1 0 0 (codes "rc" ∷ codes "14" ∷ [])

parse_rc : semver_parse (codes "1.0.0-rc.14") ≡ some rc_one
unfolding semver_parse
parse_rc = refl

parse_refusals :
    (semver_parse (codes "1.0") ≡ none)
    × (semver_parse (codes "01.0.0") ≡ none)
    × (semver_parse (codes "1.0.0-") ≡ none)
    × (semver_parse (codes "1.0.0-01") ≡ none)
unfolding semver_parse
parse_refusals = (refl, refl, refl, refl)

caret_text :
    range_parse (codes "^1.2.3 || 2.x")
    ≡ some (
        (bound is_ge (version 1 2 3 []) ∷ bound is_lt (lowest 2 0 0) ∷ [])
        ∷ (bound is_ge (version 2 0 0 []) ∷ bound is_lt (lowest 3 0 0) ∷ [])
        ∷ [])
unfolding range_parse
caret_text = refl

range_refusals : (range_parse (codes "1.2.3 ||") ≡ none) × (range_parse (codes "1.2-rc") ≡ none)
unfolding range_parse
range_refusals = (refl, refl)

numbers_before_letters : semver_compare (version 1 0 0 (codes "2" ∷ [])) rc_one ≡ Ordering.lt
unfolding semver_compare
numbers_before_letters = refl

rc_identifiers : All IsIdentifier rc_one.prerelease
unfolding is_part_char isdigit
rc_identifiers = (
  record { non_empty = refl; characters = refl; canonical = refl },
  (record { non_empty = refl; characters = refl; canonical = refl }, tt),
)

semver_parse-text_example : semver_parse (semver_text rc_one) ≡ some rc_one
semver_parse-text_example = semver_parse-text rc_one rc_identifiers

semver_parse-line_feed_example : semver_parse (core_text 1 2 3 ++ 10 ∷ []) ≡ some (version 1 2 3 [])
semver_parse-line_feed_example = semver_parse-line_feed 1 2 3

operator_exact_example :
    (admits caret (0 ∷ 2 ∷ 3 ∷ []) 0 2 9 ≡ true) ↔ Expects caret (0 ∷ 2 ∷ 3 ∷ []) 0 2 9
operator_exact_example = operator_exact caret (0 ∷ 2 ∷ 3 ∷ []) 0 2 9

abbrev rc_range : List (List Comparator)
rc_range = (bound is_ge rc_one ∷ []) ∷ []

rc_in_range : range_satisfies rc_range rc_one ≡ true
unfolding range_satisfies
rc_in_range = refl

prerelease_opened_example :
    (cs : List Comparator) × Elem cs rc_range
    × (all (λ c. comparator_matches c rc_one) cs ≡ true)
    × ((c : Comparator) × Elem c cs × Opener rc_one c)
prerelease_opened_example = prerelease_opened rc_range rc_one (λ e. cc) rc_in_range
