-- ===== src/SemVer.antt =====
-- Semantic versions: `semver_parse`, `semver_text` and `semver_compare` of tools/validate.py.
-- A version is Python's tuple `(major, minor, patch, prerelease)`.
pub mod Compare
pub mod RoundTrip
pub mod LineFeed
use curator_spec.Prelude.{
  Bool, List, Option, Ordering, [], all, compare, false, if◌then◌else◌, leb, none, not, some, ℕ,
  ◌&&◌, ◌++◌, ◌==◌, ◌||◌, ◌∷◌,
}
use curator_spec.Text.{Text, has, is_empty, starts_with}
use curator_spec.Text.Split.{split, join, before, after}
use curator_spec.Text.Order.{then_compare, compare_text}
use curator_spec.Text.Decimal.{is_digit, decimal, number}

pub record Version : Type 0 where
  pub major : ℕ
  pub minor : ℕ
  pub patch : ℕ
  pub prerelease : List Text

-- In a regular expression `$` also stands in front of one line feed at the end.
unfoldable pub chomp : Text → Text
chomp [] = []
chomp (c ∷ []) = if c == 10 then [] else c ∷ []
chomp (c ∷ d ∷ s) = c ∷ chomp (d ∷ s)

-- `^(?:0|[1-9][0-9]*)$`
unfoldable pub plain_numeric : Text → Bool
unfolding is_digit
plain_numeric [] = false
plain_numeric (c ∷ s) = (c == b'0' && is_empty s) || (leb b'1' c && leb c b'9' && all is_digit s)

unfoldable pub numeric : Text → Bool
unfolding chomp plain_numeric
numeric t = plain_numeric (chomp t)

-- `[0-9A-Za-z-]`
unfoldable pub is_part_char : ℕ → Bool
is_part_char c =
    (leb b'0' c && leb c b'9')
    || ((leb b'A' c && leb c b'Z') || ((leb b'a' c && leb c b'z') || c == b'-'))

-- `^[0-9A-Za-z-]+$`
unfoldable pub prerelease_part : Text → Bool
unfolding chomp is_part_char
prerelease_part t = not (is_empty (chomp t)) && all is_part_char (chomp t)

-- `part.isdigit()`; the parts are ASCII
unfoldable pub isdigit : Text → Bool
unfolding is_digit
isdigit t = not (is_empty t) && all is_digit t

-- `len(part) > 1 and part[0] == "0"`
abbrev pub zero_led : Text → Bool
zero_led [] = false
zero_led (c ∷ []) = false
zero_led (c ∷ d ∷ s) = c == b'0'

-- an identifier that the loop over the prerelease lets through
unfoldable pub good_identifier : Text → Bool
unfolding prerelease_part isdigit
good_identifier part = prerelease_part part && not (isdigit part && zero_led part)

-- `int(part)` leaves the white space at the end of its text aside
unfoldable pub int_of : Text → ℕ
unfolding chomp number
int_of part = number (chomp part)

-- the prerelease of a text that matched its core
parse_prerelease : Text → Option (List Text)
unfolding good_identifier split after
parse_prerelease text =
    if has b'-' text
    then (if is_empty (after b'-' text)
        then none
        else if all good_identifier (split b'.' (after b'-' text))
        then some (split b'.' (after b'-' text))
        else none)
    else some []

with_prerelease : ℕ → ℕ → ℕ → Option (List Text) → Option Version
with_prerelease a b c none = none
with_prerelease a b c (some ids) =
    some (record { major = a; minor = b; patch = c; prerelease = ids })

parse_core : List Text → Option (List Text) → Option Version
unfolding numeric int_of with_prerelease
parse_core (a ∷ b ∷ c ∷ []) ids =
    if numeric a && (numeric b && numeric c)
    then with_prerelease (int_of a) (int_of b) (int_of c) ids
    else none
parse_core _ ids = none

unfoldable pub semver_parse : Text → Option Version
unfolding parse_core parse_prerelease split before
semver_parse text = parse_core (split b'.' (before b'-' text)) (parse_prerelease text)

-- `v` in front
unfoldable pub semver_parse_tag : Text → Option Version
unfolding semver_parse
semver_parse_tag [] = none
semver_parse_tag (c ∷ tag) = if c == b'v' then semver_parse tag else none

-- `"{major}.{minor}.{patch}"`
unfoldable pub core_text : ℕ → ℕ → ℕ → Text
unfolding decimal join
core_text a b c = join b'.' (decimal a ∷ decimal b ∷ decimal c ∷ [])

unfoldable pub semver_text : Version → Text
unfolding core_text
semver_text v = elim v.prerelease [
  | [] ↦ core_text v.major v.minor v.patch
  | id ∷ ids ↦ core_text v.major v.minor v.patch ++ b'-' ∷ join b'.' (id ∷ ids)
]

-- one round of the loop of `_compare_prerelease`; `eq` goes on to the next pair
unfoldable pub compare_identifier : Text → Text → Ordering
unfolding isdigit number compare_text
compare_identifier left right =
    if isdigit left
    then (if isdigit right then compare (number left) (number right) else Ordering.lt)
    else if isdigit right
    then Ordering.gt
    else compare_text left right

-- The loop over the pairs, then the lengths: the longer one is greater.
unfoldable pub compare_identifiers : List Text → List Text → Ordering
unfolding compare_identifier
compare_identifiers [] [] = Ordering.eq
compare_identifiers [] (y ∷ ys) = Ordering.lt
compare_identifiers (x ∷ xs) [] = Ordering.gt
compare_identifiers (x ∷ xs) (y ∷ ys) =
    then_compare (compare_identifier x y) (compare_identifiers xs ys)

-- A version without a prerelease is above one with it.
unfoldable pub compare_prerelease : List Text → List Text → Ordering
unfolding compare_identifiers
compare_prerelease [] [] = Ordering.eq
compare_prerelease [] (y ∷ ys) = Ordering.gt
compare_prerelease (x ∷ xs) [] = Ordering.lt
compare_prerelease (x ∷ xs) (y ∷ ys) = compare_identifiers (x ∷ xs) (y ∷ ys)

unfoldable pub semver_compare : Version → Version → Ordering
unfolding compare_prerelease
semver_compare a b = then_compare (compare a.major b.major) (
    then_compare (compare a.minor b.minor)
      (then_compare (compare a.patch b.patch) (compare_prerelease a.prerelease b.prerelease)))
