-- ===== src/SemVer/LineFeed.antt =====
-- What the parser makes of a line feed at the end of its text.
use curator_spec.Prelude.{
  [], ap, append_assoc, arith, false, refl, some, true, ℕ, ◌++◌, ◌==◌, ◌∷◌, ◌≡◌,
}
use curator_spec.Text.{Text}
use curator_spec.Text.Split.{split, join, split-join, before-Lacks, has-append, Lacks}
use curator_spec.Text.Decimal.{is_digit, decimal, number-decimal}
use curator_spec.SemVer.{
  chomp, numeric, int_of, parse_core, parse_prerelease, with_prerelease, core_text, semver_parse,
}
use curator_spec.SemVer.RoundTrip.{
  numeric-decimal, int_of-decimal, plain-decimal, decimal-Lacks, core-Lacks,
}

abbrev line_feed : Text
line_feed = 10 ∷ []

chomp-line_feed : (s : Text) → chomp (s ++ line_feed) ≡ s
unfolding chomp
chomp-line_feed [] = refl
chomp-line_feed (c ∷ []) = refl
chomp-line_feed (c ∷ d ∷ s) = ap (λ r. c ∷ r) (chomp-line_feed (d ∷ s))

numeric-line_feed : (n : ℕ) → numeric (decimal n ++ line_feed) ≡ true
unfolding numeric
numeric-line_feed n = rw chomp-line_feed (plain-decimal n)

int_of-line_feed : (n : ℕ) → int_of (decimal n ++ line_feed) ≡ n
unfolding int_of
int_of-line_feed n = rw chomp-line_feed (number-decimal n)

line_feed-Lacks :
    (c n : ℕ) → is_digit c ≡ false → (10 == c) ≡ false → Lacks c (decimal n ++ line_feed)
line_feed-Lacks c n h k = ground (arith, has-append c (decimal n) line_feed, decimal-Lacks c n h)

core_line :
    (a b c : ℕ)
    → core_text a b c ++ line_feed
      ≡ join b'.' (decimal a ∷ decimal b ∷ (decimal c ++ line_feed) ∷ [])
unfolding core_text join
core_line a b c = simp append_assoc

split_line :
    (a b c : ℕ)
    → split b'.' (core_text a b c ++ line_feed)
      ≡ decimal a ∷ decimal b ∷ (decimal c ++ line_feed) ∷ []
unfolding is_digit
split_line a b c = rw core_line (
    split-join b'.' (decimal a) (decimal b ∷ (decimal c ++ line_feed) ∷ []) (
      decimal-Lacks b'.' a refl,
      (decimal-Lacks b'.' b refl, (line_feed-Lacks b'.' c refl refl, tt)),
    ))

line-Lacks : (a b c : ℕ) → Lacks b'-' (core_text a b c ++ line_feed)
line-Lacks a b c = ground (arith, has-append b'-' (core_text a b c) line_feed, core-Lacks a b c)

-- Every version text without a prerelease is accepted with a line feed behind it, as the version
-- that it is without: the pattern ends in `$`, which also stands in front of a last line feed.
pub semver_parse-line_feed :
    (a b c : ℕ)
    → semver_parse (core_text a b c ++ line_feed)
      ≡ some (record { major = a; minor = b; patch = c; prerelease = [] })
unfolding semver_parse parse_prerelease parse_core with_prerelease
semver_parse-line_feed a b c = rw (
  before-Lacks b'-' (core_text a b c ++ line_feed) (line-Lacks a b c),
  split_line a b c,
  line-Lacks a b c,
  numeric-decimal a,
  numeric-decimal b,
  numeric-line_feed c,
  int_of-decimal a,
  int_of-decimal b,
  int_of-line_feed c,
)
