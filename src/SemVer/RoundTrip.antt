-- ===== src/SemVer/RoundTrip.antt =====
-- `semver_parse` on the texts that `semver_text` prints.
use curator_spec.Prelude.{
  All, List, Option, [], all, ap, arith, false, refl, some, suc, true, zero, ℕ, ◌&&◌, ◌++◌, ◌∷◌,
  ◌≡◌,
}
use curator_spec.Text.{Text, is_empty}
use curator_spec.Text.Split.{
  has-append, before-append, before-Lacks, after-append, split, join, split-join, has-join, Lacks,
}
use curator_spec.Text.Decimal.{
  is_digit, decimal, number-decimal, decimal-digits, decimal-leads, decimal-zero, digits-Lacks,
  leads,
}
use curator_spec.SemVer.{
  semver_text, semver_parse, parse_prerelease, Version, chomp, plain_numeric, numeric, is_part_char,
  prerelease_part, isdigit, zero_led, good_identifier, int_of, parse_core, with_prerelease,
  core_text,
}

-- An identifier of a prerelease: letters, digits and hyphens, and no number with a leading zero.
pub record IsIdentifier (id : Text) : Type 0 where
  pub non_empty : is_empty id ≡ false
  pub characters : all is_part_char id ≡ true
  pub canonical : (isdigit id && zero_led id) ≡ false

chomp-Lacks : (s : Text) → Lacks 10 s → chomp s ≡ s
unfolding chomp
chomp-Lacks [] h = refl
chomp-Lacks (c ∷ []) h = ground arith
chomp-Lacks (c ∷ d ∷ s) h = ap (λ r. c ∷ r) (chomp-Lacks (d ∷ s) (ground arith))

pub decimal-Lacks : (c n : ℕ) → is_digit c ≡ false → Lacks c (decimal n)
decimal-Lacks c n h = digits-Lacks c (decimal n) h (decimal-digits n)

pub chomp-decimal : (n : ℕ) → chomp (decimal n) ≡ decimal n
unfolding is_digit
chomp-decimal n = chomp-Lacks (decimal n) (decimal-Lacks 10 n refl)

leads-plain : (s : Text) → leads s ≡ true → all is_digit s ≡ true → plain_numeric s ≡ true
unfolding plain_numeric
leads-plain [] h d = ground arith
leads-plain (c ∷ s) h d = ground arith

pub plain-decimal : (n : ℕ) → plain_numeric (decimal n) ≡ true
unfolding plain_numeric
plain-decimal zero = rw decimal-zero
plain-decimal (suc n) =
    leads-plain (decimal (suc n)) (decimal-leads (suc n) (omega arith)) (decimal-digits (suc n))

pub numeric-decimal : (n : ℕ) → numeric (decimal n) ≡ true
unfolding numeric
numeric-decimal n = rw chomp-decimal (plain-decimal n)

pub int_of-decimal : (n : ℕ) → int_of (decimal n) ≡ n
unfolding int_of
int_of-decimal n = rw chomp-decimal (number-decimal n)

part-Lacks : (c : ℕ) (s : Text) → is_part_char c ≡ false → all is_part_char s ≡ true → Lacks c s
unfolding is_part_char
part-Lacks c [] n h = refl
part-Lacks c (d ∷ s) n h = ground (arith, part-Lacks c s n)

IsIdentifier-good : (id : Text) → IsIdentifier id → good_identifier id ≡ true
unfolding good_identifier prerelease_part
IsIdentifier-good id h =
    rw (chomp-Lacks id (unfold is_part_char in part-Lacks 10 id refl h.characters)) (ground arith)

all_good : (ids : List Text) → All IsIdentifier ids → all good_identifier ids ≡ true
all_good [] h = refl
all_good (id ∷ ids) h = ground (arith, IsIdentifier-good id h.0, all_good ids h.1)

dots : (ids : List Text) → All IsIdentifier ids → All (Lacks b'.') ids
unfolding is_part_char
dots [] h = tt
dots (id ∷ ids) h = (part-Lacks b'.' id refl h.0.characters, dots ids h.1)

pub core-Lacks : (a b c : ℕ) → Lacks b'-' (core_text a b c)
unfolding core_text is_digit
core-Lacks a b c =
    has-join b'-' b'.' (decimal a ∷ decimal b ∷ decimal c ∷ []) refl
      (decimal-Lacks b'-' a refl, (decimal-Lacks b'-' b refl, (decimal-Lacks b'-' c refl, tt)))

split-core : (a b c : ℕ) → split b'.' (core_text a b c) ≡ decimal a ∷ decimal b ∷ decimal c ∷ []
unfolding core_text is_digit
split-core a b c =
    split-join b'.' (decimal a) (decimal b ∷ decimal c ∷ [])
      (decimal-Lacks b'.' a refl, (decimal-Lacks b'.' b refl, (decimal-Lacks b'.' c refl, tt)))

parse_core-decimal :
    (a b c : ℕ) (ids : Option (List Text))
    → parse_core (decimal a ∷ decimal b ∷ decimal c ∷ []) ids ≡ with_prerelease a b c ids
unfolding parse_core
parse_core-decimal a b c ids = rw (
  numeric-decimal a,
  numeric-decimal b,
  numeric-decimal c,
  int_of-decimal a,
  int_of-decimal b,
  int_of-decimal c,
)

join-non_empty :
    (id : Text) (ids : List Text) → IsIdentifier id → is_empty (join b'.' (id ∷ ids)) ≡ false
unfolding join
join-non_empty id [] h = h.non_empty
join-non_empty [] (i ∷ ids) h = refl
join-non_empty (c ∷ id) (i ∷ ids) h = refl

-- the text of a version with a prerelease
parse_tail :
    (core : Text) (id : Text) (ids : List Text)
    → Lacks b'-' core
    → All IsIdentifier (id ∷ ids)
    → parse_prerelease (core ++ b'-' ∷ join b'.' (id ∷ ids)) ≡ some (id ∷ ids)
unfolding parse_prerelease
parse_tail core id ids h good = rw (
  after-append b'-' core (join b'.' (id ∷ ids)) h,
  split-join b'.' id ids (dots (id ∷ ids) good),
  all_good (id ∷ ids) good,
  has-append b'-' core (b'-' ∷ join b'.' (id ∷ ids)),
  h,
  join-non_empty id ids good.0,
)

parse-release : (a b c : ℕ) → semver_parse (core_text a b c) ≡ with_prerelease a b c (some [])
unfolding semver_parse parse_prerelease
parse-release a b c =
    rw (before-Lacks b'-' (core_text a b c) (core-Lacks a b c), split-core a b c)
      (rw (core-Lacks a b c) (parse_core-decimal a b c (some [])))

parse_with_tail :
    (a b c : ℕ) (id : Text) (ids : List Text)
    → All IsIdentifier (id ∷ ids)
    → semver_parse (core_text a b c ++ b'-' ∷ join b'.' (id ∷ ids))
      ≡ with_prerelease a b c (some (id ∷ ids))
unfolding semver_parse
parse_with_tail a b c id ids h =
    rw
      (
        before-append b'-' (core_text a b c) (join b'.' (id ∷ ids)) (core-Lacks a b c),
        split-core a b c,
        parse_tail (core_text a b c) id ids (core-Lacks a b c) h,
      )
      (parse_core-decimal a b c (some (id ∷ ids)))

read_back :
    (a b c : ℕ) (ids : List Text)
    → All IsIdentifier ids
    → semver_parse (semver_text (record { major = a; minor = b; patch = c; prerelease = ids }))
      ≡ some (record { major = a; minor = b; patch = c; prerelease = ids })
unfolding semver_text with_prerelease
read_back a b c [] h = parse-release a b c
read_back a b c (id ∷ ids) h = parse_with_tail a b c id ids h

-- Every version whose prerelease identifiers are well formed is read back from its text.
pub semver_parse-text :
    (v : Version) → All IsIdentifier v.prerelease → semver_parse (semver_text v) ≡ some v
semver_parse-text v h = read_back v.major v.minor v.patch v.prerelease h
