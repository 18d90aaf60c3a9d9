-- ===== src/Environment/TomlReader.antt =====
-- A reader of TOML basic strings, by the grammar of TOML, and what it makes of toml_basic_string of
-- tools/validate.py.
use curator_spec.Prelude.{
  Bool, Option, [], ap, append_assoc, arith, false, if◌then◌else◌, leb, length, ltb, none, not,
  refl, some, suc, true, zero, ℕ, ◌&&◌, ◌*◌, ◌++◌, ◌+◌, ◌-◌, ◌<◌, ◌==◌, ◌||◌, ◌∙◌, ◌∷◌, ◌≡◌,
}
use curator_spec.Text.{Text}
use curator_spec.Environment.Toml.{toml_basic_string, escape_all, escape_char}

abbrev hex_value : ℕ → Option ℕ
hex_value c =
    if leb b'0' c && leb c b'9'
    then some (c - b'0')
    else if leb b'A' c && leb c b'F'
    then some (c - b'A' + 10)
    else none

-- the number of four digits
abbrev four_digits : Option ℕ → Option ℕ → Option ℕ → Option ℕ → Option ℕ
four_digits (some a) (some b) (some c) (some d) = some (((a * 16 + b) * 16 + c) * 16 + d)
four_digits _ _ _ _ = none

-- the character behind a backslash
abbrev named_escape : ℕ → Option ℕ
named_escape e =
    if e == b'"'
    then some b'"'
    else if e == b'\\'
    then some b'\\'
    else if e == b'n'
    then some 10
    else if e == b'r'
    then some 13
    else if e == b't'
    then some 9
    else none

abbrev with_rest : Text → Option ℕ → Option (ℕ × Text)
with_rest s none = none
with_rest s (some c) = some (c, s)

abbrev read_unicode : Text → Option (ℕ × Text)
read_unicode (a ∷ b ∷ c ∷ d ∷ s) =
    with_rest s (four_digits (hex_value a) (hex_value b) (hex_value c) (hex_value d))
read_unicode _ = none

abbrev read_escape : Text → Option (ℕ × Text)
read_escape [] = none
read_escape (e ∷ s) = if e == b'u' then read_unicode s else with_rest s (named_escape e)

-- one character, and what follows it; a raw control character is refused
pub read_char : Text → Option (ℕ × Text)
read_char [] = none
read_char (c ∷ s) =
    if c == b'\\'
    then read_escape s
    else if (ltb c 32 && not (c == 9)) || c == 127
    then none
    else some (c, s)

-- the characters up to the closing quote, and what follows it
unfoldable pub read_string : ℕ → Text → Option (Text × Text)
unfolding read_char
read_string zero s = none
read_string (suc fuel) [] = none
read_string (suc fuel) (c ∷ s) = elim (c == b'"') [
  | true ↦ some ([], s)
  | false ↦ elim (read_char (c ∷ s)) [
    | none ↦ none
    | some (d, rest) ↦ elim (read_string fuel rest) [
      | none ↦ none
      | some (t, rest') ↦ some (d ∷ t, rest')
    ]
  ]
]

read_char-escape : (c : ℕ) (rest : Text) → read_char (escape_char c ++ rest) ≡ some (c, rest)
unfolding read_char
read_char-escape c rest = ground arith

-- a quoted string, and what follows it
unfoldable pub read_quoted : ℕ → Text → Option (Text × Text)
unfolding read_string
read_quoted fuel [] = none
read_quoted fuel (c ∷ s) = elim (c == b'"') [ true ↦ read_string fuel s | false ↦ none ]

-- the text begins with a quote, or with nothing
abbrev is_closed : Text → Bool
is_closed [] = true
is_closed (d ∷ s) = d == b'"'

-- what stands for a character begins with no quote
escape_char_open : (c : ℕ) (rest : Text) → is_closed (escape_char c ++ rest) ≡ false
escape_char_open c rest = ground arith

read-step :
    (fuel : ℕ) (s : Text) (c : ℕ) (rest : Text) (t more : Text)
    → is_closed s ≡ false
    → read_char s ≡ some (c, rest)
    → read_string fuel rest ≡ some (t, more)
    → read_string (suc fuel) s ≡ some (c ∷ t, more)
unfolding read_string
read-step fuel [] c rest t more o e h = cc
read-step fuel (d ∷ s) c rest t more o e h = ground (arith, o, e, h)

read_string-escape_all :
    (fuel : ℕ) (s rest : Text)
    → length s < fuel
    → read_string fuel (escape_all s ++ b'"' ∷ rest) ≡ some (s, rest)
unfolding escape_all
read_string-escape_all zero s rest h = absurd (omega arith)
read_string-escape_all (suc fuel) [] rest h = unfold read_string in refl
read_string-escape_all (suc fuel) (c ∷ s) rest h =
    ap (read_string (suc fuel)) (append_assoc (escape_char c) (escape_all s) (b'"' ∷ rest))
    ∙ read-step fuel (escape_char c ++ (escape_all s ++ b'"' ∷ rest)) c
        (escape_all s ++ b'"' ∷ rest) s rest (escape_char_open c (escape_all s ++ b'"' ∷ rest))
        (read_char-escape c (escape_all s ++ b'"' ∷ rest))
        (read_string-escape_all fuel s rest (omega arith))

-- A reader of TOML basic strings, which knows the escapes and refuses raw control characters, reads
-- every text back from its basic string, whatever follows the closing quote.
pub read_quoted-toml_basic_string :
    (s rest : Text) → read_quoted (suc (length s)) (toml_basic_string s ++ rest) ≡ some (s, rest)
unfolding read_quoted toml_basic_string
read_quoted-toml_basic_string s rest =
    ap (read_string (suc (length s))) (append_assoc (escape_all s) (b'"' ∷ []) rest)
    ∙ read_string-escape_all (suc (length s)) s rest (omega arith)
