-- ===== src/Environment/Toml.antt =====
-- toml_basic_string of tools/validate.py.
use curator_spec.Prelude.{[], if◌then◌else◌, ltb, ℕ, ◌%◌, ◌++◌, ◌+◌, ◌-◌, ◌/◌, ◌==◌, ◌||◌, ◌∷◌}
use curator_spec.Text.{Text, codes}

-- `"%X" % d` for one digit
abbrev pub hex_digit : ℕ → ℕ
hex_digit d = if ltb d 10 then b'0' + d else b'A' + (d - 10)

-- what stands for one character
abbrev pub escape_char : ℕ → Text
escape_char c =
    if c == b'"'
    then codes "\\\""
    else if c == b'\\'
    then codes "\\\\"
    else if c == 10
    then codes "\\n"
    else if c == 13
    then codes "\\r"
    else if c == 9
    then codes "\\t"
    else if ltb c 32 || c == 127
    then codes "\\u00" ++ hex_digit (c / 16) ∷ hex_digit (c % 16) ∷ []
    else c ∷ []

unfoldable pub escape_all : Text → Text
escape_all [] = []
escape_all (c ∷ s) = escape_char c ++ escape_all s

unfoldable pub toml_basic_string : Text → Text
unfolding escape_all
toml_basic_string s = b'"' ∷ escape_all s ++ b'"' ∷ []
