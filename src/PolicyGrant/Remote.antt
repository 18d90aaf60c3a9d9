-- ===== src/PolicyGrant/Remote.antt =====
-- The canonical remote of a destination, of tools/workspace_policy_grant.py.
use curator_spec.Prelude.{
  Bool, Option, Result, [], any, err, false, if◌then◌else◌, ltb, negsuc, none, not, ok, pos,
  same_int, some, str_eq, suc, true, ℕ, ℤ, ◌&&◌, ◌++◌, ◌>>=◌, ◌||◌, ◌∷◌,
}
use curator_spec.Text.{Text, codes, has, starts_with, is_empty, text_eq}
use curator_spec.Text.Split.{split}
use curator_spec.Text.Space.{is_space}
use curator_spec.Text.Decimal.{decimal}
use curator_spec.Json.{float, bool, Value, null, int, str}
use curator_spec.Json.Read.{◌!◌, is_text, equals_codes}

-- the text of a value that must be one
abbrev pub text_of : Value → Result Text
text_of (str s) = ok (codes s)
text_of _ = err "TypeError"

-- `str(port)`; the text of a list or a dict is left out
abbrev pub port_text : Value → Result Text
port_text null = ok (codes "None")
port_text (bool true) = ok (codes "True")
port_text (bool false) = ok (codes "False")
port_text (int (pos n)) = ok (decimal n)
port_text (int (negsuc n)) = ok (b'-' ∷ decimal (suc n))
port_text (float s) = ok (codes s)
port_text (str s) = ok (codes s)
port_text _ = err "TypeError"

-- `any(part in {'', '.', '..'} …)`, and the characters that a path must not have
abbrev pub is_dotted : Text → Bool
is_dotted p = is_empty p || (text_eq p (codes ".") || text_eq p (codes ".."))

abbrev pub is_refused : ℕ → Bool
is_refused c = has c (codes "%?#\\") || (is_space c || ltb c 32)

-- `path[1:]`
abbrev pub tail : Text → Text
tail [] = []
tail (c ∷ s) = s

unfoldable pub is_repository_path : Text → Bool
unfolding split is_space starts_with text_eq
is_repository_path path =
    starts_with path (codes "/")
    && (not (any is_dotted (split b'/' (tail path))) && not (any is_refused path))

abbrev pub default_port : Bool → ℤ
default_port true = pos 22
default_port false = pos 443

-- `x + '@' if ssh else ''`
abbrev pub user_part : Bool → Result Value → Result Text
user_part true user = do v ← user; s ← text_of v; ok (s ++ b'@' ∷ [])
user_part false user = ok []

-- `port == (22 if ssh else 443)`; no bool is one of them
abbrev pub is_default : Bool → Value → Bool
is_default ssh (int n) = same_int n (default_port ssh)
is_default true (float s) = str_eq s "22.0"
is_default false (float s) = str_eq s "443.0"
is_default ssh _ = false

-- what is appended for a port
abbrev pub port_part : Bool → Value → Result Text
port_part ssh v = if is_default ssh v then ok [] else (do s ← port_text v; ok (b':' ∷ s))

unfoldable pub canonical_remote : Result Value → Result (Option Text)
unfolding ◌!◌ is_repository_path same_int decimal
canonical_remote destination = do
  path ← destination ! "repository_path" >>= text_of
  (if not (is_repository_path path) then ok none else (do
    ssh ← is_text (destination ! "transport") "ssh"
    user ← user_part ssh (destination ! "user")
    host ← destination ! "host" >>= text_of
    port ← destination ! "port" >>= port_part ssh
    transport ← destination ! "transport" >>= text_of
    ok (some (transport ++ codes "://" ++ user ++ host ++ port ++ path))))

-- `v == t` for a text or None
abbrev pub equals_remote : Value → Option Text → Bool
equals_remote null none = true
equals_remote v none = false
equals_remote v (some t) = equals_codes v t

unfoldable pub is_remote : Result Value → Result Value → Result Bool
unfolding canonical_remote text_eq
is_remote v destination = do w ← v; t ← canonical_remote destination; ok (equals_remote w t)
