-- ===== src/WorkspaceTrust/Paths.antt =====
-- `exact_path`, `within` and `remote_safe` of tools/workspace_trust.py. The Windows path class of
-- pathlib and `urlsplit` of urllib are parameters; the Posix path class is written out.
use curator_spec.Prelude.{
  Bool, List, Option, [], all, any, false, if◌then◌else◌, leb, ltb, none, not, some, true, ℕ, ◌&&◌,
  ◌++◌, ◌==◌, ◌||◌, ◌∷◌,
}
use curator_spec.Text.{Text, codes, is_empty, has, contains, starts_with, text_eq}
use curator_spec.Text.Split.{split, join}
use curator_spec.Text.Space.{is_space}

-- a class of pure paths, by what the code asks of a path's text
pub record PathClass : Type 0 where
  pub is_absolute : Text → Bool
  pub str : Text → Text
  pub anchor : Text → Text
  pub parts : Text → List Text
  pub is_relative_to : Text → Text → Bool

-- what `urlsplit` finds
pub record Url : Type 0 where
  pub scheme : Text
  pub username : Option Text
  pub password : Option Text
  pub hostname : Option Text
  pub path : Text

-- `urlsplit` is `none` where it raises ValueError.
pub record Library : Type 0 where
  pub windows : PathClass
  pub urlsplit : Text → Option Url

-- the root of a Posix path: exactly two slashes are kept
posix_root : Text → Text
posix_root [] = []
posix_root (c ∷ s) =
    if c == b'/'
    then (if starts_with s (codes "/") && not (starts_with s (codes "//"))
        then codes "//"
        else codes "/")
    else []

-- the components that count
posix_names : List Text → List Text
posix_names [] = []
posix_names (p ∷ ps) =
    let rest = posix_names ps in if is_empty p || text_eq p (codes ".") then rest else p ∷ rest

posix_parts : Text → List Text
unfolding posix_root posix_names
posix_parts s =
    if is_empty (posix_root s)
    then posix_names (split b'/' s)
    else posix_root s ∷ posix_names (split b'/' s)

posix_str : Text → Text
unfolding posix_root posix_names
posix_str s =
    let text = posix_root s ++ join b'/' (posix_names (split b'/' s)) in
    if is_empty text then codes "." else text

-- `parts` begin with `others`
begins : List Text → List Text → Bool
begins parts [] = true
begins [] (q ∷ others) = false
begins (p ∷ parts) (q ∷ others) = text_eq p q && begins parts others

unfoldable pub posix : PathClass
unfolding posix_parts posix_str posix_root begins text_eq split join starts_with
posix = record {
  is_absolute = λ s. not (is_empty (posix_root s));
  str = posix_str;
  anchor = posix_root;
  parts = posix_parts;
  is_relative_to = λ s root. begins (posix_parts s) (posix_parts root);
}

-- `re.match(r'^[A-Za-z]:', s)`
has_drive : Text → Bool
has_drive [] = false
has_drive (c ∷ []) = false
has_drive (c ∷ d ∷ s) = ((leb b'A' c && leb c b'Z') || (leb b'a' c && leb c b'z')) && d == b':'

-- `[\x00-\x1f*?\[\]{}]`
abbrev is_pattern_char : ℕ → Bool
is_pattern_char c =
    ltb c 32 || (c == b'*' || (c == b'?' || (c == b'[' || (c == b']' || (c == b'{' || c == b'}')))))

-- `(?:[A-Za-z0-9_.-]+@)?[A-Za-z0-9.-]+:[^:@\s?#]+`
abbrev is_host_char : ℕ → Bool
is_host_char c =
    (leb b'0' c && leb c b'9')
    || ((leb b'A' c && leb c b'Z') || ((leb b'a' c && leb c b'z') || (c == b'.' || c == b'-')))

all_of : (ℕ → Bool) → Text → Bool
all_of test s = not (is_empty s) && all test s

scp_left : List Text → Bool
unfolding all_of
scp_left (host ∷ []) = all_of is_host_char host
scp_left (user ∷ host ∷ []) =
    all_of (λ c. is_host_char c || c == b'_') user && all_of is_host_char host
scp_left _ = false

scp_form : List Text → Bool
unfolding scp_left all_of is_space split
scp_form (left ∷ path ∷ []) =
    scp_left (split b'@' left)
    && all_of (λ c. not (c == b'@' || (is_space c || (c == b'?' || c == b'#')))) path
scp_form _ = false

url_safe : Option Url → Bool
unfolding text_eq
url_safe none = false
url_safe (some u) =
    elim u.hostname [ none ↦ false | some h ↦ not (is_empty h) ]
    && (not (is_empty u.path)
        && (elim u.password [ none ↦ true | some p ↦ false ]
            && elim u.username [ none ↦ true | some n ↦ text_eq u.scheme (codes "ssh") ]))

module _ (lib : Library) where
  path_class : Text → PathClass
  unfolding posix has_drive
  path_class s = if has b'\\' s || has_drive s then lib.windows else posix

  exact_text : Text → PathClass → Bool
  unfolding text_eq
  exact_text value cls =
      cls.is_absolute value
      && (not (text_eq (cls.str value) (cls.anchor value))
          && (not (any (λ p. text_eq p (codes "..")) (cls.parts value))
              && text_eq (cls.str value) value))

  -- `none` is a value that is no text
  unfoldable pub exact_path : Option Text → Bool
  unfolding path_class exact_text
  exact_path none = false
  exact_path (some value) =
      not (is_empty value)
      && (not (any is_pattern_char value) && exact_text value (path_class value))

  unfoldable pub within : Text → Text → Bool
  unfolding path_class
  within child root = (path_class root).is_relative_to child root

  unfoldable pub remote_safe : Option Text → Bool
  unfolding url_safe scp_form contains is_space split
  remote_safe none = true
  remote_safe (some value) =
      not (is_empty value)
      && (not (any (λ c. is_space c || (ltb c 32 || (c == b'?' || c == b'#'))) value)
          && (if contains value (codes "://")
              then url_safe (lib.urlsplit value)
              else scp_form (split b':' value)))
