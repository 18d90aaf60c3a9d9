-- ===== src/Sources/Git.antt =====
-- `validate_repository_path`, `validate_repository_git`, `validate_network_identity`,
-- `validate_git_ref_name` and `validate_structured_ref` of tools/validate.py: `none` accepts. Each
-- pattern of the source is matched with fullmatch, and its parts end at a character that they
-- cannot hold, so that there is one way to match it.
use curator_spec.Prelude.{
  Bool, Option, String, [], all, any, false, if◌then◌else◌, leb, length, ltb, none, not, some, true,
  ℕ, ◌&&◌, ◌++◌, ◌+◌, ◌==◌, ◌||◌, ◌∷◌,
}
use curator_spec.Text.{Text, codes, is_empty, has, contains, starts_with, ends_with, text_eq}
use curator_spec.Text.Split.{without, split, before, after}
use curator_spec.Text.Space.{is_space}
use curator_spec.Json.{Value, get, is_str, str, obj}

-- `path == root or path.startswith(root + "/")`, and "." is above every path
unfoldable pub is_below_or_equal : Text → Text → Bool
unfolding text_eq starts_with
is_below_or_equal path root =
    text_eq root (codes ".") || (text_eq path root || starts_with path (root ++ b'/' ∷ []))

abbrev pub is_alnum : ℕ → Bool
is_alnum c =
    (leb b'0' c && leb c b'9') || ((leb b'A' c && leb c b'Z') || (leb b'a' c && leb c b'z'))

-- `[A-Za-z0-9.-]`
abbrev pub is_host_char : ℕ → Bool
is_host_char c = is_alnum c || (c == b'.' || c == b'-')

-- HOST_PATTERN
unfoldable pub is_host : Text → Bool
is_host [] = false
is_host (c ∷ s) = is_alnum c && all is_host_char s

-- SSH_USER_PATTERN
unfoldable pub is_user : Text → Bool
is_user [] = false
is_user (c ∷ s) = is_alnum c && (all (λ d. is_host_char d || d == b'_') s && leb (length s) 63)

-- LOWERCASE_HOST
abbrev is_lower_alnum : ℕ → Bool
is_lower_alnum c = (leb b'a' c && leb c b'z') || (leb b'0' c && leb c b'9')

unfoldable pub is_lower_host : Text → Bool
is_lower_host [] = false
is_lower_host (c ∷ s) =
    is_lower_alnum c && all (λ d. is_lower_alnum d || (d == b'.' || d == b'-')) s

-- SSH_REPOSITORY_PATH
unfoldable pub is_ssh_path : Text → Bool
is_ssh_path s =
    not (is_empty s)
    && all (λ c. is_alnum c || (c == b'.' || (c == b'_' || (c == b'/' || c == b'-')))) s

-- `.+`
abbrev is_line : Text → Bool
is_line s = not (is_empty s) && not (has 10 s)

-- `(?:user@)?host`
unfoldable pub is_authority : Text → Bool
unfolding is_user is_host
is_authority s = if has b'@' s then is_user (before b'@' s) && is_host (after b'@' s) else is_host s

-- the path behind the first `sep`, if what stands before it passes the test
unfoldable pub path_after : (Text → Bool) → ℕ → Text → Option Text
path_after test sep s =
    if has sep s && (test (before sep s) && is_line (after sep s)) then some (after sep s) else none

-- HTTPS_REPOSITORY, SSH_URI_REPOSITORY and SSH_SCP_REPOSITORY
unfoldable pub https_path : Text → Option Text
unfolding without path_after is_host
https_path s = elim (without s (codes "https://")) [
  | none ↦ none
  | some rest ↦ path_after is_host b'/' rest
]

unfoldable pub ssh_uri_path : Text → Option Text
unfolding without path_after is_authority
ssh_uri_path s = elim (without s (codes "ssh://")) [
  | none ↦ none
  | some rest ↦ path_after is_authority b'/' rest
]

unfoldable pub ssh_scp_path : Text → Option Text
unfolding path_after is_authority
ssh_scp_path = path_after is_authority b':'

-- the text encodes as UTF-8: it has no surrogates
unfoldable pub is_scalar_text : Text → Bool
is_scalar_text = all (λ c. not (leb 0xD800 c && leb c 0xDFFF))

-- `len(s.encode("utf-8"))`
unfoldable pub encoded_length : Text → ℕ
encoded_length [] = 0
encoded_length (c ∷ s) =
    (if ltb c 0x80 then 1 else if ltb c 0x800 then 2 else if ltb c 0x10000 then 3 else 4)
    + encoded_length s

-- a component that a path must not have
abbrev pub is_bad_component : Text → Bool
is_bad_component s = is_empty s || (text_eq s (codes ".") || text_eq s (codes ".."))

abbrev pub is_forbidden : ℕ → Bool
is_forbidden c = is_space c || (has c (codes "%?#\\:") || (ltb c 32 || (leb 127 c && leb c 159)))

unfoldable pub validate_repository_path : Text → Bool → Option String
unfolding is_scalar_text is_ssh_path starts_with ends_with split text_eq is_space
validate_repository_path path ssh =
    if not (is_scalar_text path)
    then some "repository path must contain only valid Unicode scalar text"
    else if ssh && not (is_ssh_path path)
    then some
        "SSH repository path must contain only ASCII letters, digits, dot, underscore, hyphen, and slash"
    else if is_empty path
        || (starts_with path (codes "/")
            || (ends_with path (codes "/") || any is_bad_component (split b'/' path)))
    then some "repository path must have non-empty components other than dot or dot-dot"
    else if any is_forbidden path
    then some "repository path contains a forbidden character"
    else none

-- the path of a source and whether it is an SSH source, by the first pattern that matches
abbrev pub first_match : Option Text → Option Text → Option Text → Option (Text × Bool)
first_match (some path) uri scp = some (path, false)
first_match none (some path) scp = some (path, true)
first_match none none (some path) = some (path, true)
first_match none none none = none

unfoldable pub match_repository : Text → Option (Text × Bool)
unfolding https_path ssh_uri_path ssh_scp_path
match_repository s = first_match (https_path s) (ssh_uri_path s) (ssh_scp_path s)

unfoldable pub check_match : Option (Text × Bool) → Option String
unfolding validate_repository_path
check_match none = some "repository Git source must be exact HTTPS, SSH URI, or SSH SCP form"
check_match (some (path, ssh)) = validate_repository_path path ssh

-- `none` is a value that is no text.
unfoldable pub validate_repository_git : Option Text → Option String
unfolding match_repository check_match
validate_repository_git none = none
validate_repository_git (some value) =
    if ltb 4096 (length value)
    then some "repository Git source exceeds 4096 Unicode scalar values"
    else check_match (match_repository value)

-- from the text of an identity on
unfoldable pub validate_network_value : Text → Bool → Option String
unfolding is_scalar_text is_lower_host validate_repository_path ends_with
validate_network_value value ssh =
    if not (is_scalar_text value)
    then some "network source identity must contain only valid Unicode scalar text"
    else if ltb 4096 (length value) || not (has b'/' value)
    then some
        "network source identity must be canonical host/path of at most 4096 Unicode scalar values"
    else if not (is_lower_host (before b'/' value))
    then some "network source identity host must use canonical lowercase ASCII spelling"
    else elim (validate_repository_path (after b'/' value) ssh) [
      | some error ↦ some "network source identity is not canonical"
      | none ↦
          if ends_with (after b'/' value) (codes ".git")
          then some "network source identity must remove one trailing lowercase .git"
          else none
    ]

-- `isinstance(v, str)`, and its characters
abbrev pub text? : Value → Option Text
text? (str s) = some (codes s)
text? _ = none

unfoldable pub validate_network_identity : Value → Value → Option String
unfolding validate_network_value
validate_network_identity (obj identity) transport =
    if not (is_str (get identity "kind") "network-git")
    then none
    else elim (text? (get identity "value")) [
      | none ↦ none
      | some value ↦ validate_network_value value (is_str transport "ssh")
    ]
validate_network_identity _ transport = none

abbrev pub is_bad_ref_component : Text → Bool
is_bad_ref_component s = is_empty s || (starts_with s (codes ".") || ends_with s (codes ".lock"))

abbrev pub is_bad_ref_char : ℕ → Bool
is_bad_ref_char c = leb c 32 || (c == 127 || has c (codes "~^:?*[\\"))

unfoldable pub is_bad_ref : Text → Bool
unfolding starts_with ends_with contains text_eq split
is_bad_ref s =
    starts_with s (codes "/")
    || (ends_with s (codes "/")
        || (ends_with s (codes ".")
            || (any is_bad_ref_component (split b'/' s)
                || (contains s (codes "..")
                    || (contains s (codes "@{")
                        || (text_eq s (codes "@") || any is_bad_ref_char s))))))

unfoldable pub validate_git_ref_name : Option Text → Option String
unfolding is_scalar_text encoded_length is_bad_ref
validate_git_ref_name none = none
validate_git_ref_name (some value) =
    if not (is_scalar_text value)
    then some "Git ref name must contain only valid Unicode scalar text"
    else if not (leb 1 (encoded_length value) && leb (encoded_length value) 255)
    then some "Git ref name must encode to 1 through 255 UTF-8 bytes"
    else if is_bad_ref value
    then some "Git ref name is not a safe exact tag or branch name"
    else none

-- the width of a commit of an object format; `none` is another format
abbrev object_width : Value → Option ℕ
object_width v = if is_str v "sha1" then some 40 else if is_str v "sha256" then some 64 else none

unfoldable pub check_width : Value → Value → String → Option String
check_width value object_format message = elim (text? value) [
  | none ↦ none
  | some s ↦ elim (object_width object_format) [
    | none ↦ none
    | some width ↦ if length s == width then none else some message
  ]
]

unfoldable pub validate_structured_ref : Value → Value → Option String
unfolding validate_git_ref_name check_width
validate_structured_ref (obj ref) object_format =
    if is_str (get ref "kind") "tag" || is_str (get ref "kind") "branch"
    then validate_git_ref_name (text? (get ref "value"))
    else if is_str (get ref "kind") "revision"
    then check_width (get ref "value") object_format
        "structured revision width must match effective object format"
    else none
validate_structured_ref _ object_format = none
