-- ===== src/Sources/Effective.antt =====
-- An effective source against its declaration, `validate_effective_source` of tools/validate.py. How
-- floats compare is a parameter.
use curator_spec.Prelude.{
  Bool, Option, String, false, if◌then◌else◌, none, not, some, true, ◌&&◌, ◌||◌,
}
use curator_spec.Json.{Value, Fields, null, obj, bare, get, is_in, is_str, is_bool, field_names}
use curator_spec.Json.Equal.{Floats, same_value}
use curator_spec.Sources.Git.{
  validate_network_identity, validate_git_ref_name, validate_structured_ref, check_width, text?,
}

-- `d.get(key, {})`
abbrev pub dict_at : Fields → String → Value
dict_at d key = if is_in key (field_names d) then get d key else obj bare

-- `if error is not None: return error`
abbrev pub or_else : Option String → Option String → Option String
or_else (some error) rest = some error
or_else none rest = rest

-- `substitution.get("ref") if isinstance(substitution, dict) else None`
abbrev pub ref_of : Value → Value
ref_of (obj d) = get d "ref"
ref_of _ = null

-- a local or a network substitution against the kind of the identity
abbrev pub check_kinds : Value → Value → Option String
check_kinds (obj substitution) (obj identity) =
    let type = get substitution "type" in
    let kind = get identity "kind" in
    if is_str type "local-path" && not (is_str kind "operator-local-git")
    then some "local substitution requires operator-local-git effective identity"
    else if is_str type "network-git" && not (is_str kind "network-git")
    then some "network substitution requires network-git effective identity"
    else none
check_kinds _ _ = none

module _ (floats : Floats) where
  abbrev differs : Value → Value → Bool
  differs v w = not (same_value floats v w)

  abbrev pub other_commit : Fields → Value → Bool
  other_commit effective (obj locked) =
      differs (get effective "object_format") (get locked "object_format")
      || differs (get effective "commit") (get locked "hex")
  other_commit effective _ = true

  -- an unsubstituted source that is not the declared one
  abbrev pub is_moved : Fields → Fields → Bool
  is_moved declared effective =
      differs (get effective "identity") (get declared "identity")
      || (differs (get effective "transport") (get declared "transport")
          || other_commit effective (dict_at declared "locked_commit"))

  unfoldable pub validate_effective_source : Fields → Fields → Option String
  unfolding validate_network_identity validate_git_ref_name validate_structured_ref check_width
      same_value get
  validate_effective_source declared effective =
      or_else (validate_network_identity (get declared "identity") (get declared "transport")) (
        or_else
          (validate_network_identity (dict_at effective "identity") (get effective "transport"))
          (or_else (validate_git_ref_name (text? (get declared "tag"))) (
            or_else
              (check_width (get effective "commit") (get effective "object_format")
                "effective commit width must match object format")
              (or_else
                (validate_structured_ref (ref_of (dict_at effective "substitution"))
                  (get effective "object_format"))
                (if is_bool (get effective "substituted") false
                  then (if is_moved declared effective
                      then some "unsubstituted effective source must equal declared source and lock"
                      else none)
                  else check_kinds (dict_at effective "substitution")
                      (dict_at effective "identity"))))))
