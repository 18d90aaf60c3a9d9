-- ===== src/Posture/Diagnostics.antt =====
-- The diagnostics and the outcome of an operation under a posture: `_posture_diagnostics` of
-- tools/validate.py, and the outcome of `validate_security_posture_vectors`.
use curator_spec.Prelude.{
  Bool, Check, List, Option, Result, String, [], any, err, false, if◌then◌else◌, none, not, ok, pos,
  raise_if, some, str_eq, true, ◌&&◌, ◌>>=◌, ◌>>◌, ◌||◌, ◌∷◌,
}
use curator_spec.Json.{
  Value, Fields, bool, int, str, obj, bare, member, get, is_str, is_in, field_names, truthy, one_of,
  has_exactly,
}
use curator_spec.Posture.{EnvironmentSettings, Resolved, object_of, is_list, is_two}

abbrev pub diagnostic_order : List String
diagnostic_order =
    "security_posture_permissive" ∷ "source_allowlist_empty" ∷ "mcp_package_allowlist_empty"
    ∷ "passable_env_names_unbounded_refused" ∷ "registry_unreachable_during_install" ∷ []

-- `kind in ('install', 'profile-install')`
abbrev pub is_install : Value → Bool
is_install kind = one_of kind ("install" ∷ "profile-install" ∷ [])

abbrev pub is_hardened : Resolved → Bool
is_hardened r = str_eq r.profile "hardened"

abbrev pub is_permissive : Resolved → Bool
is_permissive r = str_eq r.profile "permissive"

-- the operation has its four members, with values that are admitted
abbrev pub check_operation : Fields → Check
check_operation operation = do
  raise_if
      (not (
        has_exactly operation (
          "kind" ∷ "mcp_declarations_present" ∷ "unreachable_trusted_registries"
          ∷ "artifacts_without_evidence" ∷ [])))
      "operation is not the closed four-member shape"
  raise_if
      (not (
        one_of (get operation "kind")
          ("install" ∷ "profile-install" ∷ "status" ∷ "status-check" ∷ [])))
      "operation kind is not closed"
  raise_if
      (not (is_list (get operation "unreachable_trusted_registries"))
        || not (is_list (get operation "artifacts_without_evidence")))
      "unreachable registries and artifacts must be lists"
  raise_if
      (if truthy (get operation "unreachable_trusted_registries")
        then not (truthy (get operation "artifacts_without_evidence"))
        else truthy (get operation "artifacts_without_evidence"))
      "names unreachable registries without artifacts, or artifacts without a registry"

abbrev pub operation_of : Fields → Result Fields
operation_of c = do
  operation ← object_of (get c "operation") "operation is not the closed four-member shape"
  check_operation operation
  ok operation

-- `found[code] = entry` under a condition
abbrev pub found_if : Bool → String → Fields → Fields → Fields
found_if true code entry found = member code (obj (member "code" (str code) entry)) found
found_if false code entry found = found

abbrev pub severity : String → Fields → Fields
severity s rest = member "severity" (str s) rest

-- the value of a setting of environments, which a schema-1 machine lacks
abbrev pub allowlist_of : Option EnvironmentSettings → Result Value
allowlist_of none = err "KeyError"
allowlist_of (some e) = ok e.mcp_package_allowlist.value

-- `schema2 and kind == 'profile-install' and not effective['mcp_package_allowlist']`
abbrev pub lacks_packages : Bool → Value → Resolved → Result Bool
lacks_packages schema2 kind r =
    if schema2 && is_str kind "profile-install"
    then (do v ← allowlist_of r.environments; ok (not (truthy v)))
    else ok false

abbrev pub lacks_sources : Resolved → Value → Bool
lacks_sources r kind = is_hardened r && (not (truthy r.allowed_sources.value) && is_install kind)

abbrev pub is_unbounded : Resolved → Value → Bool
is_unbounded r kind =
    is_hardened r && (r.passable_env_null_explicit && is_str kind "profile-install")

-- the entries by code, of an operation that lacks the packages or not
abbrev pub found_of : Fields → Resolved → Bool → Fields
found_of operation r packages =
    let kind = get operation "kind" in
    let unreachable = get operation "unreachable_trusted_registries" in
    found_if (is_permissive r) "security_posture_permissive"
      (severity "warning" (
        member "count" (int (pos 1))
          (member "names_knob" (bool true) (member "migration_hint" (bool true) bare))))
      (found_if (lacks_sources r kind) "source_allowlist_empty" (severity "error" bare) (
        found_if packages "mcp_package_allowlist_empty"
          (severity
            (if is_hardened r && truthy (get operation "mcp_declarations_present")
              then "error"
              else "warning")
            bare)
          (found_if (is_unbounded r kind) "passable_env_names_unbounded_refused"
            (severity "error" (member "names_knob" (bool true) bare))
            (found_if (truthy unreachable && is_install kind) "registry_unreachable_during_install"
              (severity (if is_permissive r then "warning" else "error") (
                member "registries" unreachable
                  (member "artifacts" (get operation "artifacts_without_evidence") bare)))
              bare))))

-- `[found[code] for code in ORDER if code in found]`
abbrev pub in_order : Fields → List String → List Value
in_order found [] = []
in_order found (code ∷ order) =
    if is_in code (field_names found)
    then get found code ∷ in_order found order
    else in_order found order

-- `case['machine'].get('schema_version') == 2`
abbrev pub schema2_of : Fields → Result Bool
schema2_of c = do
  machine ← object_of (get c "machine") "AttributeError"
  ok (is_two (get machine "schema_version"))

unfoldable pub posture_diagnostics : Fields → Resolved → Result (List Value)
unfolding get
posture_diagnostics c r = do
  operation ← operation_of c
  schema2 ← schema2_of c
  raise_if (not schema2 && truthy (get operation "mcp_declarations_present"))
      "schema-1 machine carries MCP declarations"
  packages ← lacks_packages schema2 (get operation "kind") r
  ok (in_order (found_of operation r packages) diagnostic_order)

-- `entry['severity'] == 'error'` of an entry that the code made
abbrev pub is_error : Value → Bool
is_error (obj entry) = is_str (get entry "severity") "error"
is_error _ = false

-- A status check of a hardened machine that its own settings contradict.
abbrev pub contradicts : Bool → Fields → Resolved → Result Bool
contradicts schema2 operation r =
    if not (is_hardened r)
    then ok false
    else if not (truthy r.allowed_sources.value)
    then ok true
    else if not schema2
    then ok false
    else if r.passable_env_null_explicit
    then ok true
    else (do
      v ← allowlist_of r.environments
      ok (not (truthy v) && truthy (get operation "mcp_declarations_present")))

abbrev pub status_check : Bool → Result String
status_check against = ok (if against then "non-current" else "current")

abbrev pub outcome_of : Fields → Resolved → List Value → Fields → Result String
outcome_of c r diagnostics operation =
    if is_install (get operation "kind")
    then ok (if any is_error diagnostics then "refused" else "proceeds")
    else if is_str (get operation "kind") "status"
    then ok "current"
    else schema2_of c >>= λ schema2. contradicts schema2 operation r >>= status_check

unfoldable pub posture_outcome : Fields → Resolved → List Value → Result String
unfolding get
posture_outcome c r diagnostics =
    object_of (get c "operation") "TypeError" >>= outcome_of c r diagnostics
