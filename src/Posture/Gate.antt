-- ===== src/Posture/Gate.antt =====
-- The gate of the posture vectors, `validate_security_posture_vectors` of tools/validate.py. How
-- floats compare is a parameter.
use curator_spec.Prelude.{
  Bool, Check, List, Option, Result, String, [], all, err, false, for_each, if◌then◌else◌, map,
  none, not, ok, raise_if, some, ◌&&◌, ◌++◌, ◌>>=◌, ◌>>◌, ◌||◌, ◌∷◌,
}
use curator_spec.Json.{
  Value, Fields, str, arr, obj, bare, get, is_in, member, truthy, is_bool, is_str, is_null, values,
  one_of,
}
use curator_spec.Json.Equal.{Floats, same_value}
use curator_spec.Cases.{cases, require_named_cases, name_of, name_text, is_name}
use curator_spec.Json.Read.{list_of}
use curator_spec.Posture.{
  Resolved, list_value, has_key, object_of, object_at, is_one, array, effective_dict, sources_dict,
  permissive_defaults, hardened_defaults,
}
use curator_spec.Posture.Resolve.{posture_resolve}
use curator_spec.Posture.Diagnostics.{posture_diagnostics, posture_outcome}
use curator_spec.Posture.Rows.{Row, row_dict, posture_status_rows, status_gates, schema1_gates}
use curator_spec.Posture.Scenario.{differs, posture_check_scenario}

abbrev pub posture_codes : List String
posture_codes =
    "source_allowlist_empty" ∷ "passable_env_names_unbounded_refused"
    ∷ "security_posture_permissive" ∷ "registry_unreachable_during_install" ∷ []

abbrev pub posture_refusals : List String
posture_refusals =
    "source_allowlist_empty" ∷ "mcp_package_allowlist_empty"
    ∷ "passable_env_names_unbounded_refused" ∷ []

abbrev pub posture_cases : List String
posture_cases =
    "revision-A-default-permissive-status" ∷ "revision-B-default-hardened-flip-install"
    ∷ "explicit-hardened-effective-defaults" ∷ "explicit-knob-beats-profile-default"
    ∷ "locked-value-beats-explicit" ∷ "locked-posture-beats-explicit-permissive"
    ∷ "refusal-source-allowlist-empty-explicit" ∷ "refusal-mcp-allowlist-empty-with-declarations"
    ∷ "hardened-empty-mcp-allowlist-without-declarations-warns" ∷ "refusal-passable-env-null"
    ∷ "revision-A-permissive-warning-once-install" ∷ "unreachable-registry-permissive-warns"
    ∷ "unreachable-registry-hardened-refuses" ∷ "schema1-machine-is-permissive"
    ∷ "hardened-contradiction-status-check-non-current"
    ∷ "hardened-absent-passthrough-follows-s4-warn" ∷ "posture-rows-flipped-revisions" ∷ []

-- `set(a) == set(b)`
abbrev pub same_names : List String → List String → Bool
same_names xs ys = all (λ x. is_in x ys) xs && all (λ y. is_in y xs) ys

module _ (floats : Floats) where
  abbrev rows_value : List Row → Value
  rows_value rows = arr (list_value (map row_dict rows))

  -- `[row.get('gate') for row in rows]`
  abbrev gates_in : List Value → Result (List Value)
  gates_in [] = ok []
  gates_in (obj d ∷ rest) = do gates ← gates_in rest; ok (get d "gate" ∷ gates)
  gates_in (_ ∷ rest) = err "AttributeError"

  abbrev gates_of : Value → String → Result (List Value)
  gates_of (arr items) message = gates_in (values items)
  gates_of _ message = err message

  abbrev same_list : List Value → List Value → Bool
  same_list xs ys = same_value floats (arr (list_value xs)) (arr (list_value ys))

  abbrev pub check_rows : Value → List Row → String → String → Check
  check_rows recorded rows unordered wrong = do
    gates ← gates_of recorded unordered
    raise_if (not (same_list gates (map (λ r. str r.gate) rows))) unordered
    raise_if (differs floats recorded (rows_value rows)) wrong

  abbrev pub check_status_rows : Fields → List Row × Option (List Row) → Check
  check_status_rows expected (curator, env) = do
    check_rows (get expected "curator_status_rows") curator
        "curator status rows are not the closed ordered set"
        "curator status rows do not follow their inputs"
    (elim env [
      | none ↦
          raise_if (not (is_null (get expected "env_status_rows")))
            "schema-1 machine carries env status rows"
      | some rows ↦
          check_rows (get expected "env_status_rows") rows
            "env status rows are not the closed ordered set"
            "env status rows do not follow their inputs"
    ])

  -- What a case contributes: the codes of its diagnostics.
  abbrev pub codes_of : List Value → List String
  codes_of [] = []
  codes_of (obj entry ∷ rest) = name_text (get entry "code") ∷ codes_of rest
  codes_of (_ ∷ rest) = codes_of rest

  abbrev pub other_profile : Fields → Resolved → Bool
  other_profile expected r =
      differs floats (get expected "profile") (str r.profile)
      || differs floats (get expected "profile_source") (str r.profile_source)

  abbrev pub other_values : Fields → Resolved → Bool
  other_values expected r =
      differs floats (get expected "effective") (effective_dict r)
      || differs floats (get expected "sources") (sources_dict r)

  unfoldable pub check_posture_case : Fields → Result (List String)
  unfolding posture_resolve posture_check_scenario posture_diagnostics posture_outcome
      posture_status_rows
  check_posture_case c = do
    r ← posture_resolve c
    posture_check_scenario floats (name_text (name_of c)) c r.profile r.profile_source
    expected ← object_of (get c "expected") "carries no expected block"
    raise_if (other_profile expected r) "profile does not follow its inputs"
    raise_if (other_values expected r) "effective values do not follow their inputs"
    raise_if
        (not (is_bool (get expected "passable_env_null_explicit") r.passable_env_null_explicit))
        "null-explicit flag does not follow its inputs"
    diagnostics ← posture_diagnostics c r
    raise_if (differs floats (get expected "diagnostics") (arr (list_value diagnostics)))
        "diagnostics do not follow their inputs"
    outcome ← posture_outcome c r diagnostics
    raise_if (differs floats (get expected "outcome") (str outcome))
        "outcome does not follow its inputs"
    rows ← posture_status_rows c r
    check_status_rows expected rows
    ok (codes_of diagnostics)

  abbrev pub check_posture_cases : List Fields → Result (List String)
  check_posture_cases [] = ok []
  check_posture_cases (c ∷ cs) = do
    seen ← check_posture_case c
    rest ← check_posture_cases cs
    ok (seen ++ rest)

  -- `revisions[name]`: the last entry of a name counts.
  abbrev revision : String → List Value → Option Fields
  revision name [] = none
  revision name (obj entry ∷ rest) = elim (revision name rest) [
    | some found ↦ some found
    | none ↦ if is_str (get entry "name") name then some entry else none
  ]
  revision name (_ ∷ rest) = revision name rest

  abbrev check_default : Option Fields → String → Check
  check_default none default = err "rollout revisions are not exactly A and B"
  check_default (some entry) default =
      raise_if (not (is_str (get entry "posture_default") default))
        "revision defaults to the wrong posture"

  -- the names of the entries are A and B, each with its default
  abbrev check_revisions : List Value → Check
  check_revisions vs = do
    for_each vs (λ v. elim v [
      | obj entry ↦
          raise_if (not (one_of (get entry "name") ("A" ∷ "B" ∷ [])))
            "rollout revisions are not exactly A and B"
      | _ ↦ err "AttributeError"
    ])
    check_default (revision "A" vs) "permissive"
    check_default (revision "B" vs) "hardened"

  abbrev check_vocabularies : Fields → Check
  check_vocabularies vector = do
    raise_if (differs floats (get vector "postures") (array ("permissive" ∷ "hardened" ∷ [])))
        "postures are not the closed two-value set"
    raise_if
        (differs floats (get vector "profile_defaults") (
          obj (
            member "permissive" (obj permissive_defaults)
              (member "hardened" (obj hardened_defaults) bare))))
        "profile defaults are not the section 7.1 table"
    raise_if (differs floats (get vector "profile_refusals") (array posture_refusals))
        "refusals are not the closed three-code set"
    raise_if (differs floats (get vector "diagnostics") (array posture_codes))
        "diagnostics are not the closed four-code set"
    raise_if
        (differs floats (get vector "referenced_diagnostics")
          (array ("mcp_package_allowlist_empty" ∷ [])))
        "referenced diagnostics are not exact"
    raise_if
        (differs floats (get vector "provenance")
          (array ("profile" ∷ "explicit" ∷ "lock" ∷ "shipped" ∷ [])))
        "provenance is not the closed four-value set"
    raise_if (differs floats (get vector "status_gates") (array status_gates))
        "status gates are not the closed ordered thirteen-gate set"
    raise_if (differs floats (get vector "schema1_gates") (array schema1_gates))
        "schema-1 gates are not the closed ordered manager subset"

  -- a list of texts, none of which is empty
  abbrev are_notes : Value → Bool
  are_notes (arr items) = truthy (arr items) && all is_name (values items)
  are_notes _ = false

  abbrev pub check_envelope : Fields → Check
  check_envelope vector = do
    raise_if
        (not (is_one (get vector "schema_version"))
          || not (is_str (get vector "protocol_version") "1.0.0-rc.14")
          || not (is_str (get vector "capability") "security-posture")
          || differs floats (get vector "findings") (array ("S1" ∷ "S3" ∷ [])))
        "vector has the wrong capability identity"
    entries ←
        (if has_key vector "rollout_revisions"
          then list_of (get vector "rollout_revisions")
          else ok [])
    check_revisions entries
    check_vocabularies vector
    binding ← object_at vector "execution_binding" "AttributeError"
    raise_if
        (differs floats (get binding "downstream_owner_tasks") (array ("TASK-260910-1sapuy" ∷ [])))
        "execution binding does not name the downstream owner task"
    raise_if (not (are_notes (get vector "scope_notes")))
        "scope notes are not a non-empty note list"

  unfoldable pub validate_security_posture_vectors : Fields → Check
  unfolding check_posture_case require_named_cases same_value
  validate_security_posture_vectors vector = do
    check_envelope vector
    require_named_cases (get vector "cases") []
    let cs = cases (get vector "cases")
    raise_if (not (same_names (map (λ c. name_text (name_of c)) cs) posture_cases))
        "case inventory is not exact"
    seen ← check_posture_cases cs
    raise_if (not (same_names seen ("mcp_package_allowlist_empty" ∷ posture_codes)))
        "cases do not cover the diagnostics"
