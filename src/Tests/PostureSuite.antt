-- ===== src/Tests/PostureSuite.antt =====
-- The inputs of the cases of conformance/v1/vectors/security-posture.json, with the outputs that the
-- model derives from them, and the gate over the suite.
use curator_spec.Prelude.{
  Bool, Elem, List, Option, Result, String, [], err, false, inl, inr, map, none, ok, pos, refl,
  some, str_eq, true, ◌>>=◌, ◌∷◌, ◌≡◌,
}
use curator_spec.Json.{Value, Fields, null, bool, int, str, arr, obj, member, bare, get}
use curator_spec.Json.Equal.{Floats}
use curator_spec.Cases.{cases}
use curator_spec.Posture.{
  array, list_value, effective_dict, sources_dict, permissive_defaults, hardened_defaults,
}
use curator_spec.Posture.Resolve.{posture_resolve}
use curator_spec.Posture.Diagnostics.{posture_diagnostics, posture_outcome}
use curator_spec.Posture.Rows.{Row, row_dict, posture_status_rows, status_gates, schema1_gates}
use curator_spec.Posture.Gate.{validate_security_posture_vectors, posture_codes, posture_refusals}
use curator_spec.Posture.Sound.{IsRecorded, posture_gate_sound}

abbrev dict : List (String × Value) → Fields
dict [] = bare
dict ((k, v) ∷ rest) = member k v (dict rest)

abbrev rows : Option (List Row) → Value
rows none = null
rows (some rs) = arr (list_value (map row_dict rs))

-- what a case with these inputs records
abbrev expected : Fields → Result Fields
expected c = do
  r ← posture_resolve c
  ds ← posture_diagnostics c r
  outcome ← posture_outcome c r ds
  status ← posture_status_rows c r
  ok (
      dict (
        ("profile", str r.profile)
        ∷ ("profile_source", str r.profile_source)
        ∷ ("effective", effective_dict r)
        ∷ ("sources", sources_dict r)
        ∷ ("passable_env_null_explicit", bool r.passable_env_null_explicit)
        ∷ ("diagnostics", arr (list_value ds))
        ∷ ("outcome", str outcome)
        ∷ ("curator_status_rows", rows (some status.0))
        ∷ ("env_status_rows", rows status.1)
        ∷ []))

abbrev recorded : Fields → Result Fields → Value
recorded c (ok e) = obj (member "expected" (obj e) c)
recorded c (err message) = obj c

abbrev shipped : Value
shipped = obj (
    dict (
      ("hook_trust", str "A-warning")
      ∷ ("env_passthrough", str "s4-enforce")
      ∷ ("provider_trust_roots", str "revision-A")
      ∷ ("update_confirmation", str "A-warning")
      ∷ ("codex_seed", str "A")
      ∷ []))

abbrev flipped : Value
flipped = obj (
    dict (
      ("hook_trust", str "B-enforcing")
      ∷ ("env_passthrough", str "s4-enforce")
      ∷ ("provider_trust_roots", str "revision-B")
      ∷ ("update_confirmation", str "B-flip")
      ∷ ("codex_seed", str "B")
      ∷ []))

-- an operation of a kind, with MCP declarations or not
abbrev operation : String → Bool → List String → List String → Value
operation kind declared unreachable artifacts = obj (
    dict (
      ("kind", str kind)
      ∷ ("mcp_declarations_present", bool declared)
      ∷ ("unreachable_trusted_registries", array unreachable)
      ∷ ("artifacts_without_evidence", array artifacts)
      ∷ []))

abbrev case_of :
    String → String → Value → List (String × Value) → List (String × Value) → Value → Value
case_of name revision shipped machine system operation =
    let c = dict (
      ("name", str name)
      ∷ ("rollout_revision", str revision)
      ∷ ("shipped_revisions", shipped)
      ∷ ("machine", obj (dict machine))
      ∷ ("system", obj (dict system))
      ∷ ("operation", operation)
      ∷ []) in
    recorded c (expected c)

abbrev suite : List Value
suite =
    case_of "revision-A-default-permissive-status" "A" shipped
      (("schema_version", int (pos 2)) ∷ []) ([]) (operation "status" false [] [])
    ∷ case_of "revision-B-default-hardened-flip-install" "B" shipped
        (("schema_version", int (pos 2))
          ∷ ("allowed_sources", array ("https://github.com/example/skills" ∷ []))
          ∷ (
            "environments",
            obj (
                dict
                  (("mcp_package_allowlist", array ("https://github.com/example/mcp" ∷ [])) ∷ [])),
          )
          ∷ [])
        ([]) (operation "install" false [] [])
    ∷ case_of "explicit-hardened-effective-defaults" "A" shipped
        (("schema_version", int (pos 2)) ∷ ("security_posture", str "hardened") ∷ []) ([])
        (operation "status" false [] [])
    ∷ case_of "explicit-knob-beats-profile-default" "A" shipped
        (("schema_version", int (pos 2))
          ∷ ("security_posture", str "hardened")
          ∷ ("audit", obj (dict (("mode", str "advisory") ∷ [])))
          ∷ ("allowed_sources", array ("https://github.com/example/skills" ∷ []))
          ∷ (
            "environments",
            obj (
                dict
                  (("mcp_package_allowlist", array ("https://github.com/example/mcp" ∷ [])) ∷ [])),
          )
          ∷ [])
        ([]) (operation "install" false [] [])
    ∷ case_of "locked-value-beats-explicit" "A" shipped
        (("schema_version", int (pos 2))
          ∷ (
            "audit",
            obj (dict (("mode", str "advisory") ∷ ("registry_policy", str "advisory") ∷ [])),
          )
          ∷ [])
        (("locked", array ("audit" ∷ []))
          ∷ ("audit", obj (dict (("mode", str "strict") ∷ ("registry_policy", str "strict") ∷ [])))
          ∷ [])
        (operation "status" false [] [])
    ∷ case_of "locked-posture-beats-explicit-permissive" "A" shipped
        (("schema_version", int (pos 2)) ∷ ("security_posture", str "permissive") ∷ [])
        (("locked", array ("security_posture" ∷ [])) ∷ ("security_posture", str "hardened") ∷ [])
        (operation "status" false [] [])
    ∷ case_of "refusal-source-allowlist-empty-explicit" "A" shipped
        (("schema_version", int (pos 2))
          ∷ ("security_posture", str "hardened")
          ∷ ("allowed_sources", array [])
          ∷ [])
        ([]) (operation "install" false [] [])
    ∷ case_of "refusal-mcp-allowlist-empty-with-declarations" "B" shipped
        (("schema_version", int (pos 2))
          ∷ ("allowed_sources", array ("https://github.com/example/skills" ∷ []))
          ∷ [])
        ([]) (operation "profile-install" true [] [])
    ∷ case_of "hardened-empty-mcp-allowlist-without-declarations-warns" "B" shipped
        (("schema_version", int (pos 2))
          ∷ ("security_posture", str "hardened")
          ∷ ("allowed_sources", array ("https://github.com/example/skills" ∷ []))
          ∷ [])
        ([]) (operation "profile-install" false [] [])
    ∷ case_of "refusal-passable-env-null" "A" shipped
        (("schema_version", int (pos 2))
          ∷ ("security_posture", str "hardened")
          ∷ ("allowed_sources", array ("https://github.com/example/skills" ∷ []))
          ∷ (
            "environments",
            obj (
                dict (
                  ("mcp_package_allowlist", array ("https://github.com/example/mcp" ∷ []))
                  ∷ ("passable_env_names", null)
                  ∷ [])),
          )
          ∷ [])
        ([]) (operation "profile-install" true [] [])
    ∷ case_of "revision-A-permissive-warning-once-install" "A" shipped
        (("schema_version", int (pos 2)) ∷ []) ([]) (operation "install" false [] [])
    ∷ case_of "unreachable-registry-permissive-warns" "A" shipped
        (("schema_version", int (pos 2))
          ∷ ("allowed_sources", array ("https://github.com/example/skills" ∷ []))
          ∷ [])
        ([])
        (operation "install" false ("https://registry.example" ∷ [])
          ("golden-skill@0123456789abcdef0123456789abcdef01234567" ∷ []))
    ∷ case_of "unreachable-registry-hardened-refuses" "A" shipped
        (("schema_version", int (pos 2))
          ∷ ("security_posture", str "hardened")
          ∷ ("allowed_sources", array ("https://github.com/example/skills" ∷ []))
          ∷ [])
        ([])
        (operation "install" false ("https://registry.example" ∷ [])
          ("golden-skill@0123456789abcdef0123456789abcdef01234567" ∷ []))
    ∷ case_of "schema1-machine-is-permissive" "B" shipped
        (("schema_version", int (pos 1))
          ∷ ("audit", obj (dict (("mode", str "advisory") ∷ [])))
          ∷ [])
        ([]) (operation "install" false [] [])
    ∷ case_of "hardened-contradiction-status-check-non-current" "B" shipped
        (("schema_version", int (pos 2)) ∷ []) ([]) (operation "status-check" true [] [])
    ∷ case_of "hardened-absent-passthrough-follows-s4-warn" "A"
        (obj (
          dict (
            ("hook_trust", str "A-warning")
            ∷ ("env_passthrough", str "s4-warn")
            ∷ ("provider_trust_roots", str "revision-A")
            ∷ ("update_confirmation", str "A-warning")
            ∷ ("codex_seed", str "A")
            ∷ [])))
        (("schema_version", int (pos 2))
          ∷ ("security_posture", str "hardened")
          ∷ ("allowed_sources", array ("https://github.com/example/skills" ∷ []))
          ∷ (
            "environments",
            obj (
                dict
                  (("mcp_package_allowlist", array ("https://github.com/example/mcp" ∷ [])) ∷ [])),
          )
          ∷ [])
        ([]) (operation "profile-install" true [] [])
    ∷ case_of "posture-rows-flipped-revisions" "B" flipped
        (("schema_version", int (pos 2))
          ∷ ("security_posture", str "hardened")
          ∷ ("audit", obj (dict (("mode", str "strict") ∷ [])))
          ∷ (
            "allowed_sources",
            array ("https://github.com/example/a" ∷ "https://github.com/example/b" ∷ []),
          )
          ∷ (
            "environments",
            obj (
                dict (
                  ("mcp_package_allowlist", array ("https://github.com/example/mcp" ∷ []))
                  ∷ ("transitive_system_modules", str "error")
                  ∷ ("require_source_signers", bool true)
                  ∷ [])),
          )
          ∷ [])
        ([]) (operation "status" true [] [])
    ∷ []

abbrev vector : Fields
vector = dict (
    ("schema_version", int (pos 1))
    ∷ ("protocol_version", str "1.0.0-rc.14")
    ∷ ("capability", str "security-posture")
    ∷ ("findings", array ("S1" ∷ "S3" ∷ []))
    ∷ (
      "rollout_revisions",
      arr (
          list_value (
            obj (dict (("name", str "A") ∷ ("posture_default", str "permissive") ∷ []))
            ∷ obj (dict (("name", str "B") ∷ ("posture_default", str "hardened") ∷ []))
            ∷ [])),
    )
    ∷ ("postures", array ("permissive" ∷ "hardened" ∷ []))
    ∷ (
      "profile_defaults",
      obj (
          dict
            (("permissive", obj permissive_defaults) ∷ ("hardened", obj hardened_defaults) ∷ [])),
    )
    ∷ ("profile_refusals", array posture_refusals)
    ∷ ("diagnostics", array posture_codes)
    ∷ ("referenced_diagnostics", array ("mcp_package_allowlist_empty" ∷ []))
    ∷ ("provenance", array ("profile" ∷ "explicit" ∷ "lock" ∷ "shipped" ∷ []))
    ∷ ("status_gates", array status_gates)
    ∷ ("schema1_gates", array schema1_gates)
    ∷ (
      "execution_binding",
      obj (dict (("downstream_owner_tasks", array ("TASK-260910-1sapuy" ∷ [])) ∷ [])),
    )
    ∷ ("scope_notes", array ("structural only" ∷ []))
    ∷ ("cases", arr (list_value suite))
    ∷ [])

abbrev floats : Floats
floats = record { equals_int = λ s n. false; equals_float = str_eq }

passes : validate_security_posture_vectors floats vector ≡ ok tt
unfolding validate_security_posture_vectors
passes = refl

posture_gate_sound_example :
    (c : Fields) × Elem c (cases (get vector "cases"))
    × (get c "name" ≡ str "refusal-passable-env-null")
    × IsRecorded floats c
posture_gate_sound_example =
    posture_gate_sound floats vector "refusal-passable-env-null" passes
      (inr (inr (inr (inr (inr (inr (inr (inr (inr (inl refl))))))))))
