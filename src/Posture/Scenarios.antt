-- ===== src/Posture/Scenarios.antt =====
-- The scenarios of the posture cases, `SECURITY_POSTURE_SCENARIOS` of tools/validate.py: for each
-- case the paths that it pins and the values it wants there. The paths are the same but for the
-- members that are either absent as a whole or pinned one by one; one scenario names system.security_posture
-- before the system's other members, where the order only decides which message is raised.
use curator_spec.Prelude.{Bool, List, String, [], false, pos, true, ◌++◌, ◌∷◌}
use curator_spec.Json.{Value, bool, int, str, null, obj, member, bare}
use curator_spec.Posture.{array}

abbrev pub absent : Value
absent = str "<absent>"

-- `{"nonempty": True}` and `{"present": None}`
abbrev nonempty : Value
nonempty = obj (member "nonempty" (bool true) bare)

abbrev null_value : Value
null_value = obj (member "present" null bare)

abbrev yes : Value
yes = bool true

abbrev no : Value
no = bool false

abbrev machine_audit : Bool → List String
machine_audit true = "machine.audit.mode" ∷ "machine.audit.registry_policy" ∷ []
machine_audit false = "machine.audit" ∷ []

abbrev machine_environments : Bool → List String
machine_environments true =
    "machine.environments.mcp_package_allowlist" ∷ "machine.environments.passable_env_names"
    ∷ "machine.environments.transitive_system_modules"
    ∷ "machine.environments.require_source_signers" ∷ []
machine_environments false = "machine.environments" ∷ []

abbrev system_audit : Bool → List String
system_audit true = "system.audit.mode" ∷ "system.audit.registry_policy" ∷ []
system_audit false = "system.audit" ∷ []

-- the paths of a scenario, by what it pins one by one
abbrev pub scenario_paths : Bool → Bool → Bool → List String
scenario_paths audit environments system =
    "rollout_revision" ∷ "machine.schema_version" ∷ "machine.security_posture" ∷ machine_audit audit
    ++ "machine.allowed_sources" ∷ machine_environments environments
    ++ "system.locked" ∷ system_audit system
    ++ "system.allowed_sources" ∷ "system.security_posture" ∷ "system.environments"
      ∷ "shipped_revisions.hook_trust" ∷ "shipped_revisions.env_passthrough"
      ∷ "shipped_revisions.provider_trust_roots" ∷ "shipped_revisions.update_confirmation"
      ∷ "shipped_revisions.codex_seed" ∷ "operation.kind" ∷ "operation.mcp_declarations_present"
      ∷ "operation.unreachable_trusted_registries" ∷ "operation.artifacts_without_evidence"
      ∷ "effective.profile" ∷ "effective.profile_source" ∷ []

-- a path and the value that is wanted there
abbrev pub Pin : Type 0
Pin = String × Value

-- a scenario: its paths, each with its value
abbrev pinned : List String → List Value → List Pin
pinned (p ∷ ps) (v ∷ vs) = (p, v) ∷ pinned ps vs
pinned _ _ = []

abbrev pub revision_a_default_permissive_status : List Pin
revision_a_default_permissive_status = pinned (scenario_paths false false false) (
    (str "A" ∷ int (pos 2) ∷ absent ∷ absent ∷ absent ∷ [])
    ++ (absent ∷ [])
    ++ (absent ∷ absent ∷ absent ∷ absent ∷ absent ∷ [])
    ++ (str "A-warning" ∷ str "s4-enforce" ∷ str "revision-A" ∷ str "A-warning" ∷ str "A" ∷ [])
    ++ (str "status" ∷ no ∷ array [] ∷ array [] ∷ [])
    ++ (str "permissive" ∷ str "profile" ∷ []))

abbrev pub revision_b_default_hardened_flip_install : List Pin
revision_b_default_hardened_flip_install = pinned (scenario_paths false true false) (
    (str "B" ∷ int (pos 2) ∷ absent ∷ absent ∷ nonempty ∷ [])
    ++ (nonempty ∷ absent ∷ absent ∷ absent ∷ [])
    ++ (absent ∷ absent ∷ absent ∷ absent ∷ absent ∷ [])
    ++ (str "A-warning" ∷ str "s4-enforce" ∷ str "revision-A" ∷ str "A-warning" ∷ str "A" ∷ [])
    ++ (str "install" ∷ no ∷ array [] ∷ array [] ∷ [])
    ++ (str "hardened" ∷ str "profile" ∷ []))

abbrev pub explicit_hardened_effective_defaults : List Pin
explicit_hardened_effective_defaults = pinned (scenario_paths false false false) (
    (str "A" ∷ int (pos 2) ∷ str "hardened" ∷ absent ∷ absent ∷ [])
    ++ (absent ∷ [])
    ++ (absent ∷ absent ∷ absent ∷ absent ∷ absent ∷ [])
    ++ (str "A-warning" ∷ str "s4-enforce" ∷ str "revision-A" ∷ str "A-warning" ∷ str "A" ∷ [])
    ++ (str "status" ∷ no ∷ array [] ∷ array [] ∷ [])
    ++ (str "hardened" ∷ str "explicit" ∷ []))

abbrev pub explicit_knob_beats_profile_default : List Pin
explicit_knob_beats_profile_default = pinned (scenario_paths true true false) (
    (str "A" ∷ int (pos 2) ∷ str "hardened" ∷ str "advisory" ∷ absent ∷ nonempty ∷ [])
    ++ (nonempty ∷ absent ∷ absent ∷ absent ∷ [])
    ++ (absent ∷ absent ∷ absent ∷ absent ∷ absent ∷ [])
    ++ (str "A-warning" ∷ str "s4-enforce" ∷ str "revision-A" ∷ str "A-warning" ∷ str "A" ∷ [])
    ++ (str "install" ∷ no ∷ array [] ∷ array [] ∷ [])
    ++ (str "hardened" ∷ str "explicit" ∷ []))

abbrev pub locked_value_beats_explicit : List Pin
locked_value_beats_explicit = pinned (scenario_paths true false true) (
    (str "A" ∷ int (pos 2) ∷ absent ∷ str "advisory" ∷ str "advisory" ∷ absent ∷ [])
    ++ (absent ∷ [])
    ++ (array ("audit" ∷ []) ∷ str "strict" ∷ str "strict" ∷ absent ∷ absent ∷ absent ∷ [])
    ++ (str "A-warning" ∷ str "s4-enforce" ∷ str "revision-A" ∷ str "A-warning" ∷ str "A" ∷ [])
    ++ (str "status" ∷ no ∷ array [] ∷ array [] ∷ [])
    ++ (str "permissive" ∷ str "profile" ∷ []))

abbrev pub locked_posture_beats_explicit_permissive : List Pin
locked_posture_beats_explicit_permissive = pinned (scenario_paths false false false) (
    (str "A" ∷ int (pos 2) ∷ str "permissive" ∷ absent ∷ absent ∷ [])
    ++ (absent ∷ [])
    ++ (array ("security_posture" ∷ []) ∷ absent ∷ absent ∷ str "hardened" ∷ absent ∷ [])
    ++ (str "A-warning" ∷ str "s4-enforce" ∷ str "revision-A" ∷ str "A-warning" ∷ str "A" ∷ [])
    ++ (str "status" ∷ no ∷ array [] ∷ array [] ∷ [])
    ++ (str "hardened" ∷ str "lock" ∷ []))

abbrev pub refusal_source_allowlist_empty_explicit : List Pin
refusal_source_allowlist_empty_explicit = pinned (scenario_paths false false false) (
    (str "A" ∷ int (pos 2) ∷ str "hardened" ∷ absent ∷ array [] ∷ [])
    ++ (absent ∷ [])
    ++ (absent ∷ absent ∷ absent ∷ absent ∷ absent ∷ [])
    ++ (str "A-warning" ∷ str "s4-enforce" ∷ str "revision-A" ∷ str "A-warning" ∷ str "A" ∷ [])
    ++ (str "install" ∷ no ∷ array [] ∷ array [] ∷ [])
    ++ (str "hardened" ∷ str "explicit" ∷ []))

abbrev pub refusal_mcp_allowlist_empty_with_declarations : List Pin
refusal_mcp_allowlist_empty_with_declarations = pinned (scenario_paths false false false) (
    (str "B" ∷ int (pos 2) ∷ absent ∷ absent ∷ nonempty ∷ [])
    ++ (absent ∷ [])
    ++ (absent ∷ absent ∷ absent ∷ absent ∷ absent ∷ [])
    ++ (str "A-warning" ∷ str "s4-enforce" ∷ str "revision-A" ∷ str "A-warning" ∷ str "A" ∷ [])
    ++ (str "profile-install" ∷ yes ∷ array [] ∷ array [] ∷ [])
    ++ (str "hardened" ∷ str "profile" ∷ []))

abbrev pub hardened_empty_mcp_allowlist_without_declarations_warns : List Pin
hardened_empty_mcp_allowlist_without_declarations_warns =
    pinned (scenario_paths false false false) (
      (str "B" ∷ int (pos 2) ∷ str "hardened" ∷ absent ∷ nonempty ∷ [])
      ++ (absent ∷ [])
      ++ (absent ∷ absent ∷ absent ∷ absent ∷ absent ∷ [])
      ++ (str "A-warning" ∷ str "s4-enforce" ∷ str "revision-A" ∷ str "A-warning" ∷ str "A" ∷ [])
      ++ (str "profile-install" ∷ no ∷ array [] ∷ array [] ∷ [])
      ++ (str "hardened" ∷ str "explicit" ∷ []))

abbrev pub refusal_passable_env_null : List Pin
refusal_passable_env_null = pinned (scenario_paths false true false) (
    (str "A" ∷ int (pos 2) ∷ str "hardened" ∷ absent ∷ nonempty ∷ [])
    ++ (nonempty ∷ null_value ∷ absent ∷ absent ∷ [])
    ++ (absent ∷ absent ∷ absent ∷ absent ∷ absent ∷ [])
    ++ (str "A-warning" ∷ str "s4-enforce" ∷ str "revision-A" ∷ str "A-warning" ∷ str "A" ∷ [])
    ++ (str "profile-install" ∷ yes ∷ array [] ∷ array [] ∷ [])
    ++ (str "hardened" ∷ str "explicit" ∷ []))

abbrev pub revision_a_permissive_warning_once_install : List Pin
revision_a_permissive_warning_once_install = pinned (scenario_paths false false false) (
    (str "A" ∷ int (pos 2) ∷ absent ∷ absent ∷ absent ∷ [])
    ++ (absent ∷ [])
    ++ (absent ∷ absent ∷ absent ∷ absent ∷ absent ∷ [])
    ++ (str "A-warning" ∷ str "s4-enforce" ∷ str "revision-A" ∷ str "A-warning" ∷ str "A" ∷ [])
    ++ (str "install" ∷ no ∷ array [] ∷ array [] ∷ [])
    ++ (str "permissive" ∷ str "profile" ∷ []))

abbrev pub unreachable_registry_permissive_warns : List Pin
unreachable_registry_permissive_warns = pinned (scenario_paths false false false) (
    (str "A" ∷ int (pos 2) ∷ absent ∷ absent ∷ nonempty ∷ [])
    ++ (absent ∷ [])
    ++ (absent ∷ absent ∷ absent ∷ absent ∷ absent ∷ [])
    ++ (str "A-warning" ∷ str "s4-enforce" ∷ str "revision-A" ∷ str "A-warning" ∷ str "A" ∷ [])
    ++ (str "install" ∷ no ∷ nonempty ∷ nonempty ∷ [])
    ++ (str "permissive" ∷ str "profile" ∷ []))

abbrev pub unreachable_registry_hardened_refuses : List Pin
unreachable_registry_hardened_refuses = pinned (scenario_paths false false false) (
    (str "A" ∷ int (pos 2) ∷ str "hardened" ∷ absent ∷ nonempty ∷ [])
    ++ (absent ∷ [])
    ++ (absent ∷ absent ∷ absent ∷ absent ∷ absent ∷ [])
    ++ (str "A-warning" ∷ str "s4-enforce" ∷ str "revision-A" ∷ str "A-warning" ∷ str "A" ∷ [])
    ++ (str "install" ∷ no ∷ nonempty ∷ nonempty ∷ [])
    ++ (str "hardened" ∷ str "explicit" ∷ []))

abbrev pub schema1_machine_is_permissive : List Pin
schema1_machine_is_permissive = pinned (scenario_paths true false false) (
    (str "B" ∷ int (pos 1) ∷ absent ∷ str "advisory" ∷ absent ∷ absent ∷ [])
    ++ (absent ∷ [])
    ++ (absent ∷ absent ∷ absent ∷ absent ∷ absent ∷ [])
    ++ (str "A-warning" ∷ str "s4-enforce" ∷ str "revision-A" ∷ str "A-warning" ∷ str "A" ∷ [])
    ++ (str "install" ∷ no ∷ array [] ∷ array [] ∷ [])
    ++ (str "permissive" ∷ str "profile" ∷ []))

abbrev pub hardened_contradiction_status_check_non_current : List Pin
hardened_contradiction_status_check_non_current = pinned (scenario_paths false false false) (
    (str "B" ∷ int (pos 2) ∷ absent ∷ absent ∷ absent ∷ [])
    ++ (absent ∷ [])
    ++ (absent ∷ absent ∷ absent ∷ absent ∷ absent ∷ [])
    ++ (str "A-warning" ∷ str "s4-enforce" ∷ str "revision-A" ∷ str "A-warning" ∷ str "A" ∷ [])
    ++ (str "status-check" ∷ yes ∷ array [] ∷ array [] ∷ [])
    ++ (str "hardened" ∷ str "profile" ∷ []))

abbrev pub hardened_absent_passthrough_follows_s4_warn : List Pin
hardened_absent_passthrough_follows_s4_warn = pinned (scenario_paths false true false) (
    (str "A" ∷ int (pos 2) ∷ str "hardened" ∷ absent ∷ nonempty ∷ [])
    ++ (nonempty ∷ absent ∷ absent ∷ absent ∷ [])
    ++ (absent ∷ absent ∷ absent ∷ absent ∷ absent ∷ [])
    ++ (str "A-warning" ∷ str "s4-warn" ∷ str "revision-A" ∷ str "A-warning" ∷ str "A" ∷ [])
    ++ (str "profile-install" ∷ yes ∷ array [] ∷ array [] ∷ [])
    ++ (str "hardened" ∷ str "explicit" ∷ []))

abbrev pub posture_rows_flipped_revisions : List Pin
posture_rows_flipped_revisions = pinned (scenario_paths true true false) (
    (str "B" ∷ int (pos 2) ∷ str "hardened" ∷ str "strict" ∷ absent ∷ nonempty ∷ [])
    ++ (nonempty ∷ absent ∷ str "error" ∷ yes ∷ [])
    ++ (absent ∷ absent ∷ absent ∷ absent ∷ absent ∷ [])
    ++ (str "B-enforcing" ∷ str "s4-enforce" ∷ str "revision-B" ∷ str "B-flip" ∷ str "B" ∷ [])
    ++ (str "status" ∷ yes ∷ array [] ∷ array [] ∷ [])
    ++ (str "hardened" ∷ str "explicit" ∷ []))

abbrev pub scenarios : List (String × List Pin)
scenarios =
    ("revision-A-default-permissive-status", revision_a_default_permissive_status)
    ∷ ("revision-B-default-hardened-flip-install", revision_b_default_hardened_flip_install)
    ∷ ("explicit-hardened-effective-defaults", explicit_hardened_effective_defaults)
    ∷ ("explicit-knob-beats-profile-default", explicit_knob_beats_profile_default)
    ∷ ("locked-value-beats-explicit", locked_value_beats_explicit)
    ∷ ("locked-posture-beats-explicit-permissive", locked_posture_beats_explicit_permissive)
    ∷ ("refusal-source-allowlist-empty-explicit", refusal_source_allowlist_empty_explicit)
    ∷ (
      "refusal-mcp-allowlist-empty-with-declarations",
      refusal_mcp_allowlist_empty_with_declarations,
    )
    ∷ (
      "hardened-empty-mcp-allowlist-without-declarations-warns",
      hardened_empty_mcp_allowlist_without_declarations_warns,
    )
    ∷ ("refusal-passable-env-null", refusal_passable_env_null)
    ∷ ("revision-A-permissive-warning-once-install", revision_a_permissive_warning_once_install)
    ∷ ("unreachable-registry-permissive-warns", unreachable_registry_permissive_warns)
    ∷ ("unreachable-registry-hardened-refuses", unreachable_registry_hardened_refuses)
    ∷ ("schema1-machine-is-permissive", schema1_machine_is_permissive)
    ∷ (
      "hardened-contradiction-status-check-non-current",
      hardened_contradiction_status_check_non_current,
    )
    ∷ ("hardened-absent-passthrough-follows-s4-warn", hardened_absent_passthrough_follows_s4_warn)
    ∷ ("posture-rows-flipped-revisions", posture_rows_flipped_revisions)
    ∷ []
