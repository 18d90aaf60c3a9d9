-- ===== src/Tests/PostureRuns.antt =====
-- Postures of small machines, and the theorems at them.
use curator_spec.Prelude.{List, String, [], false, ok, pos, refl, some, true, ◌∷◌, ◌≡◌}
use curator_spec.Json.{Value, Fields, bool, int, str, obj, member, bare}
use curator_spec.Posture.{Setting, Resolved, array}
use curator_spec.Posture.Resolve.{Inputs, posture_inputs, posture_resolve}
use curator_spec.Posture.Diagnostics.{posture_diagnostics, posture_outcome}
use curator_spec.Posture.Refused.{IsJudged, posture_diagnostics-IsJudged}
use curator_spec.Posture.Rows.{Row, row, posture_status_rows}
use curator_spec.Posture.Locked.{IsLocked, posture_resolve-IsLocked}

abbrev shipped : Value
shipped = obj (
    member "hook_trust" (str "A-warning") (
      member "env_passthrough" (str "s4-enforce") (
        member "provider_trust_roots" (str "revision-A")
          (member "update_confirmation" (str "A-warning") (member "codex_seed" (str "A") bare)))))

-- a machine that asks for the permissive posture, and what its system says
abbrev machine : Value
machine = obj (
    member "schema_version" (int (pos 2)) (
      member "security_posture" (str "permissive")
        (member "audit" (obj (member "mode" (str "advisory") bare)) bare)))

abbrev locking : Value
locking = obj (
    member "locked" (array ("security_posture" ∷ "audit" ∷ [])) (
      member "security_posture" (str "hardened") (
        member "audit"
          (obj (member "mode" (str "strict") (member "registry_policy" (str "strict") bare)))
          bare)))

abbrev operation : Value
operation = obj (
    member "kind" (str "install") (
      member "mcp_declarations_present" (bool false) (
        member "unreachable_trusted_registries" (array [])
          (member "artifacts_without_evidence" (array []) bare))))

abbrev case_with : Value → Fields
case_with system = member "rollout_revision" (str "A") (
    member "machine" machine (
      member "system" system
        (member "shipped_revisions" shipped (member "operation" operation bare))))

abbrev set : Value → String → Setting
set v source = record { value = v; source = source }

abbrev locked : Resolved
locked = record {
  profile = "hardened";
  profile_source = "lock";
  audit_mode = set (str "strict") "lock";
  audit_registry_policy = set (str "strict") "lock";
  allowed_sources = set (array []) "profile";
  environments = some (record {
    mcp_package_allowlist = set (array []) "profile";
    passable_env_names = set (array []) "profile";
    transitive_system_modules = set (str "error") "profile";
    require_source_signers = set (bool true) "profile";
  });
  passable_env_null_explicit = false;
}

abbrev lenient : Resolved
lenient = record {
  profile = "permissive";
  profile_source = "explicit";
  audit_mode = set (str "advisory") "explicit";
  audit_registry_policy = set (str "advisory") "profile";
  allowed_sources = set (array []) "profile";
  environments = some (record {
    mcp_package_allowlist = set (array []) "profile";
    passable_env_names = set (array []) "profile";
    transitive_system_modules = set (str "drop") "profile";
    require_source_signers = set (bool false) "profile";
  });
  passable_env_null_explicit = false;
}

locked_run : posture_resolve (case_with locking) ≡ ok locked
unfolding posture_resolve
locked_run = refl

lenient_run : posture_resolve (case_with (obj bare)) ≡ ok lenient
unfolding posture_resolve
lenient_run = refl

abbrev refusals : List Value
refusals =
    obj (member "code" (str "source_allowlist_empty") (member "severity" (str "error") bare)) ∷ []

abbrev warnings : List Value
warnings =
    obj (
      member "code" (str "security_posture_permissive") (
        member "severity" (str "warning") (
          member "count" (int (pos 1))
            (member "names_knob" (bool true) (member "migration_hint" (bool true) bare)))))
    ∷ []

refused : posture_diagnostics (case_with locking) locked ≡ ok refusals
unfolding posture_diagnostics
refused = refl

refused_outcome : posture_outcome (case_with locking) locked refusals ≡ ok "refused"
unfolding posture_outcome
refused_outcome = refl

warned : posture_diagnostics (case_with (obj bare)) lenient ≡ ok warnings
unfolding posture_diagnostics
warned = refl

posture_resolve-IsLocked_example :
    (i : Inputs) × (posture_inputs (case_with locking) ≡ ok i) × IsLocked i locked
posture_resolve-IsLocked_example = posture_resolve-IsLocked (case_with locking) locked locked_run

posture_diagnostics-IsJudged_example : IsJudged (case_with locking) locked refusals
posture_diagnostics-IsJudged_example =
    posture_diagnostics-IsJudged (case_with locking) locked refusals refused

abbrev shown : List Row
shown =
    row "security_posture" (str "hardened") "lock"
    ∷ row "hook-trust" (str "A-warning") "shipped"
    ∷ row "registry-policy" (str "strict") "lock"
    ∷ row "audit-mode" (str "strict") "lock"
    ∷ row "source-allowlist" (int (pos 0)) "profile"
    ∷ row "env-passthrough" (str "s4-enforce") "shipped"
    ∷ row "transitive-system-modules" (str "error") "profile"
    ∷ row "provider-trust-roots" (str "revision-A") "shipped"
    ∷ row "source-signers" (str "true") "profile"
    ∷ row "update-confirmation" (str "A-warning") "shipped"
    ∷ row "codex-seed" (str "A") "shipped"
    ∷ row "store-boundary" (str "enforced") "shipped"
    ∷ row "write-discipline" (str "enforced") "shipped"
    ∷ row "mcp-package-allowlist" (int (pos 0)) "profile"
    ∷ []

shown_run : posture_status_rows (case_with locking) locked ≡ ok (shown, some shown)
unfolding posture_status_rows
shown_run = refl
