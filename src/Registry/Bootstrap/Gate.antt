-- ===== src/Registry/Bootstrap/Gate.antt =====
-- `validate_registry_bootstrap_vectors`: the gate over a client suite and the behavior summary.
use curator_spec.Prelude.{
  Bool, Check, List, String, [], err, false, for_each, none, not, raise_if, some, true, ◌&&◌, ◌++◌,
  ◌>>=◌, ◌>>◌, ◌∷◌,
}
use curator_spec.Json.{Value, Fields, obj, get, is_null, is_str, equals_bool, equals_text, one_of}
use curator_spec.Cases.{cases, require_named_cases}
use curator_spec.Registry.Bootstrap.{Verdict, bool?, expected_bootstrap_verdict}
use curator_spec.Registry.Bootstrap.Scenario.{
  bootstrap_names, rebootstrap_names, divergence_names, require_bootstrap_scenario,
}

abbrev pub bootstrap_cases : List String
bootstrap_cases = bootstrap_names ++ (rebootstrap_names ++ divergence_names)

-- `actual == expected`, member by member
unfoldable pub matches : Fields → Verdict → Bool
matches c v =
    equals_bool (get c "accepted") v.accepted
    && (equals_bool (get c "state_changed") v.state_changed
        && (equals_text (get c "diagnostic") v.diagnostic
            && (equals_text (get c "posture") v.posture
                && (equals_text (get c "severity") v.severity
                    && (equals_bool (get c "compared") v.compared
                        && (equals_bool (get c "registry_excluded") v.registry_excluded
                            && (equals_bool (get c "resolution_changed") v.resolution_changed
                                && equals_bool (get c "check_current") v.check_current)))))))

abbrev pub is_boolean : Value → Bool
is_boolean v = elim (bool? v) [ none ↦ false | some b ↦ true ]

unfoldable pub check_recorded : Fields → Verdict → Check
unfolding matches
check_recorded c v = do
  raise_if (not (matches c v)) "carries another output"
  raise_if
      (not (is_null (get c "diagnostic"))
        && not (
            one_of (get c "diagnostic")
              ("registry_checkpoint_regression" ∷ "registry_view_divergence" ∷ [])))
      "uses non-closed diagnostic"
  raise_if
      (not (is_null (get c "posture")) && not (is_str (get c "posture") "registry_bootstrap_tofu"))
      "uses non-closed posture"
  raise_if
      (not (is_null (get c "severity"))
        && not (one_of (get c "severity") ("warning" ∷ "error" ∷ [])))
      "uses non-closed severity"
  raise_if (not (is_boolean (get c "check_current"))) "needs a boolean check_current"

unfoldable pub check_bootstrap_case : Fields → Check
unfolding require_bootstrap_scenario expected_bootstrap_verdict check_recorded
check_bootstrap_case c =
    require_bootstrap_scenario c >> do v ← expected_bootstrap_verdict c; check_recorded c v

check_bootstrap_summary : Value → Check
check_bootstrap_summary (obj summary) =
    raise_if
      (not (
        is_str (get summary "checkpoint_object") "registry-snapshot-v1"
        && (is_str (get summary "checkpoint_form") "path"
            && (equals_bool (get summary "verified_before_network") true
                && (is_str (get summary "tofu_posture") "registry_bootstrap_tofu"
                    && (is_str (get summary "regression_diagnostic")
                          "registry_checkpoint_regression"
                        && is_str (get summary "first_fixation_source")
                            "checkpoint-or-network-only"))))))
      "bootstrap summary differs"
check_bootstrap_summary _ = err "bootstrap summary is incomplete"

check_divergence_summary : Value → Check
check_divergence_summary (obj summary) =
    raise_if
      (not (
        is_str (get summary "compared_at") "same_log_size"
        && (is_str (get summary "diagnostic") "registry_view_divergence"
            && (equals_bool (get summary "resolution_changed") false
                && equals_bool (get summary "quorum") false))))
      "divergence summary differs"
check_divergence_summary _ = err "divergence summary is incomplete"

unfoldable pub validate_registry_bootstrap_vectors : Fields → Fields → Check
unfolding check_bootstrap_case check_bootstrap_summary check_divergence_summary
validate_registry_bootstrap_vectors client behavior =
    require_named_cases (get client "bootstrap_cases") bootstrap_cases
    >> (for_each (cases (get client "bootstrap_cases")) check_bootstrap_case
        >> (check_bootstrap_summary (get behavior "bootstrap")
            >> check_divergence_summary (get behavior "divergence")))
