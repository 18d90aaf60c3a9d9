-- ===== src/Tests/BootstrapSuite.antt =====
-- The bootstrap cases of conformance/v1/vectors/registry-client.json, and the summaries of
-- registry-behavior.json.
use curator_spec.Json.{Value, Fields, null, bool, int, str, arr, obj, no_items, item, member, bare}
use curator_spec.Prelude.{false, pos, true}

abbrev checkpoint_first_use_accepted : Fields
checkpoint_first_use_accepted = member "accepted" (bool true) (
    member "candidate_same_body" (bool false) (
      member "check_current" (bool true) (
        member "checkpoint_configured" (bool true) (
          member "checkpoint_version" (int (pos 8)) (
            member "compared" (bool false) (
              member "diagnostic" null (
                member "first_network_version" (int (pos 9)) (
                  member "group_size" (int (pos 0)) (
                    member "name" (str "checkpoint-first-use-accepted") (
                      member "phase" (str "bootstrap") (
                        member "policy" (str "advisory") (
                          member "posture" null (
                            member "prior_state" (str "missing") (
                              member "registry_excluded" (bool false) (
                                member "resolution_changed" (bool false) (
                                  member "roots_equal" (bool true) (
                                    member "same_log_size" (bool false) (
                                      member "severity" null (
                                        member "signature_valid" (bool true) (
                                          member "state_changed" (bool true) (
                                            member "stored_version" (int (pos 0))
                                              bare)))))))))))))))))))))

abbrev checkpoint_first_network_below_tampered : Fields
checkpoint_first_network_below_tampered = member "accepted" (bool false) (
    member "candidate_same_body" (bool false) (
      member "check_current" (bool true) (
        member "checkpoint_configured" (bool true) (
          member "checkpoint_version" (int (pos 8)) (
            member "compared" (bool false) (
              member "diagnostic" null (
                member "first_network_version" (int (pos 7)) (
                  member "group_size" (int (pos 0)) (
                    member "name" (str "checkpoint-first-network-below-tampered") (
                      member "phase" (str "bootstrap") (
                        member "policy" (str "advisory") (
                          member "posture" null (
                            member "prior_state" (str "missing") (
                              member "registry_excluded" (bool true) (
                                member "resolution_changed" (bool false) (
                                  member "roots_equal" (bool true) (
                                    member "same_log_size" (bool false) (
                                      member "severity" null (
                                        member "signature_valid" (bool true) (
                                          member "state_changed" (bool true) (
                                            member "stored_version" (int (pos 0))
                                              bare)))))))))))))))))))))

abbrev checkpoint_first_network_equal_different_tampered : Fields
checkpoint_first_network_equal_different_tampered = member "accepted" (bool false) (
    member "candidate_same_body" (bool false) (
      member "check_current" (bool true) (
        member "checkpoint_configured" (bool true) (
          member "checkpoint_version" (int (pos 8)) (
            member "compared" (bool false) (
              member "diagnostic" null (
                member "first_network_version" (int (pos 8)) (
                  member "group_size" (int (pos 0)) (
                    member "name" (str "checkpoint-first-network-equal-different-tampered") (
                      member "phase" (str "bootstrap") (
                        member "policy" (str "advisory") (
                          member "posture" null (
                            member "prior_state" (str "missing") (
                              member "registry_excluded" (bool true) (
                                member "resolution_changed" (bool false) (
                                  member "roots_equal" (bool true) (
                                    member "same_log_size" (bool false) (
                                      member "severity" null (
                                        member "signature_valid" (bool true) (
                                          member "state_changed" (bool true) (
                                            member "stored_version" (int (pos 0))
                                              bare)))))))))))))))))))))

abbrev no_checkpoint_first_use_tofu : Fields
no_checkpoint_first_use_tofu = member "accepted" (bool true) (
    member "candidate_same_body" (bool false) (
      member "check_current" (bool true) (
        member "checkpoint_configured" (bool false) (
          member "checkpoint_version" (int (pos 0)) (
            member "compared" (bool false) (
              member "diagnostic" null (
                member "first_network_version" (int (pos 5)) (
                  member "group_size" (int (pos 0)) (
                    member "name" (str "no-checkpoint-first-use-tofu") (
                      member "phase" (str "bootstrap") (
                        member "policy" (str "advisory") (
                          member "posture" (str "registry_bootstrap_tofu") (
                            member "prior_state" (str "missing") (
                              member "registry_excluded" (bool false) (
                                member "resolution_changed" (bool false) (
                                  member "roots_equal" (bool true) (
                                    member "same_log_size" (bool false) (
                                      member "severity" (str "warning") (
                                        member "signature_valid" (bool true) (
                                          member "state_changed" (bool true) (
                                            member "stored_version" (int (pos 0))
                                              bare)))))))))))))))))))))

abbrev checkpoint_signature_invalid_first_use : Fields
checkpoint_signature_invalid_first_use = member "accepted" (bool false) (
    member "candidate_same_body" (bool true) (
      member "check_current" (bool false) (
        member "checkpoint_configured" (bool true) (
          member "checkpoint_version" (int (pos 8)) (
            member "compared" (bool false) (
              member "diagnostic" null (
                member "first_network_version" (int (pos 8)) (
                  member "group_size" (int (pos 0)) (
                    member "name" (str "checkpoint-signature-invalid-first-use") (
                      member "phase" (str "bootstrap") (
                        member "policy" (str "advisory") (
                          member "posture" null (
                            member "prior_state" (str "missing") (
                              member "registry_excluded" (bool true) (
                                member "resolution_changed" (bool false) (
                                  member "roots_equal" (bool true) (
                                    member "same_log_size" (bool false) (
                                      member "severity" null (
                                        member "signature_valid" (bool false) (
                                          member "state_changed" (bool false) (
                                            member "stored_version" (int (pos 0))
                                              bare)))))))))))))))))))))

abbrev rebootstrap_advance_accepted : Fields
rebootstrap_advance_accepted = member "accepted" (bool true) (
    member "candidate_same_body" (bool false) (
      member "check_current" (bool true) (
        member "checkpoint_configured" (bool true) (
          member "checkpoint_version" (int (pos 10)) (
            member "compared" (bool false) (
              member "diagnostic" null (
                member "first_network_version" (int (pos 0)) (
                  member "group_size" (int (pos 0)) (
                    member "name" (str "rebootstrap-advance-accepted") (
                      member "phase" (str "rebootstrap") (
                        member "policy" (str "advisory") (
                          member "posture" null (
                            member "prior_state" (str "present") (
                              member "registry_excluded" (bool false) (
                                member "resolution_changed" (bool false) (
                                  member "roots_equal" (bool true) (
                                    member "same_log_size" (bool false) (
                                      member "severity" null (
                                        member "signature_valid" (bool true) (
                                          member "state_changed" (bool true) (
                                            member "stored_version" (int (pos 8))
                                              bare)))))))))))))))))))))

abbrev rebootstrap_equal_consistent_noop : Fields
rebootstrap_equal_consistent_noop = member "accepted" (bool true) (
    member "candidate_same_body" (bool true) (
      member "check_current" (bool true) (
        member "checkpoint_configured" (bool true) (
          member "checkpoint_version" (int (pos 8)) (
            member "compared" (bool false) (
              member "diagnostic" null (
                member "first_network_version" (int (pos 0)) (
                  member "group_size" (int (pos 0)) (
                    member "name" (str "rebootstrap-equal-consistent-noop") (
                      member "phase" (str "rebootstrap") (
                        member "policy" (str "advisory") (
                          member "posture" null (
                            member "prior_state" (str "present") (
                              member "registry_excluded" (bool false) (
                                member "resolution_changed" (bool false) (
                                  member "roots_equal" (bool true) (
                                    member "same_log_size" (bool false) (
                                      member "severity" null (
                                        member "signature_valid" (bool true) (
                                          member "state_changed" (bool false) (
                                            member "stored_version" (int (pos 8))
                                              bare)))))))))))))))))))))

abbrev rebootstrap_regression_refused : Fields
rebootstrap_regression_refused = member "accepted" (bool false) (
    member "candidate_same_body" (bool false) (
      member "check_current" (bool false) (
        member "checkpoint_configured" (bool true) (
          member "checkpoint_version" (int (pos 7)) (
            member "compared" (bool false) (
              member "diagnostic" (str "registry_checkpoint_regression") (
                member "first_network_version" (int (pos 0)) (
                  member "group_size" (int (pos 0)) (
                    member "name" (str "rebootstrap-regression-refused") (
                      member "phase" (str "rebootstrap") (
                        member "policy" (str "advisory") (
                          member "posture" null (
                            member "prior_state" (str "present") (
                              member "registry_excluded" (bool false) (
                                member "resolution_changed" (bool false) (
                                  member "roots_equal" (bool true) (
                                    member "same_log_size" (bool false) (
                                      member "severity" (str "error") (
                                        member "signature_valid" (bool true) (
                                          member "state_changed" (bool false) (
                                            member "stored_version" (int (pos 8))
                                              bare)))))))))))))))))))))

abbrev rebootstrap_equal_inconsistent_refused : Fields
rebootstrap_equal_inconsistent_refused = member "accepted" (bool false) (
    member "candidate_same_body" (bool false) (
      member "check_current" (bool false) (
        member "checkpoint_configured" (bool true) (
          member "checkpoint_version" (int (pos 8)) (
            member "compared" (bool false) (
              member "diagnostic" (str "registry_checkpoint_regression") (
                member "first_network_version" (int (pos 0)) (
                  member "group_size" (int (pos 0)) (
                    member "name" (str "rebootstrap-equal-inconsistent-refused") (
                      member "phase" (str "rebootstrap") (
                        member "policy" (str "advisory") (
                          member "posture" null (
                            member "prior_state" (str "present") (
                              member "registry_excluded" (bool false) (
                                member "resolution_changed" (bool false) (
                                  member "roots_equal" (bool true) (
                                    member "same_log_size" (bool false) (
                                      member "severity" (str "error") (
                                        member "signature_valid" (bool true) (
                                          member "state_changed" (bool false) (
                                            member "stored_version" (int (pos 8))
                                              bare)))))))))))))))))))))

abbrev rebootstrap_signature_invalid_ignored : Fields
rebootstrap_signature_invalid_ignored = member "accepted" (bool false) (
    member "candidate_same_body" (bool false) (
      member "check_current" (bool true) (
        member "checkpoint_configured" (bool true) (
          member "checkpoint_version" (int (pos 10)) (
            member "compared" (bool false) (
              member "diagnostic" null (
                member "first_network_version" (int (pos 0)) (
                  member "group_size" (int (pos 0)) (
                    member "name" (str "rebootstrap-signature-invalid-ignored") (
                      member "phase" (str "rebootstrap") (
                        member "policy" (str "advisory") (
                          member "posture" null (
                            member "prior_state" (str "present") (
                              member "registry_excluded" (bool false) (
                                member "resolution_changed" (bool false) (
                                  member "roots_equal" (bool true) (
                                    member "same_log_size" (bool false) (
                                      member "severity" null (
                                        member "signature_valid" (bool false) (
                                          member "state_changed" (bool false) (
                                            member "stored_version" (int (pos 8))
                                              bare)))))))))))))))))))))

abbrev divergence_detected_advisory : Fields
divergence_detected_advisory = member "accepted" (bool true) (
    member "candidate_same_body" (bool true) (
      member "check_current" (bool true) (
        member "checkpoint_configured" (bool false) (
          member "checkpoint_version" (int (pos 0)) (
            member "compared" (bool true) (
              member "diagnostic" (str "registry_view_divergence") (
                member "first_network_version" (int (pos 0)) (
                  member "group_size" (int (pos 2)) (
                    member "name" (str "divergence-detected-advisory") (
                      member "phase" (str "compare") (
                        member "policy" (str "advisory") (
                          member "posture" null (
                            member "prior_state" (str "present") (
                              member "registry_excluded" (bool false) (
                                member "resolution_changed" (bool false) (
                                  member "roots_equal" (bool false) (
                                    member "same_log_size" (bool true) (
                                      member "severity" (str "warning") (
                                        member "signature_valid" (bool true) (
                                          member "state_changed" (bool false) (
                                            member "stored_version" (int (pos 8))
                                              bare)))))))))))))))))))))

abbrev divergence_detected_strict : Fields
divergence_detected_strict = member "accepted" (bool true) (
    member "candidate_same_body" (bool true) (
      member "check_current" (bool false) (
        member "checkpoint_configured" (bool false) (
          member "checkpoint_version" (int (pos 0)) (
            member "compared" (bool true) (
              member "diagnostic" (str "registry_view_divergence") (
                member "first_network_version" (int (pos 0)) (
                  member "group_size" (int (pos 2)) (
                    member "name" (str "divergence-detected-strict") (
                      member "phase" (str "compare") (
                        member "policy" (str "strict") (
                          member "posture" null (
                            member "prior_state" (str "present") (
                              member "registry_excluded" (bool false) (
                                member "resolution_changed" (bool false) (
                                  member "roots_equal" (bool false) (
                                    member "same_log_size" (bool true) (
                                      member "severity" (str "error") (
                                        member "signature_valid" (bool true) (
                                          member "state_changed" (bool false) (
                                            member "stored_version" (int (pos 8))
                                              bare)))))))))))))))))))))

abbrev divergence_views_agree : Fields
divergence_views_agree = member "accepted" (bool true) (
    member "candidate_same_body" (bool true) (
      member "check_current" (bool true) (
        member "checkpoint_configured" (bool false) (
          member "checkpoint_version" (int (pos 0)) (
            member "compared" (bool true) (
              member "diagnostic" null (
                member "first_network_version" (int (pos 0)) (
                  member "group_size" (int (pos 2)) (
                    member "name" (str "divergence-views-agree") (
                      member "phase" (str "compare") (
                        member "policy" (str "advisory") (
                          member "posture" null (
                            member "prior_state" (str "present") (
                              member "registry_excluded" (bool false) (
                                member "resolution_changed" (bool false) (
                                  member "roots_equal" (bool true) (
                                    member "same_log_size" (bool true) (
                                      member "severity" null (
                                        member "signature_valid" (bool true) (
                                          member "state_changed" (bool false) (
                                            member "stored_version" (int (pos 8))
                                              bare)))))))))))))))))))))

abbrev divergence_different_sizes_skipped : Fields
divergence_different_sizes_skipped = member "accepted" (bool true) (
    member "candidate_same_body" (bool true) (
      member "check_current" (bool true) (
        member "checkpoint_configured" (bool false) (
          member "checkpoint_version" (int (pos 0)) (
            member "compared" (bool false) (
              member "diagnostic" null (
                member "first_network_version" (int (pos 0)) (
                  member "group_size" (int (pos 2)) (
                    member "name" (str "divergence-different-sizes-skipped") (
                      member "phase" (str "compare") (
                        member "policy" (str "advisory") (
                          member "posture" null (
                            member "prior_state" (str "present") (
                              member "registry_excluded" (bool false) (
                                member "resolution_changed" (bool false) (
                                  member "roots_equal" (bool false) (
                                    member "same_log_size" (bool false) (
                                      member "severity" null (
                                        member "signature_valid" (bool true) (
                                          member "state_changed" (bool false) (
                                            member "stored_version" (int (pos 8))
                                              bare)))))))))))))))))))))

abbrev divergence_single_registry_skipped : Fields
divergence_single_registry_skipped = member "accepted" (bool true) (
    member "candidate_same_body" (bool true) (
      member "check_current" (bool true) (
        member "checkpoint_configured" (bool false) (
          member "checkpoint_version" (int (pos 0)) (
            member "compared" (bool false) (
              member "diagnostic" null (
                member "first_network_version" (int (pos 0)) (
                  member "group_size" (int (pos 1)) (
                    member "name" (str "divergence-single-registry-skipped") (
                      member "phase" (str "compare") (
                        member "policy" (str "advisory") (
                          member "posture" null (
                            member "prior_state" (str "present") (
                              member "registry_excluded" (bool false) (
                                member "resolution_changed" (bool false) (
                                  member "roots_equal" (bool false) (
                                    member "same_log_size" (bool true) (
                                      member "severity" null (
                                        member "signature_valid" (bool true) (
                                          member "state_changed" (bool false) (
                                            member "stored_version" (int (pos 8))
                                              bare)))))))))))))))))))))

abbrev pub bootstrap_suite : Value
bootstrap_suite = arr (
    item (obj checkpoint_first_use_accepted) (
      item (obj checkpoint_first_network_below_tampered) (
        item (obj checkpoint_first_network_equal_different_tampered) (
          item (obj no_checkpoint_first_use_tofu) (
            item (obj checkpoint_signature_invalid_first_use) (
              item (obj rebootstrap_advance_accepted) (
                item (obj rebootstrap_equal_consistent_noop) (
                  item (obj rebootstrap_regression_refused) (
                    item (obj rebootstrap_equal_inconsistent_refused) (
                      item (obj rebootstrap_signature_invalid_ignored) (
                        item (obj divergence_detected_advisory) (
                          item (obj divergence_detected_strict) (
                            item (obj divergence_views_agree) (
                              item (obj divergence_different_sizes_skipped) (
                                item (obj divergence_single_registry_skipped)
                                  no_items)))))))))))))))

abbrev pub client : Fields
client = member "bootstrap_cases" bootstrap_suite bare

abbrev pub behavior : Fields
behavior =
    member "bootstrap"
      (obj (
        member "checkpoint_form" (str "path") (
          member "checkpoint_object" (str "registry-snapshot-v1") (
            member "first_fixation_source" (str "checkpoint-or-network-only") (
              member "regression_diagnostic" (str "registry_checkpoint_regression") (
                member "tofu_posture" (str "registry_bootstrap_tofu")
                  (member "verified_before_network" (bool true) bare)))))))
      (member "divergence"
        (obj (
          member "compared_at" (str "same_log_size") (
            member "diagnostic" (str "registry_view_divergence")
              (member "quorum" (bool false) (member "resolution_changed" (bool false) bare)))))
        bare)
