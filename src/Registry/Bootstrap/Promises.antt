-- ===== src/Registry/Bootstrap/Promises.antt =====
-- The verdict that the registry protocol gives each required bootstrap case, and the scenario
-- check of its name.
use curator_spec.Prelude.{
  All, Bool, Check, List, Result, String, [], arith, false, ok, some, true, ◌∷◌, ◌≡◌,
}
use curator_spec.Json.{is_str-eq, Fields, str, get, one_of}
use curator_spec.Registry.Bootstrap.{
  Verdict, quiet, compare_phase, bootstrap_phase, rebootstrap_phase,
}
use curator_spec.Registry.Bootstrap.Scenario.{
  first_use_scenario, rebootstrap_scenario, divergence_scenario,
}

abbrev pub Promise : Type 0
Promise = String × Verdict

abbrev pub tampered : Verdict
tampered = record quiet { accepted = false; state_changed = true; registry_excluded = true }

abbrev pub regression : Verdict
regression = record quiet {
  accepted = false;
  diagnostic = some "registry_checkpoint_regression";
  severity = some "error";
  check_current = false;
}

abbrev pub diverged : String → Bool → Verdict
diverged level current = record quiet {
  diagnostic = some "registry_view_divergence";
  severity = some level;
  compared = true;
  check_current = current;
}

abbrev pub first_use_promises : List Promise
first_use_promises =
    ("checkpoint-first-use-accepted", record quiet { state_changed = true })
    ∷ ("checkpoint-first-network-below-tampered", tampered)
    ∷ ("checkpoint-first-network-equal-different-tampered", tampered)
    ∷ (
      "no-checkpoint-first-use-tofu",
      record quiet {
        state_changed = true;
        posture = some "registry_bootstrap_tofu";
        severity = some "warning";
      },
    )
    ∷ (
      "checkpoint-signature-invalid-first-use",
      record quiet { accepted = false; registry_excluded = true; check_current = false },
    )
    ∷ []

abbrev pub rebootstrap_promises : List Promise
rebootstrap_promises =
    ("rebootstrap-advance-accepted", record quiet { state_changed = true })
    ∷ ("rebootstrap-equal-consistent-noop", quiet)
    ∷ ("rebootstrap-regression-refused", regression)
    ∷ ("rebootstrap-equal-inconsistent-refused", regression)
    ∷ ("rebootstrap-signature-invalid-ignored", record quiet { accepted = false })
    ∷ []

abbrev pub divergence_promises : List Promise
divergence_promises =
    ("divergence-detected-advisory", diverged "warning" true)
    ∷ ("divergence-detected-strict", diverged "error" false)
    ∷ ("divergence-views-agree", record quiet { compared = true })
    ∷ ("divergence-different-sizes-skipped", quiet)
    ∷ ("divergence-single-registry-skipped", quiet)
    ∷ []

abbrev pub is_closed : Fields → Bool
is_closed c = one_of (get c "policy") ("advisory" ∷ "strict" ∷ [])

-- The scenario check of a name decides the verdict of its phase. Only a comparison reads the policy.
abbrev pub Decides : (Fields → Check) → (Fields → Result Verdict) → Promise → Type 0
Decides scenario phase p =
    (c : Fields) → get c "name" ≡ str p.0 → scenario c ≡ ok tt → phase c ≡ ok p.1

abbrev pub DecidesClosed : Promise → Type 0
DecidesClosed p =
    (c : Fields)
    → get c "name" ≡ str p.0
    → divergence_scenario c ≡ ok tt
    → is_closed c ≡ true
    → compare_phase c ≡ ok p.1

checkpoint_first_use_accepted :
    Decides first_use_scenario bootstrap_phase
      ("checkpoint-first-use-accepted", record quiet { state_changed = true })
unfolding first_use_scenario bootstrap_phase
checkpoint_first_use_accepted c n h = ground arith

checkpoint_first_network_below_tampered :
    Decides first_use_scenario bootstrap_phase ("checkpoint-first-network-below-tampered", tampered)
unfolding first_use_scenario bootstrap_phase
checkpoint_first_network_below_tampered c n h = ground arith

checkpoint_first_network_equal_different_tampered :
    Decides first_use_scenario bootstrap_phase
      ("checkpoint-first-network-equal-different-tampered", tampered)
unfolding first_use_scenario bootstrap_phase
checkpoint_first_network_equal_different_tampered c n h = ground arith

no_checkpoint_first_use_tofu : Decides first_use_scenario bootstrap_phase (
  "no-checkpoint-first-use-tofu",
  record quiet {
    state_changed = true;
    posture = some "registry_bootstrap_tofu";
    severity = some "warning";
  },
)
unfolding first_use_scenario bootstrap_phase
no_checkpoint_first_use_tofu c n h = ground arith

checkpoint_signature_invalid_first_use : Decides first_use_scenario bootstrap_phase (
  "checkpoint-signature-invalid-first-use",
  record quiet { accepted = false; registry_excluded = true; check_current = false },
)
unfolding first_use_scenario bootstrap_phase
checkpoint_signature_invalid_first_use c n h = ground arith

pub first_use_decided : All (Decides first_use_scenario bootstrap_phase) first_use_promises
first_use_decided = (
  checkpoint_first_use_accepted,
  (
    checkpoint_first_network_below_tampered,
    (
      checkpoint_first_network_equal_different_tampered,
      (no_checkpoint_first_use_tofu, (checkpoint_signature_invalid_first_use, tt)),
    ),
  ),
)

rebootstrap_advance_accepted :
    Decides rebootstrap_scenario rebootstrap_phase
      ("rebootstrap-advance-accepted", record quiet { state_changed = true })
unfolding rebootstrap_scenario rebootstrap_phase
rebootstrap_advance_accepted c n h = ground arith

rebootstrap_equal_consistent_noop :
    Decides rebootstrap_scenario rebootstrap_phase ("rebootstrap-equal-consistent-noop", quiet)
unfolding rebootstrap_scenario rebootstrap_phase
rebootstrap_equal_consistent_noop c n h = ground arith

rebootstrap_regression_refused :
    Decides rebootstrap_scenario rebootstrap_phase ("rebootstrap-regression-refused", regression)
unfolding rebootstrap_scenario rebootstrap_phase
rebootstrap_regression_refused c n h = ground arith

rebootstrap_equal_inconsistent_refused :
    Decides rebootstrap_scenario rebootstrap_phase
      ("rebootstrap-equal-inconsistent-refused", regression)
unfolding rebootstrap_scenario rebootstrap_phase
rebootstrap_equal_inconsistent_refused c n h = ground arith

rebootstrap_signature_invalid_ignored :
    Decides rebootstrap_scenario rebootstrap_phase
      ("rebootstrap-signature-invalid-ignored", record quiet { accepted = false })
unfolding rebootstrap_scenario rebootstrap_phase
rebootstrap_signature_invalid_ignored c n h = ground arith

pub rebootstrap_decided : All (Decides rebootstrap_scenario rebootstrap_phase) rebootstrap_promises
rebootstrap_decided = (
  rebootstrap_advance_accepted,
  (
    rebootstrap_equal_consistent_noop,
    (
      rebootstrap_regression_refused,
      (rebootstrap_equal_inconsistent_refused, (rebootstrap_signature_invalid_ignored, tt)),
    ),
  ),
)

advisory_policy :
    (c : Fields)
    → get c "name" ≡ str "divergence-detected-advisory"
    → divergence_scenario c ≡ ok tt
    → get c "policy" ≡ str "advisory"
unfolding divergence_scenario
advisory_policy c n h = is_str-eq (get c "policy") "advisory" (ground arith)

divergence_detected_advisory :
    DecidesClosed ("divergence-detected-advisory", diverged "warning" true)
unfolding divergence_scenario compare_phase
divergence_detected_advisory c n h p = ground (arith, advisory_policy c n h)

divergence_detected_strict : DecidesClosed ("divergence-detected-strict", diverged "error" false)
unfolding divergence_scenario compare_phase
divergence_detected_strict c n h p = ground arith

divergence_views_agree : DecidesClosed ("divergence-views-agree", record quiet { compared = true })
unfolding divergence_scenario compare_phase
divergence_views_agree c n h p = ground arith

divergence_different_sizes_skipped : DecidesClosed ("divergence-different-sizes-skipped", quiet)
unfolding divergence_scenario compare_phase
divergence_different_sizes_skipped c n h p = ground arith

divergence_single_registry_skipped : DecidesClosed ("divergence-single-registry-skipped", quiet)
unfolding divergence_scenario compare_phase
divergence_single_registry_skipped c n h p = ground arith

pub divergence_decided : All DecidesClosed divergence_promises
divergence_decided = (
  divergence_detected_advisory,
  (
    divergence_detected_strict,
    (
      divergence_views_agree,
      (divergence_different_sizes_skipped, (divergence_single_registry_skipped, tt)),
    ),
  ),
)
