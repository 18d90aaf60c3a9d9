-- ===== src/Tests/RegistryRuns.antt =====
-- The registry gates on the repository's vectors.
use curator_spec.Prelude.{Elem, inl, inr, ok, refl, true, ◌≡◌}
use curator_spec.Json.{Fields, get, str}
use curator_spec.Cases.{IsNamed, require_named_cases, require_named_cases-IsNamed, cases}
use curator_spec.Registry.PageBoundary.{
  page_boundary_cases, validate_registry_page_boundary_vectors, expected_page_boundary_verdict,
}
use curator_spec.Registry.PageBoundary.Rules.{
  IsClientChecked, page_gate_sound, page_verdict-IsExact, IsExact,
}
use curator_spec.Registry.Checkpoint.{
  validate_registry_checkpoint_vectors, expected_checkpoint_verdict,
}
use curator_spec.Registry.Bootstrap.Gate.{validate_registry_bootstrap_vectors, matches}
use curator_spec.Registry.Bootstrap.Sound.{bootstrap_gate_sound}
use curator_spec.Registry.Bootstrap.Promises.{tampered}
use curator_spec.Registry.PageBoundary
use curator_spec.Registry.Checkpoint
use curator_spec.Tests.PageSuite
use curator_spec.Tests.CheckpointSuite
use curator_spec.Tests.BootstrapSuite

page_suite_passes :
    validate_registry_page_boundary_vectors PageSuite.client PageSuite.service ≡ ok tt
unfolding validate_registry_page_boundary_vectors require_named_cases get
page_suite_passes = refl

checkpoint_suite_passes : validate_registry_checkpoint_vectors CheckpointSuite.service ≡ ok tt
unfolding validate_registry_checkpoint_vectors require_named_cases get
checkpoint_suite_passes = refl

bootstrap_suite_passes :
    validate_registry_bootstrap_vectors BootstrapSuite.client BootstrapSuite.behavior ≡ ok tt
unfolding validate_registry_bootstrap_vectors require_named_cases get
bootstrap_suite_passes = refl

page_suite_named : require_named_cases PageSuite.page_suite page_boundary_cases ≡ ok tt
unfolding require_named_cases get
page_suite_named = refl

page_gate_sound_example : IsClientChecked PageSuite.client
page_gate_sound_example = page_gate_sound PageSuite.client PageSuite.service page_suite_passes

named_example : IsNamed PageSuite.page_suite page_boundary_cases
named_example =
    require_named_cases-IsNamed PageSuite.page_suite page_boundary_cases page_suite_named

checkpoint_gate_sound_example :
    (c : Fields) × Elem c (cases (get CheckpointSuite.service "checkpoint_cases"))
    × (get c "name" ≡ str "live-below-checkpoint")
    × Checkpoint.Gate.Records c (Checkpoint.Gate.promised "live-below-checkpoint")
checkpoint_gate_sound_example =
    Checkpoint.Gate.checkpoint_gate_sound CheckpointSuite.service "live-below-checkpoint"
      checkpoint_suite_passes (inr (inr (inr (inl refl))))

bootstrap_gate_sound_example :
    (c : Fields) × Elem c (cases (get BootstrapSuite.client "bootstrap_cases"))
    × (get c "name" ≡ str "checkpoint-first-network-below-tampered")
    × (matches c tampered ≡ true)
bootstrap_gate_sound_example =
    bootstrap_gate_sound BootstrapSuite.client BootstrapSuite.behavior
      ("checkpoint-first-network-below-tampered", tampered) bootstrap_suite_passes (inr (inl refl))

abbrev page_case : Fields
page_case = PageSuite.fresh_boundary_advances_high_water

abbrev checkpoint_case : Fields
checkpoint_case = CheckpointSuite.live_below_checkpoint

page_verdict-IsExact_example :
    (v : PageBoundary.Verdict) × (expected_page_boundary_verdict page_case ≡ ok v)
    × PageBoundary.Rules.IsExact page_case 7 8 v
unfolding get
page_verdict-IsExact_example = page_verdict-IsExact page_case 7 8 refl refl

checkpoint_verdict-IsExact_example :
    (v : Checkpoint.Verdict) × (expected_checkpoint_verdict checkpoint_case ≡ ok v)
    × Checkpoint.Ready.IsExact checkpoint_case 7 8 v
unfolding get
checkpoint_verdict-IsExact_example =
    Checkpoint.Ready.checkpoint_verdict-IsExact checkpoint_case 7 8 refl refl
