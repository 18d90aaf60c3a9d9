-- ===== src/Registry/Checkpoint.antt =====
-- The startup checkpoint of the registry service: `expected_checkpoint_verdict`,
-- `require_checkpoint_scenario` and `validate_registry_checkpoint_vectors` of tools/validate.py.
pub mod Ready
pub mod Gate
use curator_spec.Prelude.{
  Bool, Check, List, Option, Result, String, [], err, false, for_each, if◌then◌else◌, ltb, none,
  not, ok, raise_if, some, true, ℕ, ◌&&◌, ◌==◌, ◌>>=◌, ◌>>◌, ◌||◌, ◌∷◌,
}
use curator_spec.Json.{
  Value, Fields, get, is_bool, is_str, is_null, equals_text, one_of, with_versions,
}
use curator_spec.Cases.{cases, require_named_cases}

pub record Verdict : Type 0 where
  pub ready : Bool
  pub diagnostic : Option String
  pub posture : Option String

abbrev serve : Verdict
serve = record { ready = true; diagnostic = none; posture = none }

abbrev refuse : String → Verdict
refuse d = record { ready = false; diagnostic = some d; posture = none }

-- the live log against the checkpoint boundary
compare_live : ℕ → ℕ → Bool → Bool → Verdict
compare_live live checkpoint same_body prefix_reproduced =
    if ltb live checkpoint
    then refuse "restore_below_checkpoint"
    else if live == checkpoint
    then (if same_body then serve else refuse "restore_inconsistent_with_checkpoint")
    else if prefix_reproduced
    then serve
    else refuse "restore_inconsistent_with_checkpoint"

unfoldable pub expected_checkpoint_verdict : Fields → Result Verdict
unfolding compare_live
expected_checkpoint_verdict c =
    if not (is_bool (get c "checkpoint_configured") true)
    then ok (record { ready = true; diagnostic = none; posture = some "checkpoint_not_configured" })
    else if not (is_bool (get c "signature_valid") true)
    then ok (refuse "checkpoint_signature_invalid")
    else with_versions (get c "live_version") (get c "checkpoint_version")
        "needs non-negative integer live and checkpoint versions"
        λ live checkpoint. ok (
          compare_live live checkpoint (is_bool (get c "same_boundary_body") true)
            (is_bool (get c "prefix_reproduced") true))

abbrev pub checkpoint_cases : List String
checkpoint_cases =
    "checkpoint-below-live-consistent" ∷ "checkpoint-equal-consistent"
    ∷ "checkpoint-equal-inconsistent" ∷ "live-below-checkpoint" ∷ "live-above-prefix-mismatch"
    ∷ "checkpoint-signature-invalid" ∷ "checkpoint-not-configured" ∷ []

abbrev pub checkpoint_diagnostics : List String
checkpoint_diagnostics =
    "restore_below_checkpoint" ∷ "restore_inconsistent_with_checkpoint"
    ∷ "checkpoint_signature_invalid" ∷ []

-- a test that has to come out the other way under one name
abbrev differs : Bool → Bool → Bool
differs true true = false
differs false false = false
differs _ _ = true

-- the version relation and the body or prefix that a compared case must have
require_relation : Fields → Value → ℕ → ℕ → Check
require_relation c name live checkpoint =
    if is_str name "live-below-checkpoint"
    then raise_if (not (ltb live checkpoint)) "must place the live version below the checkpoint"
    else if is_str name "checkpoint-equal-consistent" || is_str name "checkpoint-equal-inconsistent"
    then (raise_if (not (live == checkpoint)) "must hold the live version equal to the checkpoint"
        >> raise_if
            (not (
              differs (is_bool (get c "same_boundary_body") true)
                (is_str name "checkpoint-equal-inconsistent")))
            "must carry the other boundary body")
    else if not (ltb checkpoint live)
    then err "must place the live version above the checkpoint version"
    else raise_if
        (not (
          differs (is_bool (get c "prefix_reproduced") true)
            (is_str name "live-above-prefix-mismatch")))
        "must or must not reproduce the checkpoint boundary"

unfoldable pub require_checkpoint_scenario : Fields → Check
unfolding require_relation
require_checkpoint_scenario c =
    let name = get c "name" in
    if is_str name "checkpoint-not-configured"
    then raise_if (is_bool (get c "checkpoint_configured") true)
        "must leave the checkpoint unconfigured"
    else if is_str name "checkpoint-signature-invalid"
    then (raise_if (not (is_bool (get c "checkpoint_configured") true))
          "must configure a checkpoint"
        >> raise_if (is_bool (get c "signature_valid") true) "must carry an invalid signature")
    else if not (
        one_of name (
          "checkpoint-below-live-consistent" ∷ "checkpoint-equal-consistent"
          ∷ "checkpoint-equal-inconsistent" ∷ "live-below-checkpoint" ∷ "live-above-prefix-mismatch"
          ∷ []))
    then ok tt
    else raise_if (not (is_bool (get c "checkpoint_configured") true)) "must configure a checkpoint"
      >> (raise_if (not (is_bool (get c "signature_valid") true)) "must carry a valid signature"
          >> with_versions (get c "live_version") (get c "checkpoint_version")
              "needs non-negative integer live and checkpoint versions"
              λ live checkpoint. require_relation c name live checkpoint)

check_recorded : Fields → Verdict → Check
check_recorded c v =
    raise_if (not (is_bool (get c "ready") v.ready)) "admits or refuses against section 6"
    >> (raise_if
          (not (is_null (get c "diagnostic"))
            && not (one_of (get c "diagnostic") checkpoint_diagnostics))
          "uses non-closed diagnostic"
        >> (raise_if (not (equals_text (get c "diagnostic") v.diagnostic))
              "carries another diagnostic"
            >> raise_if (not (equals_text (get c "posture") v.posture)) "carries another posture"))

check_checkpoint_case : Fields → Check
unfolding require_checkpoint_scenario expected_checkpoint_verdict check_recorded
check_checkpoint_case c =
    require_checkpoint_scenario c >> do v ← expected_checkpoint_verdict c; check_recorded c v

unfoldable pub validate_registry_checkpoint_vectors : Fields → Check
unfolding check_checkpoint_case
validate_registry_checkpoint_vectors service =
    require_named_cases (get service "checkpoint_cases") checkpoint_cases
    >> for_each (cases (get service "checkpoint_cases")) check_checkpoint_case
