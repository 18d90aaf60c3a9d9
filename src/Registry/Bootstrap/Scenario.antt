-- ===== src/Registry/Bootstrap/Scenario.antt =====
-- `require_bootstrap_scenario`: the inputs that each required name must carry.
use curator_spec.Prelude.{
  Bool, Check, List, String, [], if◌then◌else◌, leb, ltb, not, ok, raise_if, ℕ, ◌==◌, ◌>>=◌, ◌>>◌,
  ◌∷◌,
}
use curator_spec.Json.{Fields, Value, get, is_str, one_of}
use curator_spec.Registry.Bootstrap.{bootstrap_version, bootstrap_bool}

abbrev pub bootstrap_names : List String
bootstrap_names =
    "checkpoint-first-use-accepted" ∷ "checkpoint-first-network-below-tampered"
    ∷ "checkpoint-first-network-equal-different-tampered" ∷ "no-checkpoint-first-use-tofu"
    ∷ "checkpoint-signature-invalid-first-use" ∷ []

abbrev pub rebootstrap_names : List String
rebootstrap_names =
    "rebootstrap-advance-accepted" ∷ "rebootstrap-equal-consistent-noop"
    ∷ "rebootstrap-regression-refused" ∷ "rebootstrap-equal-inconsistent-refused"
    ∷ "rebootstrap-signature-invalid-ignored" ∷ []

abbrev pub divergence_names : List String
divergence_names =
    "divergence-detected-advisory" ∷ "divergence-detected-strict" ∷ "divergence-views-agree"
    ∷ "divergence-different-sizes-skipped" ∷ "divergence-single-registry-skipped" ∷ []

-- first use: the order of the first network version and the checkpoint
first_relation : Value → ℕ → ℕ → Bool → Check
first_relation name checkpoint first same_body =
    if is_str name "checkpoint-first-use-accepted"
    then raise_if (not (ltb checkpoint first)) "must place the first network version above"
    else if is_str name "checkpoint-first-network-below-tampered"
    then raise_if (not (ltb first checkpoint)) "must place the first network version below"
    else raise_if (not (first == checkpoint)) "must hold the first network version equal"
      >> raise_if same_body "must carry a different body"

unfoldable pub first_use_scenario : Fields → Check
unfolding first_relation bootstrap_version bootstrap_bool
first_use_scenario c = do
  let name = get c "name"
  raise_if (not (is_str (get c "phase") "bootstrap")) "must run the bootstrap phase"
  raise_if (not (is_str (get c "prior_state") "missing")) "must start from missing prior state"
  configured ← bootstrap_bool c "checkpoint_configured"
  if is_str name "no-checkpoint-first-use-tofu"
      then raise_if configured "must leave the checkpoint unconfigured"
      else do
        raise_if (not configured) "must configure a checkpoint"
        signature_valid ← bootstrap_bool c "signature_valid"
        if is_str name "checkpoint-signature-invalid-first-use"
            then raise_if signature_valid "must carry an invalid checkpoint signature"
            else do
              raise_if (not signature_valid) "must carry a valid checkpoint signature"
              checkpoint ← bootstrap_version c "checkpoint_version"
              first ← bootstrap_version c "first_network_version"
              same_body ← bootstrap_bool c "candidate_same_body"
              first_relation name checkpoint first same_body

-- prior state: the order of the checkpoint and the stored version
stored_relation : Value → ℕ → ℕ → Bool → Check
stored_relation name checkpoint stored same_body =
    if is_str name "rebootstrap-regression-refused"
    then raise_if (not (ltb checkpoint stored)) "must place the checkpoint version below"
    else if is_str name "rebootstrap-advance-accepted"
    then raise_if (not (ltb stored checkpoint)) "must place the checkpoint version above"
    else raise_if (not (checkpoint == stored)) "must hold the checkpoint version equal"
      >> (if is_str name "rebootstrap-equal-inconsistent-refused"
          then raise_if same_body "must carry a different body"
          else raise_if (not same_body) "must carry the same body")

unfoldable pub rebootstrap_scenario : Fields → Check
unfolding stored_relation bootstrap_version bootstrap_bool
rebootstrap_scenario c = do
  let name = get c "name"
  raise_if (not (is_str (get c "phase") "rebootstrap")) "must run the rebootstrap phase"
  raise_if (not (is_str (get c "prior_state") "present")) "must start from present prior state"
  configured ← bootstrap_bool c "checkpoint_configured"
  raise_if (not configured) "must configure a checkpoint"
  signature_valid ← bootstrap_bool c "signature_valid"
  if is_str name "rebootstrap-signature-invalid-ignored"
      then raise_if signature_valid "must carry an invalid checkpoint signature"
      else do
        raise_if (not signature_valid) "must carry a valid checkpoint signature"
        checkpoint ← bootstrap_version c "checkpoint_version"
        stored ← bootstrap_version c "stored_version"
        same_body ← bootstrap_bool c "candidate_same_body"
        stored_relation name checkpoint stored same_body

unfoldable pub divergence_scenario : Fields → Check
unfolding bootstrap_version bootstrap_bool
divergence_scenario c = do
  let name = get c "name"
  raise_if (not (is_str (get c "phase") "compare")) "must run the compare phase"
  group ← bootstrap_version c "group_size"
  same_size ← bootstrap_bool c "same_log_size"
  roots_equal ← bootstrap_bool c "roots_equal"
  if is_str name "divergence-single-registry-skipped"
      then raise_if (leb 2 group) "must compare fewer than two registries"
      else do
        raise_if (ltb group 2) "must compare two or more registries"
        if is_str name "divergence-different-sizes-skipped"
            then raise_if same_size "must expose different log sizes"
            else do
              raise_if (not same_size) "must expose the same log size"
              if is_str name "divergence-views-agree"
                  then raise_if (not roots_equal) "must carry equal roots"
                  else do
                    raise_if roots_equal "must carry different roots"
                    raise_if
                        (not (
                          is_str (get c "policy") (
                            if is_str name "divergence-detected-strict"
                            then "strict"
                            else "advisory")))
                        "must run under the wanted policy"

unfoldable pub require_bootstrap_scenario : Fields → Check
unfolding first_use_scenario rebootstrap_scenario divergence_scenario
require_bootstrap_scenario c =
    if one_of (get c "name") bootstrap_names
    then first_use_scenario c
    else if one_of (get c "name") rebootstrap_names
    then rebootstrap_scenario c
    else if one_of (get c "name") divergence_names
    then divergence_scenario c
    else ok tt
