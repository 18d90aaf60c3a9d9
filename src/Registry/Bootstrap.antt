-- ===== src/Registry/Bootstrap.antt =====
-- Bootstrap checkpoints and view divergence of the registry client: `expected_bootstrap_verdict`
-- of tools/validate.py. The scenario pins and the gate are in the child modules.
pub mod Scenario
pub mod Gate
pub mod Promises
pub mod Sound
use curator_spec.Prelude.{
  Bool, Option, Result, String, [], err, false, if◌then◌else◌, leb, ltb, none, not, ok, raise_if,
  some, true, ℕ, ◌&&◌, ◌==◌, ◌>>=◌, ◌>>◌, ◌||◌, ◌∷◌,
}
use curator_spec.Json.{Value, Fields, bool, str, get, is_str, one_of, version?}

pub record Verdict : Type 0 where
  pub accepted : Bool
  pub state_changed : Bool
  pub diagnostic : Option String
  pub posture : Option String
  pub severity : Option String
  pub compared : Bool
  pub registry_excluded : Bool
  pub resolution_changed : Bool
  pub check_current : Bool

-- nothing to report
abbrev pub quiet : Verdict
quiet = record {
  accepted = true;
  state_changed = false;
  diagnostic = none;
  posture = none;
  severity = none;
  compared = false;
  registry_excluded = false;
  resolution_changed = false;
  check_current = true;
}

unfoldable pub bootstrap_version : Fields → String → Result ℕ
bootstrap_version c key = elim (version? (get c key)) [
  | none ↦ err "needs a non-negative integer"
  | some n ↦ ok n
]

abbrev pub bool? : Value → Option Bool
bool? (bool b) = some b
bool? _ = none

unfoldable pub bootstrap_bool : Fields → String → Result Bool
bootstrap_bool c key = elim (bool? (get c key)) [ none ↦ err "needs a boolean" | some b ↦ ok b ]

-- two or more registries of one log size are compared by their roots
compare_views : ℕ → Bool → Bool → Bool → Verdict
compare_views group same_size roots_equal strict =
    if leb 2 group && same_size && not roots_equal
    then record quiet {
      diagnostic = some "registry_view_divergence";
      severity = some (if strict then "error" else "warning");
      compared = true;
      check_current = not strict;
    }
    else record quiet { compared = leb 2 group && same_size }

unfoldable pub compare_phase : Fields → Result Verdict
unfolding compare_views bootstrap_version bootstrap_bool
compare_phase c = do
  group ← bootstrap_version c "group_size"
  raise_if (not (one_of (get c "policy") ("advisory" ∷ "strict" ∷ [])))
      "needs a closed registry policy"
  same_size ← bootstrap_bool c "same_log_size"
  roots_equal ← bootstrap_bool c "roots_equal"
  ok (compare_views group same_size roots_equal (is_str (get c "policy") "strict"))

-- the first network view against the verified checkpoint, which is already persisted
compare_first : ℕ → ℕ → Bool → Verdict
compare_first checkpoint first same_body =
    if ltb first checkpoint || (first == checkpoint && not same_body)
    then record quiet { accepted = false; state_changed = true; registry_excluded = true }
    else record quiet { state_changed = true }

unfoldable pub bootstrap_phase : Fields → Result Verdict
unfolding compare_first bootstrap_version bootstrap_bool
bootstrap_phase c = do
  raise_if (not (is_str (get c "prior_state") "missing")) "must start from missing prior state"
  configured ← bootstrap_bool c "checkpoint_configured"
  if not configured
      then ok (record quiet {
        state_changed = true;
        posture = some "registry_bootstrap_tofu";
        severity = some "warning";
      })
      else do
        signature_valid ← bootstrap_bool c "signature_valid"
        if not signature_valid
            then ok
                (record quiet { accepted = false; registry_excluded = true; check_current = false })
            else do
              checkpoint ← bootstrap_version c "checkpoint_version"
              first ← bootstrap_version c "first_network_version"
              same_body ← bootstrap_bool c "candidate_same_body"
              ok (compare_first checkpoint first same_body)

-- a new checkpoint against the persisted high-water
compare_stored : ℕ → ℕ → Bool → Verdict
compare_stored checkpoint stored same_body =
    if ltb checkpoint stored || (checkpoint == stored && not same_body)
    then record quiet {
      accepted = false;
      diagnostic = some "registry_checkpoint_regression";
      severity = some "error";
      check_current = false;
    }
    else if checkpoint == stored
    then quiet
    else record quiet { state_changed = true }

unfoldable pub rebootstrap_phase : Fields → Result Verdict
unfolding compare_stored bootstrap_version bootstrap_bool
rebootstrap_phase c = do
  raise_if (not (is_str (get c "prior_state") "present")) "must start from present prior state"
  configured ← bootstrap_bool c "checkpoint_configured"
  raise_if (not configured) "must configure a checkpoint"
  signature_valid ← bootstrap_bool c "signature_valid"
  if not signature_valid then ok (record quiet { accepted = false }) else do
    checkpoint ← bootstrap_version c "checkpoint_version"
    stored ← bootstrap_version c "stored_version"
    same_body ← bootstrap_bool c "candidate_same_body"
    ok (compare_stored checkpoint stored same_body)

unfoldable pub expected_bootstrap_verdict : Fields → Result Verdict
unfolding compare_phase bootstrap_phase rebootstrap_phase
expected_bootstrap_verdict c =
    let phase = get c "phase" in
    if is_str phase "compare"
    then compare_phase c
    else if is_str phase "bootstrap"
    then bootstrap_phase c
    else if is_str phase "rebootstrap"
    then rebootstrap_phase c
    else err "needs a closed phase"
