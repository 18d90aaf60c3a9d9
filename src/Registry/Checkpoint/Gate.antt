-- ===== src/Registry/Checkpoint/Gate.antt =====
-- The checkpoint gate, and the verdict that each required name stands for.
use curator_spec.Prelude.{
  >>-eq-ok, >>=-eq-ok, All, All-Elem, Elem, String, arith, for_each-Elem, if◌then◌else◌, none, ok,
  some, str_eq, true, ◌||◌, ◌≡◌,
}
use curator_spec.Json.{text_value, equals_text-eq, is_bool-eq, bool, Fields, str, get}
use curator_spec.Cases.{require_named_cases-IsNamed, cases, require_named_cases}
use curator_spec.Registry.Checkpoint.{
  Verdict, serve, refuse, expected_checkpoint_verdict, require_checkpoint_scenario, check_recorded,
  check_checkpoint_case, checkpoint_cases, validate_registry_checkpoint_vectors,
}

-- the verdict that the profile gives each required case
pub promised : String → Verdict
promised name =
    if str_eq name "checkpoint-not-configured"
    then record { ready = true; diagnostic = none; posture = some "checkpoint_not_configured" }
    else if str_eq name "checkpoint-signature-invalid"
    then refuse "checkpoint_signature_invalid"
    else if str_eq name "live-below-checkpoint"
    then refuse "restore_below_checkpoint"
    else if str_eq name "checkpoint-equal-inconsistent" || str_eq name "live-above-prefix-mismatch"
    then refuse "restore_inconsistent_with_checkpoint"
    else serve

-- the scenario check decides the verdict of a name
abbrev Decides : String → Type 0
Decides name =
    (c : Fields)
    → get c "name" ≡ str name
    → require_checkpoint_scenario c ≡ ok tt
    → expected_checkpoint_verdict c ≡ ok (promised name)

checkpoint_below_live_consistent : Decides "checkpoint-below-live-consistent"
unfolding require_checkpoint_scenario expected_checkpoint_verdict promised
checkpoint_below_live_consistent c n h = ground arith

checkpoint_equal_consistent : Decides "checkpoint-equal-consistent"
unfolding require_checkpoint_scenario expected_checkpoint_verdict promised
checkpoint_equal_consistent c n h = ground arith

checkpoint_equal_inconsistent : Decides "checkpoint-equal-inconsistent"
unfolding require_checkpoint_scenario expected_checkpoint_verdict promised
checkpoint_equal_inconsistent c n h = ground arith

live_below_checkpoint : Decides "live-below-checkpoint"
unfolding require_checkpoint_scenario expected_checkpoint_verdict promised
live_below_checkpoint c n h = ground arith

live_above_prefix_mismatch : Decides "live-above-prefix-mismatch"
unfolding require_checkpoint_scenario expected_checkpoint_verdict promised
live_above_prefix_mismatch c n h = ground arith

checkpoint_signature_invalid : Decides "checkpoint-signature-invalid"
unfolding require_checkpoint_scenario expected_checkpoint_verdict promised
checkpoint_signature_invalid c n h = ground arith

checkpoint_not_configured : Decides "checkpoint-not-configured"
unfolding require_checkpoint_scenario expected_checkpoint_verdict promised
checkpoint_not_configured c n h = ground arith

All-decided : All Decides checkpoint_cases
All-decided = (
  checkpoint_below_live_consistent,
  (
    checkpoint_equal_consistent,
    (
      checkpoint_equal_inconsistent,
      (
        live_below_checkpoint,
        (
          live_above_prefix_mismatch,
          (checkpoint_signature_invalid, (checkpoint_not_configured, tt)),
        ),
      ),
    ),
  ),
)

-- A case whose name is required and that passes the scenario check has the promised verdict,
-- whatever else it carries.
pub scenario-promised :
    (c : Fields) (name : String)
    → Elem name checkpoint_cases
    → get c "name" ≡ str name
    → require_checkpoint_scenario c ≡ ok tt
    → expected_checkpoint_verdict c ≡ ok (promised name)
scenario-promised c name m = All-Elem Decides name checkpoint_cases All-decided m c

-- The case carries the verdict.
pub record Records (c : Fields) (v : Verdict) : Type 0 where
  pub ready : get c "ready" ≡ bool v.ready
  pub diagnostic : get c "diagnostic" ≡ text_value v.diagnostic
  pub posture : get c "posture" ≡ text_value v.posture

check_recorded-Records : (c : Fields) (v : Verdict) → check_recorded c v ≡ ok tt → Records c v
unfolding check_recorded
check_recorded-Records c v h = record {
  ready = is_bool-eq _ _ (ground arith);
  diagnostic = equals_text-eq _ _ (ground arith);
  posture = equals_text-eq _ _ (ground arith);
}

check_case-promised :
    (c : Fields) (name : String)
    → Elem name checkpoint_cases
    → get c "name" ≡ str name
    → check_checkpoint_case c ≡ ok tt
    → Records c (promised name)
unfolding check_checkpoint_case
check_case-promised c name m n h =
    let (scenario, rest) = >>-eq-ok (require_checkpoint_scenario c) _ h in
    let (v, e, r) = >>=-eq-ok (expected_checkpoint_verdict c) (check_recorded c) rest in
    check_recorded-Records c (promised name) (cc (e, r, scenario-promised c name m n scenario))

-- If the checkpoint gate passes, then for every required name the suite holds a case of that name
-- which carries the promised readiness, diagnostic and posture.
pub checkpoint_gate_sound :
    (service : Fields) (name : String)
    → validate_registry_checkpoint_vectors service ≡ ok tt
    → Elem name checkpoint_cases
    → (c : Fields) × Elem c (cases (get service "checkpoint_cases"))
      × (get c "name" ≡ str name)
      × Records c (promised name)
unfolding validate_registry_checkpoint_vectors
checkpoint_gate_sound service name h m =
    let suite = get service "checkpoint_cases" in
    let (named, loop) = >>-eq-ok (require_named_cases suite checkpoint_cases) _ h in
    let (c, mc, n) = (require_named_cases-IsNamed suite checkpoint_cases named).found name m in
    (
      c,
      mc,
      n,
      check_case-promised c name m n (for_each-Elem (cases suite) check_checkpoint_case c loop mc),
    )
