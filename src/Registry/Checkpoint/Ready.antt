-- ===== src/Registry/Checkpoint/Ready.antt =====
-- When the service may start.
use curator_spec.Prelude.{
  String, arith, err, false, none, ok, ok_of_ne_err, pos, true, ℕ, ◌<◌, ◌↔◌, ◌≡◌, ◌⊎◌,
}
use curator_spec.Json.{Fields, int, get, is_bool}
use curator_spec.Registry.Checkpoint.{Verdict, expected_checkpoint_verdict}

-- The live log agrees with the checkpoint: it is the same boundary, or it is longer and
-- reproduces the checkpoint boundary at its size.
abbrev pub Agrees : Fields → ℕ → ℕ → Type 0
Agrees c live checkpoint =
    ((live ≡ checkpoint) × (is_bool (get c "same_boundary_body") true ≡ true))
    ⊎ ((checkpoint < live) × (is_bool (get c "prefix_reproduced") true ≡ true))

module _ (c : Fields) (live checkpoint : ℕ) where
  abbrev Versions : Type 0
  Versions =
      (get c "live_version" ≡ int (pos live)) × (get c "checkpoint_version" ≡ int (pos checkpoint))

  -- what a verdict says of its case
  abbrev pub IsExact : Verdict → Type 0
  IsExact v =
      ((v.ready ≡ true) ↔ (
        is_bool (get c "checkpoint_configured") true ≡ false
        ⊎ ((is_bool (get c "signature_valid") true ≡ true) × Agrees c live checkpoint)))
      × ((v.diagnostic ≡ none) ↔ (v.ready ≡ true))
      × ((v.posture ≡ none) ↔ (is_bool (get c "checkpoint_configured") true ≡ true))

  checkpoint_verdict-returns :
      Versions → (message : String) → expected_checkpoint_verdict c ≡ err message → ⊥
  unfolding expected_checkpoint_verdict
  checkpoint_verdict-returns h message e = ground arith

  returned-IsExact : Versions → (v : Verdict) → expected_checkpoint_verdict c ≡ ok v → IsExact v
  unfolding expected_checkpoint_verdict
  returned-IsExact h v e = (ground arith, ground arith, ground arith)

-- A case with two versions has a verdict. The service is ready exactly when no checkpoint is
-- configured, or the checkpoint is signed and the live log agrees with it; there is a diagnostic
-- exactly when it is refused, and a posture exactly when no checkpoint is configured.
pub checkpoint_verdict-IsExact :
    (c : Fields) (live checkpoint : ℕ)
    → get c "live_version" ≡ int (pos live)
    → get c "checkpoint_version" ≡ int (pos checkpoint)
    → (v : Verdict) × (expected_checkpoint_verdict c ≡ ok v) × IsExact c live checkpoint v
checkpoint_verdict-IsExact c live checkpoint hl hc =
    let (v, e) =
      ok_of_ne_err (expected_checkpoint_verdict c)
        (checkpoint_verdict-returns c live checkpoint (hl, hc)) in
    (v, e, returned-IsExact c live checkpoint (hl, hc) v e)
