-- ===== src/Tests/CheckpointSuite.antt =====
-- The checkpoint cases of conformance/v1/vectors/registry-service.json.
use curator_spec.Json.{Value, Fields, null, bool, int, str, arr, obj, no_items, item, member, bare}
use curator_spec.Prelude.{false, pos, true}

abbrev checkpoint_below_live_consistent : Fields
checkpoint_below_live_consistent = member "checkpoint_configured" (bool true) (
    member "checkpoint_version" (int (pos 8)) (
      member "diagnostic" null (
        member "live_version" (int (pos 10)) (
          member "name" (str "checkpoint-below-live-consistent") (
            member "posture" null (
              member "prefix_reproduced" (bool true) (
                member "ready" (bool true) (
                  member "same_boundary_body" (bool false)
                    (member "signature_valid" (bool true) bare)))))))))

abbrev checkpoint_equal_consistent : Fields
checkpoint_equal_consistent = member "checkpoint_configured" (bool true) (
    member "checkpoint_version" (int (pos 8)) (
      member "diagnostic" null (
        member "live_version" (int (pos 8)) (
          member "name" (str "checkpoint-equal-consistent") (
            member "posture" null (
              member "prefix_reproduced" (bool true) (
                member "ready" (bool true) (
                  member "same_boundary_body" (bool true)
                    (member "signature_valid" (bool true) bare)))))))))

abbrev checkpoint_equal_inconsistent : Fields
checkpoint_equal_inconsistent = member "checkpoint_configured" (bool true) (
    member "checkpoint_version" (int (pos 8)) (
      member "diagnostic" (str "restore_inconsistent_with_checkpoint") (
        member "live_version" (int (pos 8)) (
          member "name" (str "checkpoint-equal-inconsistent") (
            member "posture" null (
              member "prefix_reproduced" (bool true) (
                member "ready" (bool false) (
                  member "same_boundary_body" (bool false)
                    (member "signature_valid" (bool true) bare)))))))))

abbrev pub live_below_checkpoint : Fields
live_below_checkpoint = member "checkpoint_configured" (bool true) (
    member "checkpoint_version" (int (pos 8)) (
      member "diagnostic" (str "restore_below_checkpoint") (
        member "live_version" (int (pos 7)) (
          member "name" (str "live-below-checkpoint") (
            member "posture" null (
              member "prefix_reproduced" (bool false) (
                member "ready" (bool false) (
                  member "same_boundary_body" (bool false)
                    (member "signature_valid" (bool true) bare)))))))))

abbrev live_above_prefix_mismatch : Fields
live_above_prefix_mismatch = member "checkpoint_configured" (bool true) (
    member "checkpoint_version" (int (pos 8)) (
      member "diagnostic" (str "restore_inconsistent_with_checkpoint") (
        member "live_version" (int (pos 10)) (
          member "name" (str "live-above-prefix-mismatch") (
            member "posture" null (
              member "prefix_reproduced" (bool false) (
                member "ready" (bool false) (
                  member "same_boundary_body" (bool false)
                    (member "signature_valid" (bool true) bare)))))))))

abbrev checkpoint_signature_invalid : Fields
checkpoint_signature_invalid = member "checkpoint_configured" (bool true) (
    member "checkpoint_version" (int (pos 8)) (
      member "diagnostic" (str "checkpoint_signature_invalid") (
        member "live_version" (int (pos 8)) (
          member "name" (str "checkpoint-signature-invalid") (
            member "posture" null (
              member "prefix_reproduced" (bool true) (
                member "ready" (bool false) (
                  member "same_boundary_body" (bool true)
                    (member "signature_valid" (bool false) bare)))))))))

abbrev checkpoint_not_configured : Fields
checkpoint_not_configured = member "checkpoint_configured" (bool false) (
    member "checkpoint_version" (int (pos 0)) (
      member "diagnostic" null (
        member "live_version" (int (pos 8)) (
          member "name" (str "checkpoint-not-configured") (
            member "posture" (str "checkpoint_not_configured") (
              member "prefix_reproduced" (bool true) (
                member "ready" (bool true) (
                  member "same_boundary_body" (bool true)
                    (member "signature_valid" (bool true) bare)))))))))

abbrev pub checkpoint_suite : Value
checkpoint_suite = arr (
    item (obj checkpoint_below_live_consistent) (
      item (obj checkpoint_equal_consistent) (
        item (obj checkpoint_equal_inconsistent) (
          item (obj live_below_checkpoint) (
            item (obj live_above_prefix_mismatch) (
              item (obj checkpoint_signature_invalid)
                (item (obj checkpoint_not_configured) no_items)))))))

abbrev pub service : Fields
service = member "checkpoint_cases" checkpoint_suite bare
