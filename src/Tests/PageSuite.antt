-- ===== src/Tests/PageSuite.antt =====
-- The page-boundary cases of conformance/v1/vectors/registry-client.json, and the members of
-- registry-service.json that their gate reads.
use curator_spec.Json.{Value, Fields, null, bool, int, str, arr, obj, no_items, item, member, bare}
use curator_spec.Prelude.{false, pos, true}

abbrev pub fresh_boundary_advances_high_water : Fields
fresh_boundary_advances_high_water = member "accepted" (bool true) (
    member "boundary_present" (bool true) (
      member "boundary_version" (int (pos 8)) (
        member "chain_boundary_equal" (bool true) (
          member "diagnostic" null (
            member "high_water_advanced" (bool true) (
              member "name" (str "fresh-boundary-advances-high-water") (
                member "registry_excluded" (bool false) (
                  member "same_body" (bool false) (
                    member "signature_valid" (bool true)
                      (member "stored_version" (int (pos 7)) bare))))))))))

abbrev equal_version_same_body_accepted : Fields
equal_version_same_body_accepted = member "accepted" (bool true) (
    member "boundary_present" (bool true) (
      member "boundary_version" (int (pos 8)) (
        member "chain_boundary_equal" (bool true) (
          member "diagnostic" null (
            member "high_water_advanced" (bool false) (
              member "name" (str "equal-version-same-body-accepted") (
                member "registry_excluded" (bool false) (
                  member "same_body" (bool true) (
                    member "signature_valid" (bool true)
                      (member "stored_version" (int (pos 8)) bare))))))))))

abbrev equal_version_different_body_rejected : Fields
equal_version_different_body_rejected = member "accepted" (bool false) (
    member "boundary_present" (bool true) (
      member "boundary_version" (int (pos 8)) (
        member "chain_boundary_equal" (bool true) (
          member "diagnostic" (str "registry_page_boundary_stale") (
            member "high_water_advanced" (bool false) (
              member "name" (str "equal-version-different-body-rejected") (
                member "registry_excluded" (bool true) (
                  member "same_body" (bool false) (
                    member "signature_valid" (bool true)
                      (member "stored_version" (int (pos 8)) bare))))))))))

abbrev below_high_water_rejected : Fields
below_high_water_rejected = member "accepted" (bool false) (
    member "boundary_present" (bool true) (
      member "boundary_version" (int (pos 7)) (
        member "chain_boundary_equal" (bool true) (
          member "diagnostic" (str "registry_page_boundary_stale") (
            member "high_water_advanced" (bool false) (
              member "name" (str "below-high-water-rejected") (
                member "registry_excluded" (bool true) (
                  member "same_body" (bool false) (
                    member "signature_valid" (bool true)
                      (member "stored_version" (int (pos 8)) bare))))))))))

abbrev chain_boundary_mismatch_rejected : Fields
chain_boundary_mismatch_rejected = member "accepted" (bool false) (
    member "boundary_present" (bool true) (
      member "boundary_version" (int (pos 8)) (
        member "chain_boundary_equal" (bool false) (
          member "diagnostic" (str "registry_page_boundary_mismatch") (
            member "high_water_advanced" (bool false) (
              member "name" (str "chain-boundary-mismatch-rejected") (
                member "registry_excluded" (bool true) (
                  member "same_body" (bool false) (
                    member "signature_valid" (bool true)
                      (member "stored_version" (int (pos 7)) bare))))))))))

abbrev missing_boundary_excluded : Fields
missing_boundary_excluded = member "accepted" (bool false) (
    member "boundary_present" (bool false) (
      member "boundary_version" (int (pos 0)) (
        member "chain_boundary_equal" (bool false) (
          member "diagnostic" (str "registry_page_boundary_missing") (
            member "high_water_advanced" (bool false) (
              member "name" (str "missing-boundary-excluded") (
                member "registry_excluded" (bool true) (
                  member "same_body" (bool false) (
                    member "signature_valid" (bool false)
                      (member "stored_version" (int (pos 7)) bare))))))))))

abbrev bad_signature_rejected : Fields
bad_signature_rejected = member "accepted" (bool false) (
    member "boundary_present" (bool true) (
      member "boundary_version" (int (pos 8)) (
        member "chain_boundary_equal" (bool true) (
          member "diagnostic" (str "registry_page_boundary_missing") (
            member "high_water_advanced" (bool false) (
              member "name" (str "bad-signature-rejected") (
                member "registry_excluded" (bool true) (
                  member "same_body" (bool false) (
                    member "signature_valid" (bool false)
                      (member "stored_version" (int (pos 7)) bare))))))))))

abbrev stale_and_mismatch_reports_mismatch : Fields
stale_and_mismatch_reports_mismatch = member "accepted" (bool false) (
    member "boundary_present" (bool true) (
      member "boundary_version" (int (pos 7)) (
        member "chain_boundary_equal" (bool false) (
          member "diagnostic" (str "registry_page_boundary_mismatch") (
            member "high_water_advanced" (bool false) (
              member "name" (str "stale-and-mismatch-reports-mismatch") (
                member "registry_excluded" (bool true) (
                  member "same_body" (bool false) (
                    member "signature_valid" (bool true)
                      (member "stored_version" (int (pos 8)) bare))))))))))

abbrev higher_and_mismatch_never_advances : Fields
higher_and_mismatch_never_advances = member "accepted" (bool false) (
    member "boundary_present" (bool true) (
      member "boundary_version" (int (pos 9)) (
        member "chain_boundary_equal" (bool false) (
          member "diagnostic" (str "registry_page_boundary_mismatch") (
            member "high_water_advanced" (bool false) (
              member "name" (str "higher-and-mismatch-never-advances") (
                member "registry_excluded" (bool true) (
                  member "same_body" (bool false) (
                    member "signature_valid" (bool true)
                      (member "stored_version" (int (pos 7)) bare))))))))))

abbrev pub page_suite : Value
page_suite = arr (
    item (obj fresh_boundary_advances_high_water) (
      item (obj equal_version_same_body_accepted) (
        item (obj equal_version_different_body_rejected) (
          item (obj below_high_water_rejected) (
            item (obj chain_boundary_mismatch_rejected) (
              item (obj missing_boundary_excluded) (
                item (obj bad_signature_rejected) (
                  item (obj stale_and_mismatch_reports_mismatch)
                    (item (obj higher_and_mismatch_never_advances) no_items)))))))))

abbrev pub client : Fields
client = member "page_boundary_cases" page_suite bare

abbrev pub service : Fields
service =
    member "pagination"
      (obj (
        member "boundary_emitted_on_every_page" (bool true) (
          member "chain_boundary_byte_identical" (bool true) (
            member "cursor_boundary_cases"
              (arr (
                item
                  (obj (
                    member "error" (str "invalid_cursor") (
                      member "name" (str "cursor-boundary-disagreement") (
                        member "reevaluate_at_newer_boundary" (bool false)
                          (member "status" (int (pos 404)) bare)))))
                  no_items))
              bare))))
      bare
