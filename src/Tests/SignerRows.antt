-- ===== src/Tests/SignerRows.antt =====
-- The signer rows of a lock with an enforced and an unconfigured source.
use curator_spec.Prelude.{List, String, [], false, ok, refl, true, ◌∷◌, ◌≡◌}
use curator_spec.Text.{text_eq}
use curator_spec.Json.{Value, Fields, null, bool, str, arr, obj, item, no_items, member, bare}
use curator_spec.Signers.Posture.{SignerRow, signer_row, e1_expected_posture}
use curator_spec.Signers.Rows.{IsSurvey, e1_expected_posture-IsSurvey}

abbrev lock_member : String → Value → Value
lock_member name source =
    obj (member "kind" (str "skill") (member "name" (str name) (member "source" source bare)))

abbrev signer : String → Value
signer key = obj (member "type" (str "ssh") (member "key" (str key) bare))

abbrev survey_case : Value → Fields
survey_case verdict =
    member "members"
      (arr (
        item (lock_member "b" (str "git/b")) (
          item (lock_member "a" (str "git/a"))
            (item (lock_member "c" (str "git/a")) (item (lock_member "d" null) no_items)))))
      (member "allowlists"
        (obj (member "git/a" (arr (item (signer "ssh-ed25519 AAAA") no_items)) bare))
        (member "require_source_signers" (bool true)
          (member "local" (obj (member "git/a" verdict bare)) bare)))

abbrev verified : Value
verified =
    obj
      (member "verdict" (str "verified") (member "signer" (signer "ssh-ed25519 AAAA laptop") bare))

abbrev reported : List SignerRow
reported =
    signer_row "git/a" "enforced" (signer "ssh-ed25519 AAAA laptop") true
    ∷ signer_row "git/b" "required-missing" null true
    ∷ []

survey_run : e1_expected_posture (survey_case verified) ≡ ok (reported, true)
unfolding e1_expected_posture text_eq
survey_run = refl

fails_run :
    e1_expected_posture (survey_case (obj (member "verdict" (str "fails") bare)))
    ≡ ok (
      signer_row "git/a" "enforced" (str "unknown") false
          ∷ signer_row "git/b" "required-missing" null true
          ∷ [],
      true,
    )
unfolding e1_expected_posture
fails_run = refl

e1_expected_posture-IsSurvey_example : IsSurvey (survey_case verified) reported true
e1_expected_posture-IsSurvey_example =
    e1_expected_posture-IsSurvey (survey_case verified) reported true survey_run
