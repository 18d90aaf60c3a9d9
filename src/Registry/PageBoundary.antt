-- ===== src/Registry/PageBoundary.antt =====
-- Page boundaries of the registry client: `expected_page_boundary_verdict` and
-- `validate_registry_page_boundary_vectors` of tools/validate.py.
pub mod Rules
use curator_spec.Prelude.{
  Bool, Check, List, Option, Result, String, [], err, false, for_each, if◌then◌else◌, ltb, none,
  not, ok, pos, raise_if, some, str_eq, true, ℕ, ◌&&◌, ◌==◌, ◌>>=◌, ◌>>◌, ◌||◌, ◌∷◌,
}
use curator_spec.Json.{
  Value, Fields, obj, int, float, get, truthy, is_bool, is_str, is_null, equals_text, one_of,
  with_versions,
}
use curator_spec.Cases.{cases, require_named_cases}

pub record Verdict : Type 0 where
  pub accepted : Bool
  pub diagnostic : Option String
  pub high_water_advanced : Bool

abbrev pub refuse : String → Verdict
refuse d = record { accepted = false; diagnostic = some d; high_water_advanced = false }

-- the first page against the stored high-water
pub compare_high_water : ℕ → ℕ → Bool → Verdict
compare_high_water stored boundary same_body =
    if ltb boundary stored || (boundary == stored && not same_body)
    then refuse "registry_page_boundary_stale"
    else record { accepted = true; diagnostic = none; high_water_advanced = ltb stored boundary }

unfoldable pub expected_page_boundary_verdict : Fields → Result Verdict
unfolding compare_high_water
expected_page_boundary_verdict c =
    if not (truthy (get c "boundary_present")) || not (truthy (get c "signature_valid"))
    then ok (refuse "registry_page_boundary_missing")
    else if not (truthy (get c "chain_boundary_equal"))
    then ok (refuse "registry_page_boundary_mismatch")
    else with_versions (get c "stored_version") (get c "boundary_version")
        "needs non-negative integer stored and boundary versions"
        λ stored boundary. ok (compare_high_water stored boundary (truthy (get c "same_body")))

abbrev pub page_boundary_cases : List String
page_boundary_cases =
    "fresh-boundary-advances-high-water" ∷ "equal-version-same-body-accepted"
    ∷ "equal-version-different-body-rejected" ∷ "below-high-water-rejected"
    ∷ "chain-boundary-mismatch-rejected" ∷ "missing-boundary-excluded" ∷ "bad-signature-rejected"
    ∷ "stale-and-mismatch-reports-mismatch" ∷ "higher-and-mismatch-never-advances" ∷ []

abbrev pub page_boundary_diagnostics : List String
page_boundary_diagnostics =
    "registry_page_boundary_missing" ∷ "registry_page_boundary_mismatch"
    ∷ "registry_page_boundary_stale" ∷ []

-- the recorded outputs of a case against the recomputed verdict
pub check_recorded : Fields → Verdict → Check
check_recorded c v =
    raise_if (not (is_bool (get c "accepted") v.accepted)) "admits or rejects against section 9.3"
    >> (raise_if
          (not (is_null (get c "diagnostic"))
            && not (one_of (get c "diagnostic") page_boundary_diagnostics))
          "uses non-closed diagnostic"
        >> (raise_if (not (equals_text (get c "diagnostic") v.diagnostic))
              "carries another diagnostic"
            >> (raise_if (not (is_bool (get c "high_water_advanced") v.high_water_advanced))
                  "has the wrong high-water advance"
                >> raise_if (not (is_bool (get c "registry_excluded") (not v.accepted)))
                    "has the wrong registry exclusion")))

pub check_page_case : Fields → Check
unfolding check_recorded expected_page_boundary_verdict
check_page_case c = do v ← expected_page_boundary_verdict c; check_recorded c v

-- `status == 404`
abbrev is_404 : Value → Bool
is_404 (int (pos n)) = n == 404
is_404 (float t) = str_eq t "404.0"
is_404 _ = false

pub check_cursor_case : Fields → Check
check_cursor_case c =
    raise_if
      (not (is_404 (get c "status"))
        || not (is_str (get c "error") "invalid_cursor")
        || not (is_bool (get c "reevaluate_at_newer_boundary") false))
      "must refuse with 404 invalid_cursor without re-evaluating"

-- the service half: the boundary is on every page, and a stale cursor is refused
pub check_pagination : Value → Check
unfolding check_cursor_case
check_pagination (obj pagination) =
    raise_if (not (is_bool (get pagination "boundary_emitted_on_every_page") true))
      "must emit the boundary on every page"
    >> (raise_if (not (is_bool (get pagination "chain_boundary_byte_identical") true))
          "cursor-chain boundaries must be byte-identical"
        >> (require_named_cases (get pagination "cursor_boundary_cases")
              ("cursor-boundary-disagreement" ∷ [])
            >> for_each (cases (get pagination "cursor_boundary_cases")) check_cursor_case))
check_pagination _ = err "pagination boundary is incomplete"

unfoldable pub validate_registry_page_boundary_vectors : Fields → Fields → Check
unfolding check_page_case check_pagination
validate_registry_page_boundary_vectors client service =
    require_named_cases (get client "page_boundary_cases") page_boundary_cases
    >> (for_each (cases (get client "page_boundary_cases")) check_page_case
        >> check_pagination (get service "pagination"))
