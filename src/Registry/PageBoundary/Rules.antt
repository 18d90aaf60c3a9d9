-- ===== src/Registry/PageBoundary/Rules.antt =====
-- What a page-boundary verdict says, and what the gate accepts.
use curator_spec.Prelude.{
  >>-eq-ok, >>=-eq-ok, Elem, String, arith, err, for_each, for_each-Elem, none, not, ok,
  ok_of_ne_err, pos, true, ℕ, ◌<◌, ◌↔◌, ◌≡◌, ◌⊎◌,
}
use curator_spec.Json.{equals_text-eq, text_value, is_bool-eq, Fields, int, bool, get, truthy}
use curator_spec.Cases.{cases, IsNamed, require_named_cases, require_named_cases-IsNamed}
use curator_spec.Registry.PageBoundary.{
  Verdict, expected_page_boundary_verdict, check_recorded, check_page_case, page_boundary_cases,
  validate_registry_page_boundary_vectors,
}

-- The boundary of the case is present and signed, and equals the boundary of its chain.
pub record IsTrusted (c : Fields) : Type 0 where
  pub present : truthy (get c "boundary_present") ≡ true
  pub signed : truthy (get c "signature_valid") ≡ true
  pub chained : truthy (get c "chain_boundary_equal") ≡ true

-- The boundary is not older than the stored high-water: it is higher, or it is the same boundary.
abbrev pub IsFresh : Fields → ℕ → ℕ → Type 0
IsFresh c stored boundary =
    (stored < boundary) ⊎ ((stored ≡ boundary) × (truthy (get c "same_body") ≡ true))

module _ (c : Fields) (stored boundary : ℕ) where
  abbrev Versions : Type 0
  Versions =
      (get c "stored_version" ≡ int (pos stored)) × (get c "boundary_version" ≡ int (pos boundary))

  -- what a verdict says of its case
  abbrev pub IsExact : Verdict → Type 0
  IsExact v =
      ((v.accepted ≡ true) ↔ (IsTrusted c × IsFresh c stored boundary))
      × ((v.high_water_advanced ≡ true) ↔ ((v.accepted ≡ true) × (stored < boundary)))
      × ((v.diagnostic ≡ none) ↔ (v.accepted ≡ true))

  page_verdict-returns :
      Versions → (message : String) → expected_page_boundary_verdict c ≡ err message → ⊥
  unfolding expected_page_boundary_verdict
  page_verdict-returns h message e = ground arith

  returned-IsExact : Versions → (v : Verdict) → expected_page_boundary_verdict c ≡ ok v → IsExact v
  unfolding expected_page_boundary_verdict
  returned-IsExact h v e = (ground arith, ground arith, ground arith)

-- A case with two versions has a verdict; it is accepted exactly when its boundary is trusted and
-- fresh, the high-water advances exactly when it is accepted and the boundary is higher, and there
-- is a diagnostic exactly when it is refused.
pub page_verdict-IsExact :
    (c : Fields) (stored boundary : ℕ)
    → get c "stored_version" ≡ int (pos stored)
    → get c "boundary_version" ≡ int (pos boundary)
    → (v : Verdict) × (expected_page_boundary_verdict c ≡ ok v) × IsExact c stored boundary v
page_verdict-IsExact c stored boundary hs hb =
    let (v, e) =
      ok_of_ne_err (expected_page_boundary_verdict c)
        (page_verdict-returns c stored boundary (hs, hb)) in
    (v, e, returned-IsExact c stored boundary (hs, hb) v e)

-- The case carries the verdict.
pub record Records (c : Fields) (v : Verdict) : Type 0 where
  pub accepted : get c "accepted" ≡ bool v.accepted
  pub diagnostic : get c "diagnostic" ≡ text_value v.diagnostic
  pub advanced : get c "high_water_advanced" ≡ bool v.high_water_advanced
  pub excluded : get c "registry_excluded" ≡ bool (not v.accepted)

check_recorded-Records : (c : Fields) (v : Verdict) → check_recorded c v ≡ ok tt → Records c v
unfolding check_recorded
check_recorded-Records c v h = record {
  accepted = is_bool-eq _ _ (ground arith);
  diagnostic = equals_text-eq _ _ (ground arith);
  advanced = is_bool-eq _ _ (ground arith);
  excluded = is_bool-eq _ _ (ground arith);
}

check_page_case-Records :
    (c : Fields)
    → check_page_case c ≡ ok tt
    → (v : Verdict) × (expected_page_boundary_verdict c ≡ ok v) × Records c v
unfolding check_page_case
check_page_case-Records c h =
    let (v, e, r) = >>=-eq-ok (expected_page_boundary_verdict c) (check_recorded c) h in
    (v, e, check_recorded-Records c v r)

-- What the gate promises of the client half: named cases, the required ones among them, and every
-- case carries the verdict that its inputs have.
pub record IsClientChecked (client : Fields) : Type 0 where
  pub named : IsNamed (get client "page_boundary_cases") page_boundary_cases
  pub recorded :
      (c : Fields)
      → Elem c (cases (get client "page_boundary_cases"))
      → (v : Verdict) × (expected_page_boundary_verdict c ≡ ok v) × Records c v

-- If the page-boundary gate passes, the client half is a list of named cases with every required
-- name, and each case carries exactly the verdict that is recomputed from its inputs.
pub page_gate_sound :
    (client service : Fields)
    → validate_registry_page_boundary_vectors client service ≡ ok tt
    → IsClientChecked client
unfolding validate_registry_page_boundary_vectors
page_gate_sound client service h =
    let (named, rest) =
      >>-eq-ok (require_named_cases (get client "page_boundary_cases") page_boundary_cases) _ h in
    let (loop, _) =
      >>-eq-ok (for_each (cases (get client "page_boundary_cases")) check_page_case) _ rest in
    record {
      named =
          require_named_cases-IsNamed (get client "page_boundary_cases") page_boundary_cases named;
      recorded = λ c m.
          check_page_case-Records c
            (for_each-Elem (cases (get client "page_boundary_cases")) check_page_case c loop m);
    }
