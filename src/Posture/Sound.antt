-- ===== src/Posture/Sound.antt =====
-- What the gate of the posture vectors in tools/validate.py establishes.
use curator_spec.Prelude.{
  >>-eq-ok, >>=-eq-ok, Elem, Elem-of_map, List, String, [], all-Elem, ap, arith, eq_iff, false, inl,
  inr, map, not, not-eq-false, ok, raise_if, raise_if-eq-ok, str_eq, sym, true, ||-false, ◌∙◌, ◌∷◌,
  ◌≡◌,
}
use curator_spec.Json.{is_bool, Value, Fields, null, str, arr, obj, get, is_in}
use curator_spec.Json.Equal.{Floats, same_value}
use curator_spec.Cases.{
  is_name-str, cases, name_of, name_text, require_named_cases, require_named_cases-IsNamed,
  any_eq-Elem,
}
use curator_spec.Posture.{object_of-eq, Resolved, object_of, list_value}
use curator_spec.Posture.Resolve.{posture_resolve}
use curator_spec.Posture.Diagnostics.{posture_diagnostics, posture_outcome}
use curator_spec.Posture.Scenario.{differs, posture_check_scenario}
use curator_spec.Posture.Gate.{
  other_values, other_profile, posture_cases, same_names, check_envelope, check_posture_case,
  check_posture_cases, validate_security_posture_vectors,
}

same_value-str :
    (floats : Floats) (v : Value) (s : String) → differs floats v (str s) ≡ false → v ≡ str s
unfolding same_value
same_value-str floats (str t) s h = ap str (sym ((eq_iff s t).0 (not-eq-false (str_eq s t) h)))
same_value-str floats null s h = cc
same_value-str floats _ s h = cc

-- the recorded outputs of a case are those that follow from its inputs
pub record IsRecorded (floats : Floats) (c : Fields) : Type 0 where
  pub r : Resolved
  pub diagnostics : List Value
  pub outcome : String
  pub expected : Fields
  pub resolved : posture_resolve c ≡ ok r
  pub derived : posture_diagnostics c r ≡ ok diagnostics
  pub decided : posture_outcome c r diagnostics ≡ ok outcome
  pub pinned :
      posture_check_scenario floats (name_text (name_of c)) c r.profile r.profile_source ≡ ok tt
  pub is_expected : get c "expected" ≡ obj expected
  pub profile : get expected "profile" ≡ str r.profile
  pub profile_source : get expected "profile_source" ≡ str r.profile_source
  pub same_diagnostics :
      same_value floats (get expected "diagnostics") (arr (list_value diagnostics)) ≡ true
  pub same_outcome : get expected "outcome" ≡ str outcome

found_all :
    (floats : Floats) (cs : List Fields) (seen : List String) (c : Fields)
    → check_posture_cases floats cs ≡ ok seen
    → Elem c cs
    → (codes : List String) × (check_posture_case floats c ≡ ok codes)
found_all floats [] seen c h m = absurd m
found_all floats (d ∷ cs) seen c h (inl e) =
    let (codes, f, _) = >>=-eq-ok (check_posture_case floats d) _ h in (codes, rw e f)
found_all floats (d ∷ cs) seen c h (inr m) =
    let (_, _, g) = >>=-eq-ok (check_posture_case floats d) _ h in
    let (rest, k, _) = >>=-eq-ok (check_posture_cases floats cs) _ g in
    found_all floats cs rest c k m

check_posture_case-IsRecorded :
    (floats : Floats) (c : Fields) (codes : List String)
    → check_posture_case floats c ≡ ok codes
    → IsRecorded floats c
unfolding check_posture_case
check_posture_case-IsRecorded floats c codes h =
    let (r, e, h1) = >>=-eq-ok (posture_resolve c) _ h in
    let (pins, h2) =
      >>-eq-ok (posture_check_scenario floats (name_text (name_of c)) c r.profile r.profile_source)
        _ h1 in
    let (expected, x, h3) =
      >>=-eq-ok (object_of (get c "expected") "carries no expected block") _ h2 in
    let (p, h4) = >>-eq-ok (raise_if (other_profile floats expected r) _) _ h3 in
    let (_, h5) = >>-eq-ok (raise_if (other_values floats expected r) _) _ h4 in
    let (_, h6) =
      >>-eq-ok
        (raise_if
          (not (is_bool (get expected "passable_env_null_explicit") r.passable_env_null_explicit))
          _)
        _ h5 in
    let (ds, d, h7) = >>=-eq-ok (posture_diagnostics c r) _ h6 in
    let (q, h8) =
      >>-eq-ok (raise_if (differs floats (get expected "diagnostics") (arr (list_value ds))) _) _
        h7 in
    let (outcome, o, h9) = >>=-eq-ok (posture_outcome c r ds) _ h8 in
    let (w, _) =
      >>-eq-ok (raise_if (differs floats (get expected "outcome") (str outcome)) _) _ h9 in
    let (p1, p2) = ||-false _ _ (raise_if-eq-ok (other_profile floats expected r) _ p) in
    record {
      r = r;
      diagnostics = ds;
      outcome = outcome;
      expected = expected;
      resolved = e;
      derived = d;
      decided = o;
      pinned = pins;
      is_expected = object_of-eq (get c "expected") _ expected x;
      profile = same_value-str floats _ _ p1;
      profile_source = same_value-str floats _ _ p2;
      same_diagnostics = not-eq-false _ (raise_if-eq-ok _ _ q);
      same_outcome = same_value-str floats _ _ (raise_if-eq-ok _ _ w);
    }

same_names-Listed :
    (xs ys : List String) (y : String) → same_names xs ys ≡ true → Elem y ys → is_in y xs ≡ true
same_names-Listed xs ys y h m = all-Elem (λ z. is_in z xs) y ys (ground arith) m

-- If the gate passes, the suite holds a case of each of the seventeen names, its pins hold, and it
-- records what follows from its inputs: the profile and its source, the diagnostics and the outcome.
pub posture_gate_sound :
    (floats : Floats) (vector : Fields) (name : String)
    → validate_security_posture_vectors floats vector ≡ ok tt
    → Elem name posture_cases
    → (c : Fields) × Elem c (cases (get vector "cases"))
      × (get c "name" ≡ str name)
      × IsRecorded floats c
unfolding validate_security_posture_vectors
posture_gate_sound floats vector name h m =
    let cs = cases (get vector "cases") in
    let texts = map (λ c. name_text (name_of c)) cs in
    let (_, h1) = >>-eq-ok (check_envelope floats vector) _ h in
    let (n, h2) = >>-eq-ok (require_named_cases (get vector "cases") []) _ h1 in
    let (s, h3) = >>-eq-ok (raise_if (not (same_names texts posture_cases)) _) _ h2 in
    let (seen, k, _) = >>=-eq-ok (check_posture_cases floats cs) _ h3 in
    let named = require_named_cases-IsNamed (get vector "cases") [] n in
    let same = not-eq-false (same_names texts posture_cases) (raise_if-eq-ok _ _ s) in
    let listed = same_names-Listed texts posture_cases name same m in
    let (c, mc, e) =
      Elem-of_map (λ c. name_text (name_of c)) name cs (any_eq-Elem name texts listed) in
    let (codes, f) = found_all floats cs seen c k mc in
    (
      c,
      mc,
      is_name-str (name_of c) (named.named c mc) ∙ ap str (sym e),
      check_posture_case-IsRecorded floats c codes f,
    )
