-- ===== src/Signers/Rows.antt =====
-- What the signer rows of tools/validate.py report.
use mathlib.Core.Path.{transport}
use curator_spec.Prelude.{
  >>-eq-ok, >>=-eq-ok, All, Bool, Bool-cases, Elem, List, String, [], any, any-Elem, ap, arith,
  false, if-false, if-true, if◌then◌else◌, inl, inr, map, not, ok, ok-eq, raise_if, refl, sorted,
  sym, true, unique, ◌>>=◌, ◌∙◌, ◌∷◌, ◌≡◌, ◌⊎◌,
}
use curator_spec.Json.{Value, Fields, null, str, obj, get, is_in, is_str, is_str-eq, field_names}
use curator_spec.Json.Read.{list_of}
use curator_spec.Signers.{Signer, check_signer_shape, signer_identity, same_signer}
use curator_spec.Signers.Posture.{
  SignerRow, signer_row, shapes, verified_row, enforced_row, row_of, rows_of, member_sources,
  members_in, dict_of, bool_of, covers_enforced, e1_expected_posture,
}

-- a signer that is one of the allowlist of a source
abbrev pub IsListed : Fields → SignerRow → Type 0
IsListed allowlists r =
    (s : Signer) × (entries : List Signer) × (entry : Signer) × (check_signer_shape r.signer ≡ ok s)
    × ((list_of (get allowlists r.source) >>= shapes) ≡ ok entries)
    × Elem entry entries
    × (same_signer (signer_identity s) (signer_identity entry) ≡ true)

-- the row of a verdict: verified with its signer, which is listed, unknown, or a failure
abbrev pub HasVerdict : Fields → Fields → SignerRow → Type 0
HasVerdict allowlists d r =
    ((get d "verdict" ≡ str "verified")
      × (r.signer ≡ get d "signer")
      × (r.current ≡ true)
      × IsListed allowlists r)
    ⊎ (((get d "verdict" ≡ str "unknown") × (r.signer ≡ str "unknown") × (r.current ≡ true))
        ⊎ ((get d "verdict" ≡ str "fails") × (r.signer ≡ str "unknown") × (r.current ≡ false)))

-- an enforced row, by the local re-verification `v` of its source
abbrev pub IsEnforced : Fields → Value → SignerRow → Type 0
IsEnforced allowlists v r =
    (r.state ≡ "enforced") × (d : Fields) × (v ≡ obj d) × HasVerdict allowlists d r

-- a row: enforced where there is an allowlist, and otherwise without a signer
abbrev pub IsReport : Fields → Fields → Bool → SignerRow → Type 0
IsReport allowlists local require r =
    (is_in r.source (field_names allowlists) ≡ true → IsEnforced allowlists (get local r.source) r)
    × (is_in r.source (field_names allowlists) ≡ false
        → (r.state ≡ (if require then "required-missing" else "unconfigured"))
          × (r.signer ≡ null)
          × (r.current ≡ true))

verified_row-HasVerdict :
    (allowlists d : Fields) (source : String) (r : SignerRow)
    → get d "verdict" ≡ str "verified"
    → verified_row source (get d "signer") (get allowlists source) ≡ ok r
    → (r.source ≡ source) × IsEnforced allowlists (obj d) r
verified_row-HasVerdict allowlists d source r v h =
    let signer = get d "signer" in
    let (s, e, h1) = >>=-eq-ok (check_signer_shape signer) _ h in
    let (allowed, f, h2) = >>=-eq-ok (list_of (get allowlists source) >>= shapes) _ h1 in
    let test : Signer → Bool = λ a. same_signer (signer_identity s) (signer_identity a) in
    elim (Bool-cases (any test allowed)) [
      | inr n ↦ absurd (let q = sym (if-false _ _ n) ∙ h2 in cc)
      | inl y ↦
          let (a, m, t) = any-Elem test allowed y in
          transport
            (ap (λ x. (x.source ≡ source) × IsEnforced allowlists (obj d) x)
              (ok-eq (sym (if-true _ _ y) ∙ h2)))
            (refl, (refl, d, refl, inl (v, refl, refl, (s, allowed, a, e, f, m, t))))
    ]

-- the row of a source without an allowlist
free_row :
    (allowlists local : Fields) (require : Bool) (source : String) (r : SignerRow)
    → is_in source (field_names allowlists) ≡ false
    → (if require
        then ok (signer_row source "required-missing" null true)
        else ok (signer_row source "unconfigured" null true))
      ≡ ok r
    → (r.source ≡ source) × IsReport allowlists local require r
free_row allowlists local true source r e h =
    transport (ap (λ x. (x.source ≡ source) × IsReport allowlists local true x) (ok-eq h))
      (refl, ((λ t. absurd (ground arith)), λ _. (refl, refl, refl)))
free_row allowlists local false source r e h =
    transport (ap (λ x. (x.source ≡ source) × IsReport allowlists local false x) (ok-eq h))
      (refl, ((λ t. absurd (ground arith)), λ _. (refl, refl, refl)))

enforced_row-IsEnforced :
    (allowlists : Fields) (source : String) (v : Value) (r : SignerRow)
    → enforced_row source v (get allowlists source) ≡ ok r
    → (r.source ≡ source) × IsEnforced allowlists v r
enforced_row-IsEnforced allowlists source (obj d) r h =
    let verdict = get d "verdict" in
    let shown : (x : SignerRow) → Type 0 =
      λ x. (x.source ≡ source) × IsEnforced allowlists (obj d) x in
    elim (Bool-cases (is_str verdict "verified")) [
      | inl v ↦
          verified_row-HasVerdict allowlists d source r (is_str-eq verdict "verified" v)
            (sym (if-true _ _ v) ∙ h)
      | inr v ↦
          let h1 = sym (if-false _ _ v) ∙ h in
          elim (Bool-cases (is_str verdict "unknown")) [
            | inl u ↦
                transport (ap shown (ok-eq (sym (if-true _ _ u) ∙ h1)))
                  (refl, (refl, d, refl, inr (inl (is_str-eq verdict "unknown" u, refl, refl))))
            | inr u ↦
                let h2 = sym (if-false _ _ u) ∙ h1 in
                elim (Bool-cases (is_str verdict "fails")) [
                  | inl f ↦
                      transport (ap shown (ok-eq (sym (if-true _ _ f) ∙ h2)))
                        (refl, (refl, d, refl, inr (inr (is_str-eq verdict "fails" f, refl, refl))))
                  | inr f ↦ absurd (let q = sym (if-false _ _ f) ∙ h2 in cc)
                ]
          ]
    ]
enforced_row-IsEnforced allowlists source _ r h = absurd (cc)

row_of-IsReport :
    (allowlists local : Fields) (require : Bool) (source : String) (r : SignerRow)
    → row_of allowlists local require source ≡ ok r
    → (r.source ≡ source) × IsReport allowlists local require r
unfolding row_of
row_of-IsReport allowlists local require source r h =
    elim (Bool-cases (is_in source (field_names allowlists))) [
      | inl e ↦
          let h1 = sym (if-true _ _ e) ∙ h in
          elim (Bool-cases (is_in source (field_names local))) [
            | inr n ↦ absurd (let q = sym (if-false _ _ n) ∙ h1 in cc)
            | inl n ↦
                let (p, k) =
                  enforced_row-IsEnforced allowlists source (get local source) r
                    (sym (if-true _ _ n) ∙ h1) in
                (
                  p,
                  (
                    (λ _. transport (ap (λ t. IsEnforced allowlists (get local t) r) (sym p)) k),
                    λ x. absurd (ground (arith, ap (λ t. is_in t (field_names allowlists)) p)),
                  ),
                )
          ]
      | inr e ↦ free_row allowlists local require source r e (sym (if-false _ _ e) ∙ h)
    ]

rows_of-IsReport :
    (allowlists local : Fields) (require : Bool) (sources : List String) (rows : List SignerRow)
    → rows_of allowlists local require sources ≡ ok rows
    → (map SignerRow.source rows ≡ sources) × All (IsReport allowlists local require) rows
rows_of-IsReport allowlists local require [] rows h =
    transport
      (ap (λ rs. (map SignerRow.source rs ≡ []) × All (IsReport allowlists local require) rs)
        (ok-eq h))
      (refl, tt)
rows_of-IsReport allowlists local require (source ∷ sources) rows h =
    let (row, e, h1) = >>=-eq-ok (row_of allowlists local require source) _ h in
    let (rest, f, h2) = >>=-eq-ok (rows_of allowlists local require sources) _ h1 in
    let (p, k) = row_of-IsReport allowlists local require source row e in
    let (q, ks) = rows_of-IsReport allowlists local require sources rest f in
    transport
      (ap
        (λ rs.
          (map SignerRow.source rs ≡ source ∷ sources) × All (IsReport allowlists local require) rs)
        (ok-eq h2))
      (ap (λ s. s ∷ map SignerRow.source rest) p ∙ ap (λ ss. source ∷ ss) q, (k, ks))

-- The rows of a lock that has some: one for each source of its members, sorted, each of which is a
-- report by the allowlists of the case.
pub record IsSurvey (c : Fields) (rows : List SignerRow) (require : Bool) : Type 0 where
  pub members : List Value
  pub sources : List String
  pub allowlists : Fields
  pub local : Fields
  pub are_members : members_in (get c "members") ≡ ok members
  pub are_sources : member_sources members ≡ ok sources
  pub are_allowlists : get c "allowlists" ≡ obj allowlists
  pub are_local : get c "local" ≡ obj local
  pub one_each : map SignerRow.source rows ≡ sorted (unique sources)
  pub reports : All (IsReport allowlists local require) rows

dict_of-eq : (v : Value) (message : String) (d : Fields) → dict_of v message ≡ ok d → v ≡ obj d
dict_of-eq (obj e) message d h = ap obj (ok-eq h)
dict_of-eq _ message d h = absurd (cc)

-- The signer rows of a lock stand for the sources of its members, each once and sorted. A source with
-- an allowlist has an enforced row by its local verdict: under "verified" the row has the signer of
-- the verification, which is one of the allowlist up to its identity, and is current; under "unknown"
-- its signer is unknown and it is current, and under "fails" its signer is unknown and it is not
-- current. A source without an allowlist has a row without a signer, which is required-missing if
-- signers are required and unconfigured otherwise.
pub e1_expected_posture-IsSurvey :
    (c : Fields) (rows : List SignerRow) (require : Bool)
    → e1_expected_posture c ≡ ok (rows, require)
    → IsSurvey c rows require
unfolding e1_expected_posture
e1_expected_posture-IsSurvey c rows require h =
    let (members, m, h1) = >>=-eq-ok (members_in (get c "members")) _ h in
    let (sources, s, h2) = >>=-eq-ok (member_sources members) _ h1 in
    let (allowlists, a, h3) =
      >>=-eq-ok (dict_of (get c "allowlists") "allowlists must be an object") _ h2 in
    let (required, _, h4) = >>=-eq-ok (bool_of (get c "require_source_signers")) _ h3 in
    let (local, l, h5) = >>=-eq-ok (dict_of (get c "local") "local must be an object") _ h4 in
    let (found, r, h6) =
      >>=-eq-ok (rows_of allowlists local required (sorted (unique sources))) _ h5 in
    let (_, h7) = >>-eq-ok (raise_if (not (covers_enforced allowlists local sources)) _) _ h6 in
    let (q, k) = rows_of-IsReport allowlists local required (sorted (unique sources)) found r in
    record {
      members = members;
      sources = sources;
      allowlists = allowlists;
      are_members = m;
      are_sources = s;
      local = local;
      are_local = dict_of-eq (get c "local") _ local l;
      are_allowlists = dict_of-eq (get c "allowlists") _ allowlists a;
      one_each = sym (ap (λ x. map SignerRow.source x.0) (ok-eq h7)) ∙ q;
      reports = transport (ap (λ x. All (IsReport allowlists local x.1) x.0) (ok-eq h7)) k;
    }
