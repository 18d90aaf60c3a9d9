-- ===== src/Signers/Authentic.antt =====
-- When the verdict on a source accepts.
use curator_spec.Text.{text_eq_refl, text_eq-eq}
use curator_spec.Prelude.{
  >>=-eq-ok, Bool, Bool-cases, Elem, Elem-any, List, Result, String, [], any, any-Elem, ap, arith,
  false, inl, inr, ok, ok-eq, refl, some, str_eq, sym, true, ◌↔◌, ◌∙◌, ◌∷◌, ◌≡◌,
}
use mathlib.Core.Path.{transport}
use curator_spec.Json.{is_str, values, Value, Fields, Items, arr, get, item}
use curator_spec.Signers.{
  verify, no_signatures, check_kind, Signer, Signature, Candidate, Verification, Identity, ssh_key,
  fingerprint, check_signer_shape, signer_identity, same_signer, is_allowed, map_each,
  verify_allowed, verify_git, verify_path, allowlist_of, require_of, top_of, check_candidate,
  e1_expected_verification,
}

same_signer-eq : (i j : Identity) → same_signer i j ≡ true → i ≡ j
same_signer-eq (ssh_key s) (ssh_key t) h = ap ssh_key (text_eq-eq s t h)
same_signer-eq (fingerprint s) (fingerprint t) h = ap fingerprint (text_eq-eq s t h)
same_signer-eq (ssh_key s) (fingerprint t) h = cc
same_signer-eq (fingerprint s) (ssh_key t) h = cc

same_signer_refl : (i : Identity) → same_signer i i ≡ true
same_signer_refl (ssh_key s) = text_eq_refl s
same_signer_refl (fingerprint s) = text_eq_refl s

-- an element of what a loop returns comes from a value
map_each-of :
    {A : Type 0} (check : Value → Result A) (vs : List Value) (xs : List A) (a : A)
    → map_each check vs ≡ ok xs
    → Elem a xs
    → (v : Value) × Elem v vs × (check v ≡ ok a)
map_each-of check [] xs a h m =
    let same : [] ≡ xs = cc in absurd (transport (λ i. Elem a ((sym same) i)) m)
map_each-of check (v ∷ vs) xs a h m =
    let (b, e, h1) = >>=-eq-ok (check v) _ h in
    let (bs, f, h2) = >>=-eq-ok (map_each check vs) _ h1 in
    let same : b ∷ bs ≡ xs = cc in
    elim (transport (λ i. Elem a ((sym same) i)) m) [
      | inl p ↦ (v, inl refl, e ∙ ap ok (sym p))
      | inr n ↦ let (w, k, q) = map_each-of check vs bs a f n in (w, inr k, q)
    ]

-- each value gives an element
map_each-Elem :
    {A : Type 0} (check : Value → Result A) (vs : List Value) (xs : List A) (v : Value) (a : A)
    → map_each check vs ≡ ok xs
    → Elem v vs
    → check v ≡ ok a
    → Elem a xs
map_each-Elem check [] xs v a h m e = absurd m
map_each-Elem check (w ∷ vs) xs v a h m e =
    let (b, f, h1) = >>=-eq-ok (check w) _ h in
    let (bs, g, h2) = >>=-eq-ok (map_each check vs) _ h1 in
    let same : b ∷ bs ≡ xs = cc in
    transport (λ i. Elem a (same i))
      (elim m [
        | inl p ↦ let q : a ≡ b = ok-eq (sym e ∙ ap check p ∙ f) in inl q
        | inr n ↦ inr (map_each-Elem check vs bs v a g n e)
      ])

-- The allowlist holds the signer of a valid signature.
pub record IsSigned (entries : Items) (top : Candidate) : Type 0 where
  pub signature : Signature
  pub of_top : Elem signature top.signatures
  pub valid : signature.valid ≡ true
  pub entry : Value
  pub listed : Elem entry (values entries)
  pub allowed : Signer
  pub shape : check_signer_shape entry ≡ ok allowed
  pub same : signer_identity signature.signer ≡ signer_identity allowed

is_allowed-IsSigned :
    (entries : Items) (top : Candidate) (signers : List Signer)
    → map_each check_signer_shape (values entries) ≡ ok signers
    → any (is_allowed signers) top.signatures ≡ true
    → IsSigned entries top
is_allowed-IsSigned entries top signers h e =
    let (s, of_top, k) = any-Elem (is_allowed signers) top.signatures e in
    let test : Signer → Bool = λ a. same_signer (signer_identity s.signer) (signer_identity a) in
    let (a, m, same) = any-Elem test signers (ground (arith, k)) in
    let (v, listed, shape) = map_each-of check_signer_shape (values entries) signers a h m in
    record {
      signature = s;
      of_top = of_top;
      valid = ground (arith, k);
      entry = v;
      listed = listed;
      allowed = a;
      shape = shape;
      same = same_signer-eq (signer_identity s.signer) (signer_identity a) same;
    }

signed-is_allowed :
    (entries : Items) (top : Candidate) (signers : List Signer)
    → map_each check_signer_shape (values entries) ≡ ok signers
    → IsSigned entries top
    → any (is_allowed signers) top.signatures ≡ true
signed-is_allowed entries top signers h g =
    let test : Signer → Bool =
      λ a. same_signer (signer_identity g.signature.signer) (signer_identity a) in
    let m =
      map_each-Elem check_signer_shape (values entries) signers g.entry g.allowed h g.listed
        g.shape in
    let same =
      ap (same_signer (signer_identity g.signature.signer)) (sym g.same)
      ∙ same_signer_refl (signer_identity g.signature.signer) in
    let passes : is_allowed signers g.signature ≡ true =
      ground (arith, g.valid, Elem-any test g.allowed signers m same) in
    Elem-any (is_allowed signers) g.signature top.signatures g.of_top passes

-- the verdict is accepted, and selects the top candidate
abbrev pub Accepts : Candidate → Verification → Type 0
Accepts top v = (v.verdict ≡ "accepted") × (v.selected ≡ some top.version)

any-no_signatures :
    (test : Signature → Bool) (ss : List Signature) → any test ss ≡ true → no_signatures ss ≡ false
any-no_signatures test [] h = cc
any-no_signatures test (s ∷ ss) h = refl

verify_allowed-Accepts :
    (signers : List Signer) (top : Candidate)
    → any (is_allowed signers) top.signatures ≡ true
    → Accepts top (verify_allowed signers top)
unfolding verify_allowed
verify_allowed-Accepts signers top h =
    rw (any-no_signatures (is_allowed signers) top.signatures h) (rw h (refl, refl))

refused_otherwise :
    (signers : List Signer) (top : Candidate)
    → any (is_allowed signers) top.signatures ≡ false
    → (verify_allowed signers top).verdict ≡ "refused"
unfolding verify_allowed
refused_otherwise signers top h = elim (Bool-cases (no_signatures top.signatures)) [
  | inl f ↦ rw f refl
  | inr f ↦ rw f (rw h refl)
]

refused-accepted : (s : String) → s ≡ "refused" → s ≡ "accepted" → ⊥
refused-accepted s p q = let e : false ≡ true = ap (λ s. str_eq s "accepted") (sym p ∙ q) in cc

Accepts-verify_allowed :
    (signers : List Signer) (top : Candidate)
    → (verify_allowed signers top).verdict ≡ "accepted"
    → any (is_allowed signers) top.signatures ≡ true
Accepts-verify_allowed signers top h = elim (Bool-cases (any (is_allowed signers) top.signatures)) [
  | inl e ↦ e
  | inr e ↦ absurd (refused-accepted _ (refused_otherwise signers top e) h)
]

verify_git-IsSigned :
    (entries : Items) (require : Bool) (top : Candidate) (v : Verification)
    → verify_git (some entries) require top ≡ ok v
    → Accepts top v ↔ IsSigned entries top
unfolding verify_git
verify_git-IsSigned entries require top v h =
    let (signers, e, k) = >>=-eq-ok (map_each check_signer_shape (values entries)) _ h in
    let same : verify_allowed signers top ≡ v = ok-eq k in
    (
      λ a.
          is_allowed-IsSigned entries top signers e
            (Accepts-verify_allowed signers top (ap (λ w. w.verdict) same ∙ a.0)),
      λ g.
          transport (λ i. Accepts top (same i))
            (verify_allowed-Accepts signers top (signed-is_allowed entries top signers e g)),
    )

path_or_git :
    (d : Fields) (entries : Items) (require : Bool) (top : Candidate) (v : Verification)
    → verify d (some entries) require top ≡ ok v
    → verify_git (some entries) require top ≡ ok v
unfolding verify verify_path
path_or_git d entries require top v h = elim (Bool-cases (is_str (get d "source_kind") "path")) [
  | inl e ↦ absurd (ground (arith, e))
  | inr e ↦ ground (arith, e)
]

-- Under an allowlist, the verdict looks at the first candidate only, and accepts it if and only if
-- one of its signatures is valid and of a signer that the allowlist holds, up to the comment of an
-- SSH key.
pub e1_expected_verification-IsSigned :
    (d : Fields) (v : Verification) (entries : Items) (first : Value) (more : Items)
    → get d "allowlist" ≡ arr entries
    → get d "candidates" ≡ arr (item first more)
    → e1_expected_verification d ≡ ok v
    → (top : Candidate) × (check_candidate first ≡ ok top) × (Accepts top v ↔ IsSigned entries top)
unfolding e1_expected_verification
e1_expected_verification-IsSigned d v entries first more a c h =
    let (_, _, h1) = >>=-eq-ok (check_kind d) _ h in
    let (allowlist, e2, h2) = >>=-eq-ok (allowlist_of (get d "allowlist")) _ h1 in
    let (require, e3, h3) = >>=-eq-ok (require_of (get d "require_source_signers")) _ h2 in
    let (top, e4, h4) = >>=-eq-ok (top_of (get d "candidates")) _ h3 in
    let given : some entries ≡ allowlist = ok-eq (ap allowlist_of (sym a) ∙ e2) in
    let (t, f, k) = >>=-eq-ok (check_candidate first) _ (ap top_of (sym c) ∙ e4) in
    let (_, _, k2) = >>=-eq-ok (map_each check_candidate (values more)) _ k in
    let same : t ≡ top = ok-eq k2 in
    (
      top,
      f ∙ ap ok same,
      verify_git-IsSigned entries require top v
          (path_or_git d entries require top v (ap (λ o. verify d o require top) given ∙ h4)),
    )
