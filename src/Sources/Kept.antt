-- ===== src/Sources/Kept.antt =====
-- What an accepted effective source of tools/validate.py keeps of its declaration.
use curator_spec.Prelude.{
  ==_iff, Bool, Bool-cases, Option, String, ap, arith, eq_iff, false, if-false, if-true,
  if◌then◌else◌, inl, inr, length, none, not, not-eq-false, refl, some, sym, true, ||-false, ◌&&◌,
  ◌==◌, ◌∙◌, ◌≡◌,
}
use curator_spec.Text.{codes}
use curator_spec.Json.{Value, Fields, str, obj, get, is_str, is_str-eq, is_bool}
use curator_spec.Json.Equal.{Floats, same_value}
use curator_spec.Sources.Git.{
  validate_network_identity, validate_git_ref_name, validate_structured_ref, check_width, text?,
}
use curator_spec.Sources.Names.{IsSafeName, ref_name-IsSafeName}
use curator_spec.Sources.Effective.{
  dict_at, or_else, ref_of, check_kinds, other_commit, is_moved, validate_effective_source,
}

or_else-None : (a b : Option String) → or_else a b ≡ none → (a ≡ none) × (b ≡ none)
or_else-None none b h = (refl, h)
or_else-None (some e) b h = absurd (cc)

-- An unsubstituted source is the declared one, at the locked commit.
pub record IsDeclared (floats : Floats) (declared effective : Fields) : Type 0 where
  pub identity : same_value floats (get effective "identity") (get declared "identity") ≡ true
  pub transport : same_value floats (get effective "transport") (get declared "transport") ≡ true
  pub locked : Fields
  pub is_locked : dict_at declared "locked_commit" ≡ obj locked
  pub object_format :
      same_value floats (get effective "object_format") (get locked "object_format") ≡ true
  pub commit : same_value floats (get effective "commit") (get locked "hex") ≡ true

-- A commit has the width of its object format.
abbrev HasWidth : Value → Value → Type 0
HasWidth commit object_format =
    (s : String)
    → commit ≡ str s
    → ((is_str object_format "sha1" ≡ true) → length (codes s) ≡ 40)
      × ((is_str object_format "sha256" ≡ true) → length (codes s) ≡ 64)

-- A substitution by a local path has a local identity, and one by a network has a network identity.
abbrev pub AgreeOnKind : Value → Value → Type 0
AgreeOnKind substitution identity =
    (s i : Fields)
    → substitution ≡ obj s
    → identity ≡ obj i
    → (get s "type" ≡ str "local-path" → get i "kind" ≡ str "operator-local-git")
      × (get s "type" ≡ str "network-git" → get i "kind" ≡ str "network-git")

pub record IsKept (floats : Floats) (declared effective : Fields) : Type 0 where
  pub width : HasWidth (get effective "commit") (get effective "object_format")
  pub declared_tag : (tag : String) → get declared "tag" ≡ str tag → IsSafeName (codes tag)
  pub unsubstituted :
      is_bool (get effective "substituted") false ≡ true → IsDeclared floats declared effective
  pub substituted :
      is_bool (get effective "substituted") false ≡ false
      → AgreeOnKind (dict_at effective "substitution") (dict_at effective "identity")

kind_of :
    (v w : Value) (type kind message : String) (rest : Option String)
    → (if is_str v type && not (is_str w kind) then some message else rest) ≡ none
    → (v ≡ str type → w ≡ str kind) × (rest ≡ none)
kind_of v w type kind message rest h = elim (Bool-cases (is_str v type && not (is_str w kind))) [
  | inl b ↦ absurd (let q = sym (if-true _ _ b) ∙ h in cc)
  | inr b ↦ (
    λ e.
        let t : is_str v type ≡ true = ap (λ x. is_str x type) e ∙ (eq_iff type type).1 refl in
        is_str-eq w kind (ground arith),
    sym (if-false _ _ b) ∙ h,
  )
]

check_kinds-AgreeOnKind :
    (substitution identity : Value)
    → check_kinds substitution identity ≡ none
    → AgreeOnKind substitution identity
check_kinds-AgreeOnKind substitution identity h s i p q =
    let h1 : check_kinds (obj s) (obj i) ≡ none =
      ap (λ x. check_kinds x (obj i)) (sym p) ∙ ap (check_kinds substitution) (sym q) ∙ h in
    let (local, h2) =
      kind_of (get s "type") (get i "kind") "local-path" "operator-local-git" _ _ h1 in
    let (network, _) = kind_of (get s "type") (get i "kind") "network-git" "network-git" _ _ h2 in
    (local, network)

fits : (b : Bool) (message : String) → (if b then none else some message) ≡ none → b ≡ true
fits true message h = refl
fits false message h = absurd (cc)

check_width-HasWidth :
    (commit object_format : Value) (message : String)
    → check_width commit object_format message ≡ none
    → HasWidth commit object_format
unfolding check_width
check_width-HasWidth commit object_format message h s e = (
  λ p.
      let q = is_str-eq object_format "sha1" p in
      let k : check_width (str s) (str "sha1") message ≡ none =
        ap (λ f. check_width (str s) f message) (sym q)
        ∙ ap (λ c. check_width c object_format message) (sym e)
        ∙ h in
      (==_iff (length (codes s)) 40).0 (fits (length (codes s) == 40) message k),
  λ p.
      let q = is_str-eq object_format "sha256" p in
      let k : check_width (str s) (str "sha256") message ≡ none =
        ap (λ f. check_width (str s) f message) (sym q)
        ∙ ap (λ c. check_width c object_format message) (sym e)
        ∙ h in
      (==_iff (length (codes s)) 64).0 (fits (length (codes s) == 64) message k),
)

-- the commit and its format, where the lock is a dict
other_commit-Locked :
    (floats : Floats) (effective : Fields) (locked : Value)
    → other_commit floats effective locked ≡ false
    → (d : Fields) × (locked ≡ obj d)
      × (same_value floats (get effective "object_format") (get d "object_format") ≡ true)
      × (same_value floats (get effective "commit") (get d "hex") ≡ true)
other_commit-Locked floats effective (obj d) h =
    let (f, c) = ||-false _ _ h in (d, refl, not-eq-false _ f, not-eq-false _ c)
other_commit-Locked floats effective _ h = absurd (ground arith)

is_moved-IsDeclared :
    (floats : Floats) (declared effective : Fields)
    → is_moved floats declared effective ≡ false
    → IsDeclared floats declared effective
is_moved-IsDeclared floats declared effective h =
    let (i, h1) = ||-false _ _ h in
    let (t, h2) = ||-false _ _ h1 in
    let (d, l, f, c) = other_commit-Locked floats effective (dict_at declared "locked_commit") h2 in
    record {
      identity = not-eq-false _ i;
      transport = not-eq-false _ t;
      locked = d;
      is_locked = l;
      object_format = f;
      commit = c;
    }

unsubstituted_by :
    (b m : Bool) (error : String) (rest : Option String)
    → (if b then (if m then some error else none) else rest) ≡ none
    → (b ≡ true → m ≡ false) × (b ≡ false → rest ≡ none)
unsubstituted_by true true error rest h = absurd (cc)
unsubstituted_by true false error rest h = (λ _. refl, λ e. absurd (ground arith))
unsubstituted_by false m error rest h = (λ e. absurd (ground arith), λ _. h)

-- An effective source that is accepted has a declared tag that is a safe name, if it is a text, and a
-- commit of the width of its object format. If it is not substituted, it has the identity and the
-- transport that are declared and the object format and the commit of the lock; otherwise a
-- substitution of type local-path has an identity of kind operator-local-git, and one of type
-- network-git has an identity of kind network-git.
pub validate_effective_source-IsKept :
    (floats : Floats) (declared effective : Fields)
    → validate_effective_source floats declared effective ≡ none
    → IsKept floats declared effective
unfolding validate_effective_source
validate_effective_source-IsKept floats declared effective h =
    let (_, h1) =
      or_else-None (validate_network_identity (get declared "identity") (get declared "transport"))
        _ h in
    let (_, h2) =
      or_else-None
        (validate_network_identity (dict_at effective "identity") (get effective "transport")) _
        h1 in
    let (tag, h3) = or_else-None (validate_git_ref_name (text? (get declared "tag"))) _ h2 in
    let (width, h4) =
      or_else-None (check_width (get effective "commit") (get effective "object_format") _) _ h3 in
    let (_, h5) =
      or_else-None
        (validate_structured_ref (ref_of (dict_at effective "substitution"))
          (get effective "object_format"))
        _ h4 in
    let (kept, kinds) =
      unsubstituted_by (is_bool (get effective "substituted") false)
        (is_moved floats declared effective) _ _ h5 in
    record {
      width = check_width-HasWidth (get effective "commit") (get effective "object_format") _ width;
      declared_tag = λ t e.
          ref_name-IsSafeName (codes t) (ap (λ v. validate_git_ref_name (text? v)) (sym e) ∙ tag);
      unsubstituted = λ b. is_moved-IsDeclared floats declared effective (kept b);
      substituted = λ b. check_kinds-AgreeOnKind _ _ (kinds b);
    }
