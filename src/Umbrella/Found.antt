-- ===== src/Umbrella/Found.antt =====
-- What revision B of the umbrella resolves.
use mathlib.Core.Path.{transport}
use curator_spec.Text.{codes, starts_with, text_eq-eq, text_eq, Text}
use curator_spec.Prelude.{
  >>=-eq-ok, All, Bool-cases, Elem, List, Option, [], ap, arith, false, inl, inr, none, ok, refl,
  some, sym, true, ◌++◌, ◌∙◌, ◌∷◌, ◌≡◌,
}
use curator_spec.Json.{Value, Fields, str, null, bool, int, float, arr, obj}
use curator_spec.Umbrella.{
  umbrella_expected, check_unreadable, expected_a, expected_b, is_among, below, found, failed,
  absent, resolved, Search, Outcome, search_roots, forbidden_dirs, name_of, umbrella_executables,
  unreadable_of, umbrella_trust_roots, umbrella_inside_forbidden, revision_b, umbrella_search,
  umbrella_path_search,
}

-- a root that the search leaves behind: it can be read, and no executable is directly inside
pub record IsPassed (name : Text) (executables unreadable : List Text) (root : Text) : Type 0 where
  pub readable : is_among root unreadable ≡ false
  pub without : is_among (below root name) executables ≡ false

pub record IsFound (name : Text) (executables unreadable roots : List Text) (path : Text)
    : Type 0 where
  pub earlier : List Text
  pub root : Text
  pub later : List Text
  pub split_at : roots ≡ earlier ++ root ∷ later
  pub passed : All (IsPassed name executables unreadable) earlier
  pub readable : is_among root unreadable ≡ false
  pub inside : path ≡ below root name
  pub present : Elem path executables

pub is_among-Elem : (path : Text) (paths : List Text) → is_among path paths ≡ true → Elem path paths
is_among-Elem path [] h = cc
is_among-Elem path (p ∷ ps) h = elim (Bool-cases (text_eq path p)) [
  | inl e ↦ inl (text_eq-eq path p e)
  | inr e ↦ inr (is_among-Elem path ps (ground (arith, e)))
]

pub search_roots-IsFound :
    (name : Text) (executables unreadable roots : List Text) (path : Text)
    → search_roots name executables unreadable roots ≡ found path
    → IsFound name executables unreadable roots path
unfolding search_roots
search_roots-IsFound name executables unreadable [] path h = cc
search_roots-IsFound name executables unreadable (root ∷ roots) path h =
    elim (Bool-cases (is_among root unreadable)) [
      | inl e ↦ absurd (ground (arith, e))
      | inr e ↦ elim (Bool-cases (is_among (below root name) executables)) [
        | inl f ↦
            let same : below root name ≡ path = ground (arith, e, f) in
            record {
              earlier = [];
              root = root;
              later = roots;
              split_at = refl;
              passed = tt;
              readable = e;
              inside = sym same;
              present =
                  is_among-Elem path executables
                    (transport (λ i. is_among (same i) executables ≡ true) f);
            }
        | inr f ↦
            let rest =
              search_roots-IsFound name executables unreadable roots path (ground (arith, e, f)) in
            record {
              earlier = root ∷ rest.earlier;
              root = rest.root;
              later = rest.later;
              split_at = ap (λ r. root ∷ r) rest.split_at;
              passed = (record { readable = e; without = f }, rest.passed);
              readable = rest.readable;
              inside = rest.inside;
              present = rest.present;
            }
      ]
    ]

-- no entry is a directory that the path is in or below
abbrev pub IsOutside : Text → Value → Type 0
IsOutside path (str entry) = starts_with path (below (codes entry) []) ≡ false
IsOutside path entry = ⊥

not_inside-IsOutside :
    (path : Text) (entries : List Value)
    → umbrella_inside_forbidden path entries ≡ ok false
    → All (IsOutside path) entries
unfolding umbrella_inside_forbidden
not_inside-IsOutside path [] h = tt
not_inside-IsOutside path (str entry ∷ entries) h =
    (ground arith, not_inside-IsOutside path entries (ground arith))
not_inside-IsOutside path (null ∷ entries) h = cc
not_inside-IsOutside path (bool b ∷ entries) h = cc
not_inside-IsOutside path (int n ∷ entries) h = cc
not_inside-IsOutside path (float s ∷ entries) h = cc
not_inside-IsOutside path (arr items ∷ entries) h = cc
not_inside-IsOutside path (obj d ∷ entries) h = cc

-- What revision B resolves.
pub record IsTrusted (str_of : Value → Text) (d : Fields) (path : Text) : Type 0 where
  pub forbidden : List Value
  pub are_forbidden : forbidden_dirs d ≡ ok forbidden
  pub allowed : All (IsOutside path) forbidden
  pub found_in :
      IsFound
        (name_of str_of d)
        (umbrella_executables d)
        (unreadable_of d)
        (umbrella_trust_roots d)
        path

revision_b-resolved :
    (roots : List Text) (forbidden : List Value) (s : Search) (path_match : Option Text)
    (path : Text)
    → revision_b roots forbidden s path_match ≡ ok (resolved path)
    → (s ≡ found path) × (umbrella_inside_forbidden path forbidden ≡ ok false)
unfolding revision_b
revision_b-resolved roots forbidden (failed r) m path h = cc
revision_b-resolved roots forbidden absent none path h = cc
revision_b-resolved roots forbidden absent (some q) path h = cc
revision_b-resolved roots forbidden (found q) m path h =
    let (inside, e, k) = >>=-eq-ok (umbrella_inside_forbidden q forbidden) _ h in
    elim (Bool-cases inside) [
      | inl t ↦ absurd (ground (arith, k, t))
      | inr f ↦
          let same : q ≡ path = ground (arith, k, f) in
          (
            ap found same,
            transport (λ i. umbrella_inside_forbidden (same i) forbidden ≡ ok (f i)) e,
          )
    ]

-- What revision B resolves is an executable of the provider's name directly inside a trust root that
-- can be read, every trust root before it can be read and has no such executable, and the path is
-- in no published or managed directory.
pub umbrella_expected-IsTrusted :
    (str_of : Value → Text) (d : Fields) (a : Outcome) (path : Text)
    → umbrella_expected str_of d ≡ ok (a, resolved path)
    → IsTrusted str_of d path
unfolding umbrella_expected expected_b umbrella_search
umbrella_expected-IsTrusted str_of d a path h =
    let (_, e0, h0) = >>=-eq-ok (check_unreadable d) _ h in
    let (forbidden, e1, h1) = >>=-eq-ok (forbidden_dirs d) _ h0 in
    let (a', e2, h2) = >>=-eq-ok (expected_a str_of d forbidden) _ h1 in
    let (b, e3, h3) = >>=-eq-ok (expected_b str_of d forbidden) _ h2 in
    let same : b ≡ resolved path = cc in
    let (s, outside) =
      revision_b-resolved (umbrella_trust_roots d) forbidden (umbrella_search str_of d)
        (umbrella_path_search str_of d) path (e3 ∙ ap ok same) in
    record {
      forbidden = forbidden;
      are_forbidden = e1;
      allowed = not_inside-IsOutside path forbidden outside;
      found_in = search_roots-IsFound _ _ _ _ path s;
    }
