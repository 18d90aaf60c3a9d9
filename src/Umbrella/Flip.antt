-- ===== src/Umbrella/Flip.antt =====
-- The flip of the umbrella from revision A to revision B, for a provider that the PATH selects in a
-- trust root.
use mathlib.Core.Path.{transport}
use curator_spec.Prelude.{
  >>=-eq-ok, Bool-cases, Elem-any, Elem-map, List, Option, [], ap, arith, inl, inr, map, none, ok,
  refl, some, sym, true, ◌∙◌, ◌∷◌, ◌≡◌, ◌⊎◌,
}
use curator_spec.Text.{text_eq_refl, text_eq, has, text_eq-eq, Text}
use curator_spec.Text.Split.{Lacks}
use curator_spec.Json.{Fields, get, Value}
use curator_spec.Umbrella.Found.{IsFound, is_among-Elem, search_roots-IsFound}
use curator_spec.Umbrella.{
  umbrella_executables, umbrella_path_search, umbrella_search, umbrella_trust_roots, unreadable_of,
  name_of, shown, forbidden_dirs, check_unreadable, expected_a, expected_b, umbrella_expected,
  elements, umbrella_inside_forbidden, select_path, resolved, revision_a, revision_b, Outcome,
  untrusted, first_unreadable, search_roots, found, is_among, base_name, below, umbrella_dirname,
}
use curator_spec.Umbrella.Dirname.{base_name-Lacks, below-dirname}
use curator_spec.Umbrella.Executables.{first_inside-below, executables_in-base_name, equals-eq}

-- a root with an executable is found, if every root can be read
search_roots-found :
    (name : Text) (executables unreadable roots : List Text) (path : Text)
    → first_unreadable unreadable roots ≡ none
    → is_among path (map (λ r. below r name) roots) ≡ true
    → is_among path executables ≡ true
    → (q : Text) × (search_roots name executables unreadable roots ≡ found q)
unfolding search_roots
search_roots-found name executables unreadable [] path r m h = cc
search_roots-found name executables unreadable (root ∷ roots) path r m h =
    elim (Bool-cases (is_among root unreadable)) [
      | inl e ↦ absurd (ground (arith, e))
      | inr e ↦ elim (Bool-cases (is_among (below root name) executables)) [
        | inl f ↦ (below root name, ground (arith, e, f))
        | inr f ↦ elim (Bool-cases (text_eq path (below root name))) [
          | inl same ↦ absurd (
              ground (
                arith,
                f,
                ap (λ p. is_among p executables) (text_eq-eq path (below root name) same),
              ))
          | inr other ↦
              let (q, k) =
                search_roots-found name executables unreadable roots path (ground (arith, e))
                  (ground (arith, other)) h in
              (q, ground (arith, e, f))
        ]
      ]
    ]

first_unreadable-cases :
    (roots : List Text) (o path_match : Option Text) (path : Text)
    → select_path roots o path_match ≡ resolved path
    → (o ≡ none) × (path_match ≡ some path) × (is_among (umbrella_dirname path) roots ≡ true)
unfolding select_path
first_unreadable-cases roots (some r) m path h = cc
first_unreadable-cases roots none none path h = cc
first_unreadable-cases roots none (some q) path h =
    elim (Bool-cases (is_among (umbrella_dirname q) roots)) [
      | inl e ↦
          let same : q ≡ path = ground (arith, e) in
          (refl, ap some same, transport (λ i. is_among (umbrella_dirname (same i)) roots ≡ true) e)
      | inr e ↦ absurd (ground (arith, e))
    ]

revision_a-resolved :
    (roots : List Text) (forbidden : List Value) (o path_match : Option Text) (path : Text)
    → revision_a roots forbidden o path_match ≡ ok (resolved path)
    → (o ≡ none) × (path_match ≡ some path) × (is_among (umbrella_dirname path) roots ≡ true)
unfolding revision_a
revision_a-resolved roots forbidden o none path h =
    first_unreadable-cases roots o none path (ground arith)
revision_a-resolved roots forbidden o (some q) path h =
    let (inside, e, k) = >>=-eq-ok (umbrella_inside_forbidden q forbidden) _ h in
    elim (Bool-cases inside) [
      | inl t ↦ absurd (ground (arith, k, t))
      | inr f ↦ first_unreadable-cases roots o (some q) path (ground (arith, k, f))
    ]

-- revision B behind a search that found a provider
revision_b-found :
    (roots : List Text) (forbidden : List Value) (q : Text) (path_match : Option Text) (b : Outcome)
    → revision_b roots forbidden (found q) path_match ≡ ok b
    → (b ≡ resolved q)
      ⊎ ((b ≡ untrusted q roots) × (umbrella_inside_forbidden q forbidden ≡ ok true))
unfolding revision_b
revision_b-found roots forbidden q m b h =
    let (inside, e, k) = >>=-eq-ok (umbrella_inside_forbidden q forbidden) _ h in
    elim (Bool-cases inside) [
      | inl t ↦ inr (ground (arith, k, t), e ∙ ap ok t)
      | inr f ↦ inl (ground (arith, k, f))
    ]

is_among-map :
    (f : Text → Text) (x : Text) (xs : List Text)
    → is_among x xs ≡ true
    → is_among (f x) (map f xs) ≡ true
is_among-map f x xs h =
    Elem-any (λ p. text_eq (f x) p) (f x) (map f xs) (Elem-map f x xs (is_among-Elem x xs h))
      (text_eq_refl (f x))

-- the name is the last part of a path that is found
name_of-base_name :
    (str_of : Value → Text) (d : Fields) (p : Text)
    → is_among p (umbrella_executables d) ≡ true
    → name_of str_of d ≡ base_name p
unfolding umbrella_executables
name_of-base_name str_of d p h =
    let name = get d "executable_name" in
    let (t, e, f) =
      equals-eq name (base_name p)
        (executables_in-base_name name (elements (get d "present")) p h) in
    ap (shown str_of) e ∙ f

-- What the PATH finds is directly inside its directory.
umbrella_path_search-dirname :
    (str_of : Value → Text) (d : Fields) (p : Text)
    → umbrella_path_search str_of d ≡ some p
    → (is_among p (umbrella_executables d) ≡ true)
      × (below (umbrella_dirname p) (name_of str_of d) ≡ p)
unfolding umbrella_path_search
umbrella_path_search-dirname str_of d p h =
    let name = name_of str_of d in
    let (entry, e, f) = first_inside-below name (umbrella_executables d) _ p h in
    let lacks : Lacks b'/' name =
      ap (has b'/') (name_of-base_name str_of d p f) ∙ base_name-Lacks p in
    (f, ap (λ p. below (umbrella_dirname p) name) e ∙ below-dirname entry name lacks ∙ sym e)

umbrella_search-found :
    (str_of : Value → Text) (d : Fields) (p : Text)
    → first_unreadable (unreadable_of d) (umbrella_trust_roots d) ≡ none
    → umbrella_path_search str_of d ≡ some p
    → is_among (umbrella_dirname p) (umbrella_trust_roots d) ≡ true
    → (q : Text) × (umbrella_search str_of d ≡ found q)
unfolding umbrella_search
umbrella_search-found str_of d p readable matched trusted =
    let name = name_of str_of d in
    let roots = umbrella_trust_roots d in
    let (present, same) = umbrella_path_search-dirname str_of d p matched in
    search_roots-found name (umbrella_executables d) (unreadable_of d) roots p readable
      (transport (λ i. is_among (same i) (map (λ r. below r name) roots) ≡ true)
        (is_among-map (λ r. below r name) (umbrella_dirname p) roots trusted))
      present

-- what revision B makes of a provider that it finds
pub record IsKept (str_of : Value → Text) (d : Fields) (b : Outcome) : Type 0 where
  pub path : Text
  pub forbidden : List Value
  pub are_forbidden : forbidden_dirs d ≡ ok forbidden
  pub found_in :
      IsFound
        (name_of str_of d)
        (umbrella_executables d)
        (unreadable_of d)
        (umbrella_trust_roots d)
        path
  pub outcome :
      (b ≡ resolved path)
      ⊎ ((b ≡ untrusted path (umbrella_trust_roots d))
          × (umbrella_inside_forbidden path forbidden ≡ ok true))

-- If revision A resolves a provider without a diagnostic, revision B finds a provider in the trust
-- roots too: it resolves that one, or refuses it since it is in a published or managed directory.
pub umbrella_expected-IsKept :
    (str_of : Value → Text) (d : Fields) (path : Text) (b : Outcome)
    → umbrella_expected str_of d ≡ ok (resolved path, b)
    → IsKept str_of d b
unfolding umbrella_expected expected_a expected_b umbrella_search
umbrella_expected-IsKept str_of d path b h =
    let (_, e0, h0) = >>=-eq-ok (check_unreadable d) _ h in
    let (forbidden, e1, h1) = >>=-eq-ok (forbidden_dirs d) _ h0 in
    let (a, e2, h2) = >>=-eq-ok (expected_a str_of d forbidden) _ h1 in
    let (b', e3, h3) = >>=-eq-ok (expected_b str_of d forbidden) _ h2 in
    let first : a ≡ resolved path = cc in
    let second : b' ≡ b = cc in
    let (readable, matched, trusted) =
      revision_a-resolved (umbrella_trust_roots d) forbidden
        (first_unreadable (unreadable_of d) (umbrella_trust_roots d))
        (umbrella_path_search str_of d) path (e2 ∙ ap ok first) in
    let (q, s) = umbrella_search-found str_of d path readable matched trusted in
    record {
      path = q;
      forbidden = forbidden;
      are_forbidden = e1;
      found_in = search_roots-IsFound _ _ _ _ q s;
      outcome =
          revision_b-found (umbrella_trust_roots d) forbidden q (umbrella_path_search str_of d) b (
            ap
              (λ s. revision_b (umbrella_trust_roots d) forbidden s (umbrella_path_search str_of d))
              (sym s)
            ∙ e3
            ∙ ap ok second);
    }
