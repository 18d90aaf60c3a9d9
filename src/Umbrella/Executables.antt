-- ===== src/Umbrella/Executables.antt =====
-- The executables of a case of the umbrella, and what the search of the PATH finds among them.
use mathlib.Core.Path.{transport}
use curator_spec.Prelude.{
  Bool-cases, List, Option, String, [], arith, inl, inr, none, refl, some, sym, true, ◌&&◌, ◌∷◌,
  ◌≡◌,
}
use curator_spec.Text.{text_eq, text_eq-eq, Text, codes}
use curator_spec.Json.{get, is_bool, Value, str, null, bool, int, float, arr, obj}
use curator_spec.Umbrella.{
  put, named, executable, executables_in, equals, first_inside, is_among, base_name, below,
}

-- what the search of PATH finds
pub first_inside-below :
    (name : Text) (executables entries : List Text) (path : Text)
    → first_inside name executables entries ≡ some path
    → (entry : Text) × (path ≡ below entry name) × (is_among path executables ≡ true)
unfolding first_inside
first_inside-below name executables [] path h = cc
first_inside-below name executables (entry ∷ entries) path h =
    elim (Bool-cases (is_among (below entry name) executables)) [
      | inl e ↦
          let same : below entry name ≡ path = ground (arith, e) in
          (entry, sym same, transport (λ i. is_among (same i) executables ≡ true) e)
      | inr e ↦ first_inside-below name executables entries path (ground (arith, e))
    ]

pub equals-eq :
    (v : Value) (s : Text) → equals v s ≡ true → (t : String) × (v ≡ str t) × (codes t ≡ s)
equals-eq (str t) s h = (t, refl, text_eq-eq (codes t) s h)
equals-eq null s h = cc
equals-eq (bool b) s h = cc
equals-eq (int n) s h = cc
equals-eq (float t) s h = cc
equals-eq (arr items) s h = cc
equals-eq (obj d) s h = cc

named-base_name :
    (name flag path : Value) (p : Text)
    → named name flag path ≡ some p
    → equals name (base_name p) ≡ true
named-base_name name flag (str path) p h =
    elim (Bool-cases (is_bool flag true && equals name (base_name (codes path)))) [
      | inl e ↦
          let same : codes path ≡ p = ground (arith, e) in
          transport (λ i. equals name (base_name (same i)) ≡ true) (ground (arith, e))
      | inr e ↦ absurd (ground (arith, e))
    ]
named-base_name name flag null p h = cc
named-base_name name flag (bool b) p h = cc
named-base_name name flag (int n) p h = cc
named-base_name name flag (float t) p h = cc
named-base_name name flag (arr items) p h = cc
named-base_name name flag (obj d) p h = cc

executable-base_name :
    (name v : Value) (p : Text) → executable name v ≡ some p → equals name (base_name p) ≡ true
executable-base_name name (obj d) p h = named-base_name name (get d "executable") (get d "path") p h
executable-base_name name null p h = cc
executable-base_name name (bool b) p h = cc
executable-base_name name (int n) p h = cc
executable-base_name name (float t) p h = cc
executable-base_name name (arr items) p h = cc
executable-base_name name (str s) p h = cc

put-base_name :
    (name v : Value) (o : Option Text) (p : Text) (ps : List Text)
    → executable name v ≡ o
    → is_among p (put o ps) ≡ true
    → (is_among p ps ≡ true → equals name (base_name p) ≡ true)
    → equals name (base_name p) ≡ true
put-base_name name v none p ps e h more = more h
put-base_name name v (some q) p ps e h more = elim (Bool-cases (text_eq p q)) [
  | inl same ↦
      transport (λ i. equals name (base_name ((sym (text_eq-eq p q same)) i)) ≡ true)
        (executable-base_name name v q e)
  | inr other ↦ more (ground (arith, other))
]

pub executables_in-base_name :
    (name : Value) (vs : List Value) (p : Text)
    → is_among p (executables_in name vs) ≡ true
    → equals name (base_name p) ≡ true
executables_in-base_name name [] p h = cc
executables_in-base_name name (v ∷ vs) p h =
    put-base_name name v (executable name v) p (executables_in name vs) refl h
      (executables_in-base_name name vs p)
