-- ===== src/Cases.antt =====
-- Named case lists: `require_named_cases` of tools/validate.py, which every vector gate runs first.
use curator_spec.Prelude.{
  Bool, Bool-cases, Check, Elem, Elem-of_map, List, String, [], all, all-Elem, any, ap, arith,
  eq_iff, err, false, inl, inr, length, map, not, ok, raise_if, refl, str_eq, sym, true, ◌&&◌, ◌==◌,
  ◌>>◌, ◌∙◌, ◌∷◌, ◌≡◌, ◌≤◌,
}
use curator_spec.Json.{Value, Items, str, arr, obj, Fields, null, get, values}

-- `[item for item in values if isinstance(item, dict)]`
abbrev pub objects : List Value → List Fields
objects [] = []
objects (obj c ∷ vs) = c ∷ objects vs
objects (_ ∷ vs) = objects vs

-- `isinstance(name, str) and name`
abbrev pub is_name : Value → Bool
is_name (str s) = not (str_eq s "")
is_name _ = false

-- the text of a name that is known to be one
abbrev pub name_text : Value → String
name_text (str s) = s
name_text _ = ""

abbrev pub name_of : Fields → Value
name_of c = get c "name"

-- `len(names) == len(set(names))`
unfoldable pub distinct : List String → Bool
distinct [] = true
distinct (s ∷ rest) = not (any (λ t. str_eq s t) rest) && distinct rest

-- `not (required - set(names))`
unfoldable pub covers : List String → List String → Bool
covers names required = all (λ r. any (λ t. str_eq r t) names) required

-- the cases of a value that is an array
abbrev pub cases : Value → List Fields
cases (arr items) = objects (values items)
cases _ = []

unfoldable pub check_names : List Value → List Fields → List String → Check
unfolding distinct covers
check_names vs cs required =
    raise_if (not (length cs == length vs && all (λ c. is_name (name_of c)) cs))
      "cases require non-empty names"
    >> (raise_if (not (distinct (map (λ c. name_text (name_of c)) cs))) "case names must be unique"
        >> raise_if (not (covers (map (λ c. name_text (name_of c)) cs) required))
            "is missing cases")

unfoldable pub require_named_cases : Value → List String → Check
unfolding check_names
require_named_cases (arr items) required =
    check_names (values items) (objects (values items)) required
require_named_cases _ required = err "must be an array"

-- No text stands in the list twice.
abbrev pub AllDistinct : List String → Type 0
AllDistinct [] = Unit
AllDistinct (s ∷ rest) = (Elem s rest → ⊥) × AllDistinct rest

pub any_eq-Elem : (s : String) (xs : List String) → any (λ t. str_eq s t) xs ≡ true → Elem s xs
any_eq-Elem s [] h = ground arith
any_eq-Elem s (x ∷ xs) h = elim (Bool-cases (str_eq s x)) [
  | inl e ↦ inl ((eq_iff s x).0 e)
  | inr n ↦ inr (any_eq-Elem s xs (ground arith))
]

pub Elem-any_eq : (s : String) (xs : List String) → Elem s xs → any (λ t. str_eq s t) xs ≡ true
Elem-any_eq s [] m = absurd m
Elem-any_eq s (x ∷ xs) (inl e) = ground (arith, eq_iff s x)
Elem-any_eq s (x ∷ xs) (inr m) = ground (arith, Elem-any_eq s xs m)

distinct-AllDistinct : (xs : List String) → distinct xs ≡ true → AllDistinct xs
unfolding distinct
distinct-AllDistinct [] h = tt
distinct-AllDistinct (s ∷ rest) h =
    (λ m. ground (arith, Elem-any_eq s rest m), distinct-AllDistinct rest (ground arith))

covers-Elem :
    (names required : List String) (r : String)
    → covers names required ≡ true
    → Elem r required
    → Elem r names
unfolding covers
covers-Elem names required r h m = any_eq-Elem r names (all-Elem _ r required h m)

-- a name that `is_name` accepts is the text that stands there
pub is_name-str : (v : Value) → is_name v ≡ true → v ≡ str (name_text v)
is_name-str (str s) h = refl
is_name-str null h = ground arith
is_name-str _ h = ground arith

length-objects : (vs : List Value) → length (objects vs) ≤ length vs
length-objects [] = omega arith
length-objects (obj c ∷ vs) = omega (arith, length-objects vs)
length-objects (_ ∷ vs) = omega (arith, length-objects vs)

objects-obj : (vs : List Value) → length (objects vs) ≡ length vs → vs ≡ map obj (objects vs)
objects-obj [] h = refl
objects-obj (obj c ∷ vs) h = ap (λ r. obj c ∷ r) (objects-obj vs (omega arith))
objects-obj (_ ∷ vs) h = absurd (omega (arith, length-objects vs))

-- What a list of named cases promises: it is an array of objects, each has a name that is a text
-- and is not empty, no two have the same name, and every required name occurs.
pub record IsNamed (v : Value) (required : List String) : Type 0 where
  pub items : Items
  pub is_array : v ≡ arr items
  pub are_objects : values items ≡ map obj (cases v)
  pub named : (c : Fields) → Elem c (cases v) → is_name (name_of c) ≡ true
  pub unique : AllDistinct (map (λ c. name_text (name_of c)) (cases v))
  pub found :
      (r : String) → Elem r required → (c : Fields) × Elem c (cases v) × (get c "name" ≡ str r)

found_case :
    (cs : List Fields) (r : String)
    → all (λ c. is_name (name_of c)) cs ≡ true
    → Elem r (map (λ c. name_text (name_of c)) cs)
    → (c : Fields) × Elem c cs × (get c "name" ≡ str r)
found_case cs r h m =
    let (c, mc, e) = Elem-of_map (λ c. name_text (name_of c)) r cs m in
    (c, mc, is_name-str (name_of c) (all-Elem _ c cs h mc) ∙ ap str (sym e))

abbrev texts : List Fields → List String
texts = map (λ c. name_text (name_of c))

check_names-parts :
    (vs : List Value) (cs : List Fields) (required : List String)
    → check_names vs cs required ≡ ok tt
    → (length cs ≡ length vs)
      × (all (λ c. is_name (name_of c)) cs ≡ true)
      × (distinct (texts cs) ≡ true)
      × (covers (texts cs) required ≡ true)
unfolding check_names
check_names-parts vs cs required h = ground arith

-- If `require_named_cases` returns, the value is a list of named cases.
pub require_named_cases-IsNamed :
    (v : Value) (required : List String)
    → require_named_cases v required ≡ ok tt
    → IsNamed v required
unfolding require_named_cases
require_named_cases-IsNamed (arr items) required h =
    let cs = objects (values items) in
    let (size, names, apart, covered) = check_names-parts (values items) cs required h in
    record {
      items = items;
      is_array = refl;
      are_objects = objects-obj (values items) size;
      named = λ c m. all-Elem (λ c. is_name (name_of c)) c cs names m;
      unique = distinct-AllDistinct (texts cs) apart;
      found = λ r m. found_case cs r names (covers-Elem (texts cs) required r covered m);
    }
require_named_cases-IsNamed null required h = cc
require_named_cases-IsNamed _ required h = cc
