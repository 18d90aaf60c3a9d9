-- ===== src/Json.antt =====
-- The values that `load_json` of tools/validate.py returns, and how Python reads them.
pub mod Equal
pub mod Names
pub mod Read
pub mod Stops
use curator_spec.Prelude.{
  Bool, List, Option, Result, String, [], all, any, ap, arith, eq_iff, err, false, if◌then◌else◌,
  negsuc, none, not, pos, refl, some, str_eq, suc, true, zero, ℕ, ℤ, ◌&&◌, ◌==◌, ◌||◌, ◌∷◌, ◌≡◌,
}

-- `float` holds the text that Python prints for the number.
mutual
  pub data Value : Type 0 where
    null : Value
    bool : Bool → Value
    int : ℤ → Value
    float : String → Value
    str : String → Value
    arr : Items → Value
    obj : Fields → Value

  pub data Items : Type 0 where
    no_items : Items
    item : Value → Items → Items

  pub data Fields : Type 0 where
    bare : Fields
    member : String → Value → Fields → Fields

-- `d.get(key)`: a missing key reads as None.
unfoldable pub get : Fields → String → Value
get bare key = null
get (member k v rest) key = if str_eq k key then v else get rest key

-- the keys of a dict
abbrev pub field_names : Fields → List String
field_names bare = []
field_names (member k v rest) = k ∷ field_names rest

-- `s in xs`
abbrev pub is_in : String → List String → Bool
is_in s xs = any (λ t. str_eq s t) xs

-- `set(d) == {…}`
abbrev pub has_exactly : Fields → List String → Bool
has_exactly d wanted =
    all (λ k. is_in k wanted) (field_names d) && all (λ w. is_in w (field_names d)) wanted

abbrev pub values : Items → List Value
values no_items = []
values (item v rest) = v ∷ values rest

-- `bool(v)`
abbrev pub truthy : Value → Bool
truthy null = false
truthy (bool b) = b
truthy (int (pos zero)) = false
truthy (int (pos (suc n))) = true
truthy (int (negsuc n)) = true
truthy (float s) = not (str_eq s "0.0" || str_eq s "-0.0")
truthy (str s) = not (str_eq s "")
truthy (arr no_items) = false
truthy (arr (item v rest)) = true
truthy (obj bare) = false
truthy (obj (member k v rest)) = true

-- `v is True` and `v is False`
abbrev pub is_bool : Value → Bool → Bool
is_bool (bool true) true = true
is_bool (bool false) false = true
is_bool _ _ = false

-- `v == "…"` for a text
abbrev pub is_str : Value → String → Bool
is_str (str s) t = str_eq s t
is_str _ t = false

-- `v is None`, which for these values is also `v == None`
abbrev pub is_null : Value → Bool
is_null null = true
is_null _ = false

-- `v == b` for a bool: Python's True is the integer 1.
abbrev pub equals_bool : Value → Bool → Bool
equals_bool (bool true) true = true
equals_bool (bool false) false = true
equals_bool (int (pos n)) true = n == 1
equals_bool (int (pos n)) false = n == 0
equals_bool (float s) true = str_eq s "1.0"
equals_bool (float s) false = str_eq s "0.0" || str_eq s "-0.0"
equals_bool _ _ = false

-- `v == o` for a result of the code that is a text or None
abbrev pub equals_text : Value → Option String → Bool
equals_text v none = is_null v
equals_text v (some s) = is_str v s

-- `v in {…}` for a set of texts
abbrev pub one_of : Value → List String → Bool
one_of v texts = any (λ t. is_str v t) texts

-- `isinstance(v, int) and not isinstance(v, bool) and v >= 0`
abbrev pub version? : Value → Option ℕ
version? (int (pos n)) = some n
version? _ = none

-- the JSON value of an optional text
abbrev pub text_value : Option String → Value
text_value none = null
text_value (some s) = str s

pub is_bool-eq : (v : Value) (b : Bool) → is_bool v b ≡ true → v ≡ bool b
is_bool-eq v b h = ground arith

pub equals_text-eq : (v : Value) (o : Option String) → equals_text v o ≡ true → v ≡ text_value o
equals_text-eq (str s) (some t) h = ap str ((eq_iff s t).0 h)
equals_text-eq null none h = refl
equals_text-eq v o h = ground arith

-- Two non-negative integers, or the error of a case that lacks one.
abbrev pub with_versions : {A : Type 0} → Value → Value → String → (ℕ → ℕ → Result A) → Result A
with_versions a b message f = elim (version? a) [
  | none ↦ err message
  | some m ↦ elim (version? b) [ none ↦ err message | some n ↦ f m n ]
]

pub is_str-eq : (v : Value) (s : String) → is_str v s ≡ true → v ≡ str s
is_str-eq (str t) s h = ap str ((eq_iff t s).0 h)
is_str-eq null s h = ground arith
is_str-eq _ s h = ground arith
