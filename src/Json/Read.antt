-- ===== src/Json/Read.antt =====
-- Python expressions over decoded values, which may raise: subscripts, tests that stop early, and a
-- sequence of refusals of which the first one that applies returns.
use curator_spec.Prelude.{
  Bool, List, Option, Result, String, [], any, err, false, if◌then◌else◌, none, not, ok, some, true,
  ◌>>=◌, ◌∷◌,
}
use curator_spec.Text.{Text, codes, text_eq}
use curator_spec.Json.{values, Value, null, str, arr, obj, get, is_in, is_str, field_names, truthy}
use curator_spec.Json.Equal.{Floats, same_value}

-- `v[key]` for a text
abbrev pub subscript : String → Value → Result Value
subscript key (obj d) = if is_in key (field_names d) then ok (get d key) else err "KeyError"
subscript key _ = err "TypeError"

infixl 8 ◌!◌
unfoldable pub ◌!◌ : Result Value → String → Result Value
unfolding get
v ! key = v >>= subscript key

-- `bool(v)`
abbrev pub holds : Result Value → Result Bool
holds v = v >>= λ w. ok (truthy w)

-- `a or b`, `a and b` and `not a`
unfoldable pub either : Result Bool → Result Bool → Result Bool
either a b = a >>= λ t. if t then ok true else b

unfoldable pub both : Result Bool → Result Bool → Result Bool
both a b = a >>= λ t. if t then b else ok false

abbrev pub negated : Result Bool → Result Bool
negated a = a >>= λ t. ok (not t)

-- `v == "…"` and `v is None`
abbrev pub is_text : Result Value → String → Result Bool
is_text v s = v >>= λ w. ok (is_str w s)

abbrev pub is_none : Result Value → Result Bool
is_none v = v >>= λ w. elim w [ null ↦ ok true | _ ↦ ok false ]

-- `v == t` for a text of the code
abbrev pub equals_codes : Value → Text → Bool
equals_codes (str s) t = text_eq (codes s) t
equals_codes _ t = false

-- the elements of a list, over which a loop runs
abbrev pub list_of : Value → Result (List Value)
list_of (arr items) = ok (values items)
list_of _ = err "TypeError"

-- `any(test(x) for x in xs)` for a test that may raise
unfoldable pub any_of : (Value → Result Bool) → List Value → Result Bool
unfolding either
any_of test [] = ok false
any_of test (x ∷ xs) = either (test x) (any_of test xs)

module _ (floats : Floats) where
  -- `a == b`
  unfoldable pub equal : Result Value → Result Value → Result Bool
  unfolding same_value
  equal a b = do x ← a; y ← b; ok (same_value floats x y)

  -- `a != b`
  abbrev pub differ : Result Value → Result Value → Result Bool
  differ a b = negated (equal a b)

  -- `x in xs` for a list
  unfoldable pub contained : Result Value → Result Value → Result Bool
  unfolding same_value
  contained x xs = do v ← x; ws ← xs >>= list_of; ok (any (λ w. same_value floats v w) ws)

-- A condition and what is returned if it holds.
abbrev pub Refusal : Type 0
Refusal = Result Bool × String

-- `if condition: return refusal`, in their order
unfoldable pub first_refusal : List Refusal → Result (Option String)
first_refusal [] = ok none
first_refusal ((condition, code) ∷ rest) = do
  applies ← condition
  (if applies then ok (some code) else first_refusal rest)
