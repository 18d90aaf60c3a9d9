-- ===== src/Json/Equal.antt =====
-- Python's `==` on decoded values: True is 1, and the order of a dict's keys does not count. How a
-- float compares is a parameter, over the texts that Python prints for floats.
use curator_spec.Prelude.{Bool, String, all, false, pos, same_int, true, ℤ, ◌&&◌}
use curator_spec.Json.{
  Value, Items, Fields, null, bool, int, float, str, arr, obj, no_items, item, bare, member, get,
  is_str, is_null, is_in, field_names,
}

pub record Floats : Type 0 where
  pub equals_int : String → ℤ → Bool
  pub equals_float : String → String → Bool

abbrev pub int_of : Bool → ℤ
int_of true = pos 1
int_of false = pos 0

module _ (floats : Floats) where
  abbrev pub equals_number : ℤ → Value → Bool
  equals_number n (int m) = same_int n m
  equals_number n (bool b) = same_int n (int_of b)
  equals_number n (float s) = floats.equals_int s n
  equals_number n _ = false

  abbrev pub equals_float : String → Value → Bool
  equals_float s (int n) = floats.equals_int s n
  equals_float s (bool b) = floats.equals_int s (int_of b)
  equals_float s (float t) = floats.equals_float s t
  equals_float s _ = false

  unfoldable mutual
    unfolding same_int get

    pub same_value : Value → Value → Bool
    same_value null w = is_null w
    same_value (bool b) w = equals_number (int_of b) w
    same_value (int n) w = equals_number n w
    same_value (float s) w = equals_float s w
    same_value (str s) w = is_str w s
    same_value (arr xs) (arr ys) = same_items xs ys
    same_value (arr xs) w = false
    same_value (obj d) (obj e) =
        same_fields d e && all (λ k. is_in k (field_names d)) (field_names e)
    same_value (obj d) w = false

    pub same_items : Items → Items → Bool
    same_items no_items no_items = true
    same_items (item v xs) (item w ys) = same_value v w && same_items xs ys
    same_items no_items (item w ys) = false
    same_items (item v xs) no_items = false

    -- each member of the first dict is in the second
    pub same_fields : Fields → Fields → Bool
    same_fields bare e = true
    same_fields (member k v rest) e =
        is_in k (field_names e) && (same_value v (get e k) && same_fields rest e)
