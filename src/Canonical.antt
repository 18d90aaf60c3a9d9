-- ===== src/Canonical.antt =====
-- ccj1_bytes of tools/validate.py. The parameter `dumps` is json.dumps with sorted keys and no white
-- space, encoded in UTF-8, whose error is the UnicodeEncodeError of a lone surrogate. A key of a
-- decoded dict is always a text.
pub mod Exact
use curator_spec.Text.{Text}
use curator_spec.Prelude.{
  Check, Result, String, err, if◌then◌else◌, ltb, negsuc, ok, pos, raise_if, str_eq, suc, ℕ, ℤ,
  ◌>>◌,
}
use curator_spec.Json.{
  Value, Items, Fields, null, bool, int, float, str, arr, obj, no_items, item, bare, member,
}

-- SAFE_INTEGER
abbrev pub safe_integer : ℕ
safe_integer = 9007199254740991

-- `abs(n)`
abbrev pub magnitude : ℤ → ℕ
magnitude (pos n) = n
magnitude (negsuc n) = suc n

unfoldable mutual
  pub ccj1_validate : Value → Check
  ccj1_validate null = ok tt
  ccj1_validate (bool b) = ok tt
  ccj1_validate (str s) = ok tt
  ccj1_validate (int n) =
      raise_if (ltb safe_integer (magnitude n)) "integer outside CCJ-1 safe range"
  ccj1_validate (float s) = err "unsupported CCJ-1 value float"
  ccj1_validate (arr items) = validate_items items
  ccj1_validate (obj fields) = validate_fields fields

  pub validate_items : Items → Check
  validate_items no_items = ok tt
  validate_items (item v rest) = ccj1_validate v >> validate_items rest

  pub validate_fields : Fields → Check
  validate_fields bare = ok tt
  validate_fields (member k v rest) = ccj1_validate v >> validate_fields rest

abbrev pop : String → Fields → Fields
pop key bare = bare
pop key (member k v rest) = if str_eq k key then rest else member k v (pop key rest)

-- the value without its signature
abbrev pub unsigned : Value → Value
unsigned (obj fields) = obj (pop "sig" fields)
unsigned v = v

unfoldable pub ccj1_bytes : (Value → Result Text) → Value → Result Text
unfolding ccj1_validate
ccj1_bytes dumps v = ccj1_validate (unsigned v) >> dumps (unsigned v)
