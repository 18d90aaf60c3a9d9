-- ===== src/Canonical/Exact.antt =====
-- The numbers of a value with canonical bytes.
use curator_spec.Text.{Text}
use curator_spec.Prelude.{
  >>-eq-ok, All, All-append, List, [], ap, arith, false, ltb, ok, raise_if, raise_if-eq-ok, refl, ℤ,
  ◌++◌, ◌∷◌, ◌≡◌, ◌≤◌,
}
use curator_spec.Json.{
  Value, Items, Fields, null, bool, int, float, str, arr, obj, no_items, item, bare, member,
}
use curator_spec.Canonical.{safe_integer, magnitude, ccj1_validate, validate_items, validate_fields}

-- what a value holds that is no array and no object
mutual
  pub leaves : Value → List Value
  leaves (arr items) = item_leaves items
  leaves (obj fields) = field_leaves fields
  leaves null = null ∷ []
  leaves (bool b) = bool b ∷ []
  leaves (str s) = str s ∷ []
  leaves (int n) = int n ∷ []
  leaves (float s) = float s ∷ []

  pub item_leaves : Items → List Value
  item_leaves no_items = []
  item_leaves (item v rest) = leaves v ++ item_leaves rest

  pub field_leaves : Fields → List Value
  field_leaves bare = []
  field_leaves (member k v rest) = leaves v ++ field_leaves rest

-- an integer that a double holds, and no float
abbrev pub IsExact : Value → Type 0
IsExact (int n) = magnitude n ≤ safe_integer
IsExact (float s) = ⊥
IsExact v = Unit

All-split : (P : Value → Type 0) (xs ys : List Value) → All P (xs ++ ys) → All P xs × All P ys
All-split P [] ys h = (tt, h)
All-split P (x ∷ xs) ys (p, h) = let (a, b) = All-split P xs ys h in ((p, a), b)

mutual
  unfolding ccj1_validate leaves

  validate-IsExact : (v : Value) → ccj1_validate v ≡ ok tt → All IsExact (leaves v)
  validate-IsExact null h = (tt, tt)
  validate-IsExact (bool b) h = (tt, tt)
  validate-IsExact (str s) h = (tt, tt)
  validate-IsExact (int n) h =
      let e = raise_if-eq-ok (ltb safe_integer (magnitude n)) _ h in (ground arith, tt)
  validate-IsExact (float s) h = cc
  validate-IsExact (arr items) h = items-IsExact items h
  validate-IsExact (obj fields) h = fields-IsExact fields h

  items-IsExact : (i : Items) → validate_items i ≡ ok tt → All IsExact (item_leaves i)
  items-IsExact no_items h = tt
  items-IsExact (item v rest) h =
      let (a, b) = >>-eq-ok (ccj1_validate v) (validate_items rest) h in
      All-append IsExact (leaves v) (item_leaves rest) (validate-IsExact v a) (items-IsExact rest b)

  fields-IsExact : (d : Fields) → validate_fields d ≡ ok tt → All IsExact (field_leaves d)
  fields-IsExact bare h = tt
  fields-IsExact (member k v rest) h =
      let (a, b) = >>-eq-ok (ccj1_validate v) (validate_fields rest) h in
      All-append IsExact (leaves v) (field_leaves rest) (validate-IsExact v a)
        (fields-IsExact rest b)

int_passes : (n : ℤ) → magnitude n ≤ safe_integer → ltb safe_integer (magnitude n) ≡ false
int_passes n h = ground arith

mutual
  unfolding ccj1_validate leaves

  exact-passes : (v : Value) → All IsExact (leaves v) → ccj1_validate v ≡ ok tt
  exact-passes null h = refl
  exact-passes (bool b) h = refl
  exact-passes (str s) h = refl
  exact-passes (int n) h =
      ap (λ b. raise_if b "integer outside CCJ-1 safe range") (int_passes n h.0)
  exact-passes (float s) h = absurd h.0
  exact-passes (arr items) h = items-pass items h
  exact-passes (obj fields) h = fields-pass fields h

  items-pass : (i : Items) → All IsExact (item_leaves i) → validate_items i ≡ ok tt
  items-pass no_items h = refl
  items-pass (item v rest) h =
      let (a, b) = All-split IsExact (leaves v) (item_leaves rest) h in
      rw (exact-passes v a) (items-pass rest b)

  fields-pass : (d : Fields) → All IsExact (field_leaves d) → validate_fields d ≡ ok tt
  fields-pass bare h = refl
  fields-pass (member k v rest) h =
      let (a, b) = All-split IsExact (leaves v) (field_leaves rest) h in
      rw (exact-passes v a) (fields-pass rest b)
