-- ===== src/Surfacing/Canon.antt =====
-- The rows that the parser of surfacing rows accepts.
use curator_spec.Text.{is_empty, codes, text_eq-eq, text_eq, has, Text}
use curator_spec.Prelude.{
  >>=-eq-ok, Bool, Bool-cases, List, Option, [], ap, append-nil, arith, drop, false, if-false,
  if-true, inl, inr, none, not, not-eq-false, ok, ok-eq, raise_if, raise_if-eq-ok, refl, some, sym,
  take, take-append-drop, true, ℕ, ◌++◌, ◌||◌, ◌∙◌, ◌∷◌, ◌≡◌,
}
use curator_spec.Text.Split.{without, without-eq, before-after}
use curator_spec.Json.{Value}
use curator_spec.Surfacing.{
  check_transport, check_lines, check_head, check_end, check_command, array_at, remaining, Row, cut,
  behind, read_array, read_columns, s4_parse_surfacing_row, row_text, column_text, array_of,
}

cut-eq : (s a b : Text) → cut s ≡ ok (a, b) → s ≡ a ++ b' ' ∷ b
cut-eq s a b h = elim (Bool-cases (has b' ' s)) [
  | inl e ↦
      let p = ok-eq (sym (if-true _ _ e) ∙ h) in
      before-after b' ' s e ∙ ap (λ q. q.0 ++ b' ' ∷ q.1) p
  | inr e ↦ let q = sym (if-false _ _ e) ∙ h in cc
]

remaining-eq : (o : Option Text) (rest : Text) → remaining o ≡ ok rest → o ≡ some rest
remaining-eq none rest h = cc
remaining-eq (some r) rest h = ap some (ok-eq h)

behind-eq : (p s rest : Text) → behind p s ≡ ok rest → s ≡ p ++ rest
behind-eq p s rest h = let e = remaining-eq (without s p) rest h in without-eq s p rest e

||-not : (b c : Bool) → (not b || c) ≡ false → b ≡ true
||-not true c h = refl
||-not false c h = cc

module _ (compact : List Text → Text) (decode : Text → Option (Value × ℕ)) where
  array_at-eq :
      (s : Text) (o : Option (Value × ℕ)) (ts : List Text) (rest : Text)
      → array_at compact decode s o ≡ ok (ts, rest)
      → s ≡ compact ts ++ rest
  array_at-eq s none ts rest k = cc
  array_at-eq s (some (v, n)) ts rest k =
      let (us, e, k1) = >>=-eq-ok (array_of v) _ k in
      let differs = not (text_eq (compact us) (take n s)) in
      let (_, f, k2) = >>=-eq-ok (raise_if differs "None") _ k1 in
      let same =
        text_eq-eq (compact us) (take n s)
          (not-eq-false (text_eq (compact us) (take n s)) (raise_if-eq-ok differs "None" f)) in
      sym (take-append-drop n s)
      ∙ ap (λ q. q ++ drop n s) (sym same)
      ∙ ap (λ q. compact q.0 ++ q.1) (ok-eq k2)

  read_array-eq :
      (s : Text) (ts : List Text) (rest : Text)
      → read_array compact decode s ≡ ok (ts, rest)
      → s ≡ compact ts ++ rest
  unfolding read_array
  read_array-eq s ts rest h = array_at-eq s (decode s) ts rest h

  is_empty-eq : (s : Text) → is_empty s ≡ true → s ≡ []
  is_empty-eq [] h = refl
  is_empty-eq (c ∷ s) h = cc

  abbrev columns : Text → List Text → List Text → Text
  columns command args env_names =
      codes "command="
      ++ (command
          ++ b' ' ∷ (codes "args=" ++ (compact args ++ (codes " env_names=" ++ compact env_names))))

  check_end-eq : (t : Text) (args : List Text) (s : Text) → check_end t args s ≡ ok tt → s ≡ []
  check_end-eq t args s h = is_empty-eq s (ground (arith, raise_if-eq-ok _ "None" h))

  -- the columns of what is read are the text
  read_columns-eq :
      (name version transport s : Text) (r : Row)
      → read_columns compact decode name version transport s ≡ ok r
      → (s ≡ column_text compact r)
        × (r.package_name ≡ name)
        × (r.version ≡ version)
        × (r.transport ≡ transport)
  unfolding read_columns
  read_columns-eq name version transport s r h =
      let (s1, e1, h1) = >>=-eq-ok (behind (codes "command=") s) _ h in
      let ((command, s2), e2, h2) = >>=-eq-ok (cut s1) _ h1 in
      let (_, _, h3) = >>=-eq-ok (check_command transport command) _ h2 in
      let (s3, e3, h4) = >>=-eq-ok (behind (codes "args=") s2) _ h3 in
      let ((args, s4), e4, h5) = >>=-eq-ok (read_array compact decode s3) _ h4 in
      let (s5, e5, h6) = >>=-eq-ok (behind (codes " env_names=") s4) _ h5 in
      let ((env_names, s6), e6, h7) = >>=-eq-ok (read_array compact decode s5) _ h6 in
      let (_, e7, h8) = >>=-eq-ok (check_end transport args s6) _ h7 in
      let names : s5 ≡ compact env_names =
        read_array-eq s5 env_names s6 e6
        ∙ ap (λ q. compact env_names ++ q) (check_end-eq transport args s6 e7)
        ∙ append-nil (compact env_names) in
      let after_args : s4 ≡ codes " env_names=" ++ compact env_names =
        behind-eq (codes " env_names=") s4 s5 e5 ∙ ap (λ q. codes " env_names=" ++ q) names in
      let after_command : s2
          ≡ codes "args=" ++ (compact args ++ (codes " env_names=" ++ compact env_names)) =
        behind-eq (codes "args=") s2 s3 e3
        ∙ ap (λ q. codes "args=" ++ q)
            (read_array-eq s3 args s4 e4 ∙ ap (λ q. compact args ++ q) after_args) in
      let whole : s ≡ columns command args env_names =
        behind-eq (codes "command=") s s1 e1
        ∙ ap (λ q. codes "command=" ++ q)
            (cut-eq s1 command s2 e2 ∙ ap (λ q. command ++ b' ' ∷ q) after_command) in
      let same = ok-eq h8 in
      (
        whole ∙ ap (column_text compact) same,
        sym (ap (λ r. r.package_name) same),
        sym (ap (λ r. r.version) same),
        sym (ap (λ r. r.transport) same),
      )

  check_head-eq :
      (marker name version : Text)
      → check_head marker name version ≡ ok tt
      → marker ≡ codes "mcp-declaration"
  check_head-eq marker name version h =
      let e =
        raise_if-eq-ok
          (not (text_eq marker (codes "mcp-declaration")) || (is_empty name || is_empty version))
          "None" h in
      text_eq-eq marker (codes "mcp-declaration")
        (||-not (text_eq marker (codes "mcp-declaration")) (is_empty name || is_empty version) e)

  -- A row that the parser accepts is the row of the declaration that it reads, character by
  -- character, whatever the decoder of JSON makes of the arrays: there is no second spelling.
  pub s4_parse_surfacing_row-row_text :
      (row : Text) (r : Row)
      → s4_parse_surfacing_row compact decode row ≡ ok r
      → row_text compact r ≡ row
  unfolding s4_parse_surfacing_row row_text
  s4_parse_surfacing_row-row_text row r h =
      let (_, _, h0) = >>=-eq-ok (check_lines row) _ h in
      let ((marker, r1), e1, h1) = >>=-eq-ok (cut row) _ h0 in
      let ((name, r2), e2, h2) = >>=-eq-ok (cut r1) _ h1 in
      let ((version, r3), e3, h3) = >>=-eq-ok (cut r2) _ h2 in
      let ((transport, r4), e4, h4) = >>=-eq-ok (cut r3) _ h3 in
      let (_, e5, h5) = >>=-eq-ok (check_head marker name version) _ h4 in
      let (_, _, h6) = >>=-eq-ok (check_transport transport) _ h5 in
      let (c, n, v, t) = read_columns-eq name version transport r4 r h6 in
      let row3 : r3 ≡ r.transport ++ b' ' ∷ column_text compact r =
        cut-eq r3 transport r4 e4 ∙ (λ i. (sym t) i ++ b' ' ∷ c i) in
      let row2 : r2 ≡ r.version ++ b' ' ∷ (r.transport ++ b' ' ∷ column_text compact r) =
        cut-eq r2 version r3 e3 ∙ (λ i. (sym v) i ++ b' ' ∷ row3 i) in
      let row1 = cut-eq r1 name r2 e2 ∙ (λ i. (sym n) i ++ b' ' ∷ row2 i) in
      sym
        (cut-eq row marker r1 e1 ∙ (λ i. (check_head-eq marker name version e5) i ++ b' ' ∷ row1 i))
