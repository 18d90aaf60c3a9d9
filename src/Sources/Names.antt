-- ===== src/Sources/Names.antt =====
-- The Git ref names that validate_git_ref_name of tools/validate.py accepts.
use curator_spec.Prelude.{
  Bool, Elem, Option, String, [], all-Elem, any-No, ap, arith, false, if◌then◌else◌, leb, none, not,
  not-eq-false, refl, some, true, ||-false, ℕ, ◌&&◌, ◌<◌, ◌==◌, ◌||◌, ◌∙◌, ◌∷◌, ◌≡◌, ◌≢◌, ◌≤◌, ◌⊎◌,
}
use curator_spec.Text.{has, Text, codes, starts_with, ends_with, contains, text_eq, text_eq_refl}
use curator_spec.Text.Split.{split}
use curator_spec.Sources.Git.{
  is_scalar_text, encoded_length, is_bad_ref_component, is_bad_ref_char, is_bad_ref,
  validate_git_ref_name,
}

-- A name that is safe: its size, where it may start and end, what its components and what its
-- characters may be.
pub record IsSafeName (s : Text) : Type 0 where
  pub scalar : (c : ℕ) → Elem c s → (c < 0xD800) ⊎ (0xDFFF < c)
  pub size : (1 ≤ encoded_length s) × (encoded_length s ≤ 255)
  pub ends :
      (starts_with s (codes "/") ≡ false)
      × (ends_with s (codes "/") ≡ false)
      × (ends_with s (codes ".") ≡ false)
  pub components :
      (part : Text)
      → Elem part (split b'/' s)
      → (part ≢ [])
        × (starts_with part (codes ".") ≡ false)
        × (ends_with part (codes ".lock") ≡ false)
  pub sequences : (contains s (codes "..") ≡ false) × (contains s (codes "@{") ≡ false)
  pub no_at : s ≢ codes "@"
  pub characters : (c : ℕ) → Elem c s → (32 < c) × (c ≢ 127) × ¬ Elem c (codes "~^:?*[\\")

good_component :
    (s : Text)
    → is_bad_ref_component s ≡ false
    → (s ≢ []) × (starts_with s (codes ".") ≡ false) × (ends_with s (codes ".lock") ≡ false)
good_component [] h = absurd (ground arith)
good_component (c ∷ s) h = let (a, b) = ||-false _ _ h in ((λ e. absurd (ground arith)), a, b)

good_char : (c : ℕ) → is_bad_ref_char c ≡ false → (32 < c) × (c ≢ 127) × ¬ Elem c (codes "~^:?*[\\")
good_char c h =
    let (a, h1) = ||-false (leb c 32) (c == 127 || has c (codes "~^:?*[\\")) h in
    let (b, d) = ||-false (c == 127) (has c (codes "~^:?*[\\")) h1 in
    (
      ground arith,
      (λ e. ground arith),
      λ m. absurd (let q = any-No (λ x. x == c) (codes "~^:?*[\\") d c m in ground arith),
    )

scalar_char : (c : ℕ) → not (leb 0xD800 c && leb c 0xDFFF) ≡ true → (c < 0xD800) ⊎ (0xDFFF < c)
scalar_char c h = ground arith

encoded_size : (n : ℕ) → not (leb 1 n && leb n 255) ≡ false → (1 ≤ n) × (n ≤ 255)
encoded_size n h = (ground arith, ground arith)

not_at_sign : (s : Text) → text_eq s (codes "@") ≡ false → s ≢ codes "@"
not_at_sign s h e =
    let q : text_eq s (codes "@") ≡ true =
      ap (λ t. text_eq t (codes "@")) e ∙ text_eq_refl (codes "@") in
    absurd (ground (arith, h, q))

refused :
    (b : Bool) (e : String) (rest : Option String)
    → (if b then some e else rest) ≡ none
    → (b ≡ false) × (rest ≡ none)
refused true e rest h = absurd (cc)
refused false e rest h = (refl, h)

-- a text that passes is a safe name
pub ref_name-IsSafeName : (s : Text) → validate_git_ref_name (some s) ≡ none → IsSafeName s
unfolding validate_git_ref_name is_bad_ref is_scalar_text
ref_name-IsSafeName s h =
    let (u, h1) = refused (not (is_scalar_text s)) _ _ h in
    let (n, h2) = refused (not (leb 1 (encoded_length s) && leb (encoded_length s) 255)) _ _ h1 in
    let (bad, _) = refused (is_bad_ref s) _ _ h2 in
    let (first, b1) = ||-false _ _ bad in
    let (slash, b2) = ||-false _ _ b1 in
    let (dot, b3) = ||-false _ _ b2 in
    let (parts, b4) = ||-false _ _ b3 in
    let (dots, b5) = ||-false _ _ b4 in
    let (brace, b6) = ||-false _ _ b5 in
    let (at, chars) = ||-false _ _ b6 in
    record {
      scalar = λ c m.
          scalar_char c
            (all-Elem (λ x. not (leb 0xD800 x && leb x 0xDFFF)) c s (not-eq-false _ u) m);
      size = encoded_size (encoded_length s) n;
      ends = (first, slash, dot);
      components = λ part m. good_component part (any-No is_bad_ref_component _ parts part m);
      sequences = (dots, brace);
      no_at = not_at_sign s at;
      characters = λ c m. good_char c (any-No is_bad_ref_char s chars c m);
    }
