-- ===== src/Json/Names.antt =====
-- Texts among texts: the Boolean test against membership.
use curator_spec.Prelude.{
  Bool, Bool-cases, Elem, Elem-any, List, String, any-Elem, ap, arith, eq_iff, false, inl, inr,
  refl, str_eq, sym, true, ◌||◌, ◌↔◌, ◌≡◌, ◌≢◌, ◌⊎◌,
}
use curator_spec.Json.{is_in}
use mathlib.Core.Path.{transport}

pub str_eq_iff : (s t : String) → (str_eq s t ≡ true) ↔ (s ≡ t)
str_eq_iff s t = ((eq_iff s t).0, (eq_iff s t).1)

pub str_ne : (s t : String) → s ≢ t → str_eq s t ≡ false
str_ne s t h = elim (Bool-cases (str_eq s t)) [ inl e ↦ absurd (h ((eq_iff s t).0 e)) | inr e ↦ e ]

pub is_in_iff : (s : String) (xs : List String) → (is_in s xs ≡ true) ↔ Elem s xs
is_in_iff s xs = (
  λ h.
      let (a, m, e) = any-Elem (λ t. str_eq s t) xs h in
      transport (ap (λ t. Elem t xs) (sym ((eq_iff s a).0 e))) m,
  λ m. Elem-any (λ t. str_eq s t) s xs m ((eq_iff s s).1 refl),
)

pub not_in : (s : String) (xs : List String) → ¬ Elem s xs → is_in s xs ≡ false
not_in s xs h = elim (Bool-cases (is_in s xs)) [
  | inl e ↦ absurd (h ((is_in_iff s xs).0 e))
  | inr e ↦ e
]

-- a disjunction of tests
pub or_iff :
    (a b : Bool) (P Q : Type 0) → (a ≡ true) ↔ P → (b ≡ true) ↔ Q → ((a || b) ≡ true) ↔ (P ⊎ Q)
or_iff true b P Q f g = (λ h. inl (f.0 refl), λ x. refl)
or_iff false b P Q f g = (
  λ h. inr (g.0 h),
  λ x. elim x [ inl p ↦ absurd (let q = f.1 p in ground arith) | inr q ↦ g.1 q ],
)
