-- ===== src/Json/Stops.antt =====
-- The tests of Python that stop early, taken apart.
use curator_spec.Prelude.{
  All, Bool, Elem, List, Result, [], err, false, inl, inr, none, ok, refl, true, ◌∷◌, ◌≡◌,
}
use curator_spec.Json.{Value}
use curator_spec.Json.Read.{either, both, negated, any_of, Refusal, first_refusal}

-- `a or b` is false only if both are.
pub either-eq-false : (a b : Result Bool) → either a b ≡ ok false → (a ≡ ok false) × (b ≡ ok false)
unfolding either
either-eq-false (ok false) b h = (refl, h)
either-eq-false (ok true) b h = absurd (cc)
either-eq-false (err e) b h = absurd (cc)

pub both-eq-true : (a b : Result Bool) → both a b ≡ ok true → (a ≡ ok true) × (b ≡ ok true)
unfolding both
both-eq-true (ok true) b h = (refl, h)
both-eq-true (ok false) b h = absurd (cc)
both-eq-true (err e) b h = absurd (cc)

pub negated-eq-false : (a : Result Bool) → negated a ≡ ok false → a ≡ ok true
negated-eq-false (ok true) h = refl
negated-eq-false (ok false) h = absurd (cc)
negated-eq-false (err e) h = absurd (cc)

-- A search that finds nothing has failed on each element.
pub any_of-Elem :
    (test : Value → Result Bool) (v : Value) (vs : List Value)
    → any_of test vs ≡ ok false
    → Elem v vs
    → test v ≡ ok false
unfolding any_of
any_of-Elem test v [] h m = absurd m
any_of-Elem test v (w ∷ vs) h (inl e) = rw e ((either-eq-false (test w) (any_of test vs) h).0)
any_of-Elem test v (w ∷ vs) h (inr m) =
    any_of-Elem test v vs ((either-eq-false (test w) (any_of test vs) h).1) m

-- Where no refusal applies, each condition was read and is false.
pub first_refusal-None :
    (refusals : List Refusal)
    → first_refusal refusals ≡ ok none
    → All (λ r. r.0 ≡ ok false) refusals
unfolding first_refusal
first_refusal-None [] h = tt
first_refusal-None ((ok false, code) ∷ rest) h = (refl, first_refusal-None rest h)
first_refusal-None ((ok true, code) ∷ rest) h = absurd (cc)
first_refusal-None ((err e, code) ∷ rest) h = absurd (cc)
