-- ===== src/Prelude/Results.antt =====
-- Results of code that raises `ValidationFailure`. The error is the message, without the parts
-- that the source interpolates.
use Prim.Native.String.{String}
use mathlib.Core.Path.{◌≡◌, refl}
use mathlib.Core.Bool.{Bool, true, false}
use mathlib.Core.List.{List, [], ◌∷◌}
use curator_spec.Prelude.Lists.{Elem}
use mathlib.Core.Logic.{inl, inr}

pub data Result {ℓ} (A : Type ℓ) : Type ℓ where
  ok : A → Result A
  err : String → Result A

-- code that only checks
abbrev pub Check : Type 0
Check = Result (Unit {0})

-- `if test: raise ValidationFailure(message)`
abbrev pub raise_if : Bool → String → Check
raise_if false message = ok tt
raise_if true message = err message

-- What stands behind a call runs only if the call returned.
infixl 5 ◌>>=◌ ◌>>◌
abbrev pub ◌>>=◌ {ℓ κ} : {Y : Type ℓ} {Z : Type κ} → Result Y → (Y → Result Z) → Result Z
err message >>= rest = err message
ok y >>= rest = rest y

abbrev pub ◌>>◌ {ℓ} : {Z : Type ℓ} → Check → Result Z → Result Z
check >> rest = check >>= λ _. rest

-- `for x in xs: check(x)`
abbrev pub for_each {ℓ} : {A : Type ℓ} → List A → (A → Check) → Check
for_each [] check = ok tt
for_each (x ∷ xs) check = check x >> for_each xs check

-- A composition that returned: its first part did, and so did the rest on the value.
pub >>=-eq-ok {ℓ κ} :
    {Y : Type ℓ} {Z : Type κ} (call : Result Y) (rest : Y → Result Z) {z : Z}
    → (call >>= rest) ≡ ok z
    → (y : Y) × (call ≡ ok y) × (rest y ≡ ok z)
>>=-eq-ok (err message) rest h = cc
>>=-eq-ok (ok y) rest h = (y, refl, h)

pub >>-eq-ok {ℓ} :
    {B : Type ℓ} (m : Check) (k : Result B) {b : B} → (m >> k) ≡ ok b → (m ≡ ok tt) × (k ≡ ok b)
>>-eq-ok (ok tt) k h = (refl, h)
>>-eq-ok (err e) k h = cc

pub raise_if-eq-ok : (b : Bool) (message : String) → raise_if b message ≡ ok tt → b ≡ false
raise_if-eq-ok true message h = cc
raise_if-eq-ok false message h = refl

-- A loop of checks that passes has passed each of its elements.
pub for_each-Elem :
    {A : Type 0} (xs : List A) (check : A → Check) (a : A)
    → for_each xs check ≡ ok tt
    → Elem a xs
    → check a ≡ ok tt
for_each-Elem [] check a h m = absurd m
for_each-Elem (x ∷ xs) check a h (inl e) = rw e (>>-eq-ok (check x) _ h).0
for_each-Elem (x ∷ xs) check a h (inr m) =
    for_each-Elem xs check a (>>-eq-ok (check x) (for_each xs check) h).1 m

-- Code that does not raise returns something.
pub ok_of_ne_err {ℓ} :
    {A : Type ℓ} (r : Result A) → ((message : String) → r ≡ err message → ⊥) → (a : A) × (r ≡ ok a)
ok_of_ne_err (ok a) h = (a, refl)
ok_of_ne_err (err e) h = absurd (h e refl)

pub ok-eq {ℓ} : {A : Type ℓ} {a b : A} → ok a ≡ ok b → a ≡ b
ok-eq h = cc
