-- ===== src/Text/Decimal.antt =====
-- `str(n)` and `int(s)` on non-negative decimals.
use curator_spec.Prelude.{
  Bool, [], all, arith, false, if◌then◌else◌, leb, refl, suc, true, zero, ℕ, ◌%◌, ◌&&◌, ◌*◌, ◌+◌,
  ◌-◌, ◌/◌, ◌<◌, ◌==◌, ◌∷◌, ◌≡◌,
}
use curator_spec.Text.{Text}
use curator_spec.Text.Split.{Lacks}

unfoldable pub is_digit : ℕ → Bool
is_digit c = leb b'0' c && leb c b'9'

-- the digits of `n` in front of `out`; `fuel` is more than `n` has digits
print : ℕ → ℕ → Text → Text
print zero n out = out
print (suc fuel) n out =
    let out' = (b'0' + n % 10) ∷ out in
    let rest = print fuel (n / 10) out' in if n / 10 == 0 then out' else rest

-- `str(n)`
unfoldable pub decimal : ℕ → Text
unfolding print
decimal n = print (suc n) n []

-- the number that digits spell behind `n`
abbrev pub read : ℕ → Text → ℕ
read n [] = n
read n (c ∷ s) = read (n * 10 + (c - b'0')) s

-- `int(s)` for digits
unfoldable pub number : Text → ℕ
number s = read 0 s

read-print : (fuel n : ℕ) (out : Text) → n < fuel → read 0 (print fuel n out) ≡ read n out
unfolding print
read-print zero n out h = absurd (omega arith)
read-print (suc fuel) n out h = ground (arith, read-print fuel (n / 10) ((b'0' + n % 10) ∷ out))

-- Every number is read back from its decimal print.
pub number-decimal : (n : ℕ) → number (decimal n) ≡ n
unfolding number decimal
number-decimal n = read-print (suc n) n [] (omega arith)

print-digits :
    (fuel n : ℕ) (out : Text) → all is_digit out ≡ true → all is_digit (print fuel n out) ≡ true
unfolding print is_digit
print-digits zero n out h = h
print-digits (suc fuel) n out h = ground (arith, print-digits fuel (n / 10) ((b'0' + n % 10) ∷ out))

pub decimal-digits : (n : ℕ) → all is_digit (decimal n) ≡ true
unfolding decimal
decimal-digits n = print-digits (suc n) n [] refl

-- the first digit is `0` only for zero
abbrev pub leads : Text → Bool
leads [] = false
leads (c ∷ s) = leb b'1' c && leb c b'9'

print-leads : (fuel n : ℕ) (out : Text) → n < fuel → 0 < n → leads (print fuel n out) ≡ true
unfolding print
print-leads zero n out h p = absurd (omega arith)
print-leads (suc fuel) n out h p = ground (arith, print-leads fuel (n / 10) ((b'0' + n % 10) ∷ out))

pub decimal-leads : (n : ℕ) → 0 < n → leads (decimal n) ≡ true
unfolding decimal
decimal-leads n p = print-leads (suc n) n [] (omega arith) p

pub decimal-zero : decimal 0 ≡ b'0' ∷ []
unfolding decimal
decimal-zero = refl

-- digits hold no character that is no digit
pub digits-Lacks : (c : ℕ) (s : Text) → is_digit c ≡ false → all is_digit s ≡ true → Lacks c s
unfolding is_digit
digits-Lacks c [] n h = refl
digits-Lacks c (d ∷ s) n h = ground (arith, digits-Lacks c s n)
