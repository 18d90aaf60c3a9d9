-- ===== src/Environment/Weights.antt =====
-- The comparison of members by weight, in the sort of environment_emitted_order of tools/validate.py.
use mathlib.Core.Path.{transport}
use curator_spec.Prelude.{
  Bool, IsLevel, IsSorted, IsWeak, List, arith, false, int_gt, int_gt_asymm, int_le_trans, negate,
  negsuc, pos, same_int, suc, true, zero, ℤ, ◌≡◌,
}
use curator_spec.Resolution.Members.{Member}
use curator_spec.Environment.Order.{weighs_after}

pub weighs_after-IsWeak : (b : Bool) → IsWeak (weighs_after b)
weighs_after-IsWeak true = record {
  asymm = λ m n h. int_gt_asymm m.weight n.weight h;
  trans = λ l m n g h. int_le_trans l.weight m.weight n.weight g h;
}
weighs_after-IsWeak false = record {
  asymm = λ m n h. int_gt_asymm (negate m.weight) (negate n.weight) h;
  trans = λ l m n g h. int_le_trans (negate l.weight) (negate m.weight) (negate n.weight) g h;
}

-- the members of one weight
abbrev pub weighs : ℤ → Member → Bool
weighs w m = same_int m.weight w

same_int-eq : (i j : ℤ) → same_int i j ≡ true → i ≡ j
unfolding same_int
same_int-eq (pos m) (pos n) h = ground arith
same_int-eq (negsuc m) (negsuc n) h = ground arith
same_int-eq (pos m) (negsuc n) h = ground arith
same_int-eq (negsuc m) (pos n) h = ground arith

not_after_self : (i : ℤ) → int_gt i i ≡ false
not_after_self (pos n) = ground arith
not_after_self (negsuc n) = ground arith

pub weighs-IsLevel : (b : Bool) (w : ℤ) → IsLevel (weighs_after b) (weighs w)
weighs-IsLevel true w m n g h =
    rw (same_int-eq m.weight w g, same_int-eq n.weight w h) (not_after_self w)
weighs-IsLevel false w m n g h =
    rw (same_int-eq m.weight w g, same_int-eq n.weight w h) (not_after_self (negate w))

int_gt-negate : (i j : ℤ) → int_gt (negate i) (negate j) ≡ int_gt j i
int_gt-negate (pos zero) (pos zero) = ground arith
int_gt-negate (pos zero) (pos (suc n)) = ground arith
int_gt-negate (pos (suc m)) (pos zero) = ground arith
int_gt-negate (pos (suc m)) (pos (suc n)) = ground arith
int_gt-negate (pos zero) (negsuc n) = ground arith
int_gt-negate (pos (suc m)) (negsuc n) = ground arith
int_gt-negate (negsuc m) (pos zero) = ground arith
int_gt-negate (negsuc m) (pos (suc n)) = ground arith
int_gt-negate (negsuc m) (negsuc n) = ground arith

-- The weights never fall, and they never rise.
abbrev pub NeverFall : List Member → Type 0
NeverFall = IsSorted (λ m n. int_gt m.weight n.weight)

abbrev pub NeverRise : List Member → Type 0
NeverRise = IsSorted (λ m n. int_gt n.weight m.weight)

pub upwards : (b : Bool) (ms : List Member) → IsSorted (weighs_after b) ms → b ≡ true → NeverFall ms
upwards true ms h e = h
upwards false ms h e = absurd (ground arith)

pub downwards :
    (b : Bool) (ms : List Member) → IsSorted (weighs_after b) ms → b ≡ false → NeverRise ms
downwards true ms h e = absurd (ground arith)
downwards false ms h e = transport (λ i. IsSorted (λ m n. int_gt-negate m.weight n.weight i) ms) h
