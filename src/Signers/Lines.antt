-- ===== src/Signers/Lines.antt =====
-- The lines of a delta, as changes of a lock.
use curator_spec.Prelude.{
  Bool, Bool-cases, Elem, List, Option, [], ap, false, if◌then◌else◌, inl, inr, none, refl, some,
  sym, true, ◌++◌, ◌∙◌, ◌∷◌, ◌≡◌, ◌⊎◌,
}
use mathlib.Core.Path.{transport}
use curator_spec.Signers.Keys.{
  same_key-eq, same_key_refl, member_at-key, member_at-Elem, unmoved-eq, Elem-all_keys,
}
use curator_spec.Signers.Delta.{
  LockMember, Key, Line, added, removed, moved, member_key, same_key, member_at, unmoved, line_of,
  lines_for, delta_lines, all_keys,
}

-- a lock by its keys
abbrev pub Members : Type 0
Members = Key → Option LockMember

abbrev put : Key → Option LockMember → Members → Members
put l o f k = if same_key k l then o else f k

-- the change that a line states
abbrev pub apply_line : Line → Members → Members
apply_line (added m) f = put (member_key m) (some m) f
apply_line (removed m) f = put (member_key m) none f
apply_line (moved m n) f = put (member_key n) (some n) f

unfoldable pub apply_lines : List Line → Members → Members
apply_lines [] f = f
apply_lines (l ∷ ls) f = apply_lines ls (apply_line l f)

apply_lines-append :
    (ls ms : List Line) (f : Members) → apply_lines (ls ++ ms) f ≡ apply_lines ms (apply_lines ls f)
unfolding apply_lines
apply_lines-append [] ms f = refl
apply_lines-append (l ∷ ls) ms f = apply_lines-append ls ms (apply_line l f)

-- what the lines of one key do: its member becomes the new one, and nothing else changes
record IsChange (k : Key) (n : Option LockMember) (f g : Members) : Type 0 where
  here : g k ≡ n
  others : (l : Key) → (g l ≡ f l) ⊎ ((g l ≡ n) × (l ≡ k))

put-IsChange : (k : Key) (n : Option LockMember) (f : Members) → IsChange k n f (put k n f)
put-IsChange k n f = record {
  here = rw (same_key_refl k) refl;
  others = λ l. elim (Bool-cases (same_key l k)) [
    | inl e ↦ inr (rw e refl, same_key-eq l k e)
    | inr e ↦ inl (rw e refl)
  ];
}

unchanged : (k : Key) (n : Option LockMember) (f : Members) → f k ≡ n → IsChange k n f f
unchanged k n f h = record { here = h; others = λ l. inl refl }

either-eq : {A : Type 0} {a b c : A} → (a ≡ b) ⊎ (a ≡ c) → b ≡ c → a ≡ c
either-eq (inl p) q = p ∙ q
either-eq (inr p) q = p

moved-IsChange :
    (k : Key) (m n : LockMember) (f : Members) (b : Bool)
    → unmoved m n ≡ b
    → (f k ≡ some m) ⊎ (f k ≡ some n)
    → member_key m ≡ k
    → member_key n ≡ k
    → IsChange k (some n) f (apply_lines (if b then [] else moved m n ∷ []) f)
unfolding apply_lines
moved-IsChange k m n f true e h p q =
    unchanged k (some n) f (either-eq h (ap some (unmoved-eq m n (p ∙ sym q) e)))
moved-IsChange k m n f false e h p q =
    transport (λ i. IsChange k (some n) f (put ((sym q) i) (some n) f)) (put-IsChange k (some n) f)

line_of-IsChange :
    (k : Key) (o n : Option LockMember) (f : Members)
    → (f k ≡ o) ⊎ (f k ≡ n)
    → ((m : LockMember) → o ≡ some m → member_key m ≡ k)
    → ((m : LockMember) → n ≡ some m → member_key m ≡ k)
    → IsChange k n f (apply_lines (line_of o n) f)
unfolding line_of apply_lines
line_of-IsChange k none none f h p q = unchanged k none f (either-eq h refl)
line_of-IsChange k none (some m) f h p q =
    transport (λ i. IsChange k (some m) f (put ((sym (q m refl)) i) (some m) f))
      (put-IsChange k (some m) f)
line_of-IsChange k (some m) none f h p q =
    transport (λ i. IsChange k none f (put ((sym (p m refl)) i) none f)) (put-IsChange k none f)
line_of-IsChange k (some m) (some n) f h p q =
    moved-IsChange k m n f (unmoved m n) refl h (p m refl) (q n refl)

-- each member is still the old one or already the new one
abbrev IsBetween : List LockMember → List LockMember → Members → Type 0
IsBetween old new f = (k : Key) → (f k ≡ member_at k old) ⊎ (f k ≡ member_at k new)

change-IsBetween :
    (old new : List LockMember) (k : Key) (f g : Members)
    → IsBetween old new f
    → IsChange k (member_at k new) f g
    → IsBetween old new g
change-IsBetween old new k f g h c l = elim (c.others l) [
  | inl p ↦ elim (h l) [ inl q ↦ inl (p ∙ q) | inr q ↦ inr (p ∙ q) ]
  | inr (p, q) ↦ inr (p ∙ ap (λ x. member_at x new) (sym q))
]

lines_for-settle :
    (old new : List LockMember) (ks : List Key) (f : Members) (k : Key)
    → IsBetween old new f
    → (f k ≡ member_at k new) ⊎ Elem k ks
    → apply_lines (lines_for old new ks) f k ≡ member_at k new
unfolding lines_for
lines_for-settle old new [] f k h (inl p) = unfold apply_lines in p
lines_for-settle old new [] f k h (inr m) = absurd m
lines_for-settle old new (l ∷ ks) f k h settled =
    let now = line_of (member_at l old) (member_at l new) in
    let g = apply_lines now f in
    let c : IsChange l (member_at l new) f g =
      line_of-IsChange l (member_at l old) (member_at l new) f (h l) (member_at-key l old)
        (member_at-key l new) in
    ap (λ g. g k) (apply_lines-append now (lines_for old new ks) f)
    ∙ lines_for-settle old new ks g k (change-IsBetween old new l f g h c) (elim settled [
      | inl p ↦ elim (c.others k) [
        | inl q ↦ inl (q ∙ p)
        | inr (q, r) ↦ inl (q ∙ ap (λ x. member_at x new) (sym r))
      ]
      | inr (inl p) ↦ inl (ap g p ∙ c.here ∙ ap (λ x. member_at x new) (sym p))
      | inr (inr m) ↦ inr m
    ])

-- a key of the old or of the new lock, or none
known_or_absent :
    (old new : List LockMember) (k : Key) (o n : Option LockMember)
    → member_at k old ≡ o
    → member_at k new ≡ n
    → (member_at k old ≡ member_at k new) ⊎ Elem k (all_keys old new)
known_or_absent old new k none none p q = inl (p ∙ sym q)
known_or_absent old new k (some m) n p q =
    inr (Elem-all_keys old new k (inl (member_at-Elem k old m p)))
known_or_absent old new k none (some m) p q =
    inr (Elem-all_keys old new k (inr (member_at-Elem k new m q)))

-- The lines of a delta, applied to the old lock as the additions, removals and moves that they
-- state, give the new lock: each key has the member that it has in the new lock.
pub delta_lines-apply_lines :
    (old new : List LockMember) (k : Key)
    → apply_lines (delta_lines old new) (λ l. member_at l old) k ≡ member_at k new
unfolding delta_lines
delta_lines-apply_lines old new k =
    lines_for-settle old new (all_keys old new) (λ l. member_at l old) k (λ l. inl refl)
      (known_or_absent old new k (member_at k old) (member_at k new) refl refl)
