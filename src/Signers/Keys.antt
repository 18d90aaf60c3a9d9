-- ===== src/Signers/Keys.antt =====
-- The keys of lock members, and the members that a lock has under them.
use curator_spec.Prelude.{
  Bool, Bool-cases, Elem, List, Option, String, [], any, any-Elem, ap, append-Elem, arith, eq_iff,
  eq_refl, false, if◌then◌else◌, inl, inr, map, none, refl, some, sort_by-Elem, sym, true, ◌++◌,
  ◌∙◌, ◌∷◌, ◌≡◌, ◌⊎◌,
}
use mathlib.Core.Path.{transport}
use curator_spec.Signers.Delta.{
  LockMember, Pin, commit, state, Key, member_key, same_key, member_at, same_pin, same_version,
  unmoved, all_keys, distinct_keys, key_after,
}

pub same_key-eq : (k l : Key) → same_key k l ≡ true → k ≡ l
same_key-eq (k, n) (l, o) h =
    let p : k ≡ l = (eq_iff k l).0 (ground arith) in
    let q : n ≡ o = (eq_iff n o).0 (ground arith) in λ i. (p i, q i)

pub same_key_refl : (k : Key) → same_key k k ≡ true
same_key_refl (k, n) = ground (arith, eq_refl k, eq_refl n)

pub member_at-key :
    (k : Key) (ms : List LockMember) (m : LockMember) → member_at k ms ≡ some m → member_key m ≡ k
unfolding member_at
member_at-key k [] m h = cc
member_at-key k (n ∷ ms) m h = elim (Bool-cases (same_key k (member_key n))) [
  | inl e ↦
      let same : n ≡ m = ground (arith, e) in
      ap member_key (sym same) ∙ sym (same_key-eq k (member_key n) e)
  | inr e ↦ member_at-key k ms m (ground (arith, e))
]

pub member_at-Elem :
    (k : Key) (ms : List LockMember) (m : LockMember)
    → member_at k ms ≡ some m
    → Elem k (map member_key ms)
unfolding member_at
member_at-Elem k [] m h = cc
member_at-Elem k (n ∷ ms) m h = elim (Bool-cases (same_key k (member_key n))) [
  | inl e ↦ inl (same_key-eq k (member_key n) e)
  | inr e ↦ inr (member_at-Elem k ms m (ground (arith, e)))
]

same_pin-eq : (p q : Pin) → same_pin p q ≡ true → p ≡ q
same_pin-eq (commit g) (commit h) e = ap commit ((eq_iff g h).0 e)
same_pin-eq (state g) (state h) e = ap state ((eq_iff g h).0 e)
same_pin-eq (commit g) (state h) e = cc
same_pin-eq (state g) (commit h) e = cc

same_version-eq : (v w : Option String) → same_version v w ≡ true → v ≡ w
same_version-eq none none e = refl
same_version-eq (some v) (some w) e = ap some ((eq_iff v w).0 e)
same_version-eq none (some w) e = cc
same_version-eq (some v) none e = cc

-- members of one key that did not move are the same
pub unmoved-eq : (m n : LockMember) → member_key m ≡ member_key n → unmoved m n ≡ true → m ≡ n
unmoved-eq m n k e =
    let v = same_version-eq m.version n.version (ground arith) in
    let p = same_pin-eq m.pin n.pin (ground arith) in
    λ i. record { kind = (k i).0; name = (k i).1; version = v i; pin = p i }

distinct_by :
    (b : Bool) (k l : Key) (ks : List Key)
    → any (same_key l) ks ≡ b
    → (k ≡ l) ⊎ Elem k ks
    → (Elem k ks → Elem k (distinct_keys ks))
    → Elem k (if b then distinct_keys ks else l ∷ distinct_keys ks)
distinct_by false k l ks e (inl p) f = inl p
distinct_by false k l ks e (inr m) f = inr (f m)
distinct_by true k l ks e (inr m) f = f m
distinct_by true k l ks e (inl p) f =
    let (x, m, q) = any-Elem (same_key l) ks e in
    f (transport (λ i. Elem ((sym (p ∙ same_key-eq l x q)) i) ks) m)

distinct_keys-Elem : (k : Key) (ks : List Key) → Elem k ks → Elem k (distinct_keys ks)
distinct_keys-Elem k [] m = m
distinct_keys-Elem k (l ∷ ks) m =
    distinct_by (any (same_key l) ks) k l ks refl m (distinct_keys-Elem k ks)

pub Elem-all_keys :
    (old new : List LockMember) (k : Key)
    → Elem k (map member_key old) ⊎ Elem k (map member_key new)
    → Elem k (all_keys old new)
unfolding all_keys
Elem-all_keys old new k m =
    let ks = map member_key old ++ map member_key new in
    (sort_by-Elem key_after k (distinct_keys ks)).1
      (distinct_keys-Elem k ks (append-Elem k (map member_key old) (map member_key new) m))
