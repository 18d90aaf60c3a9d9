-- ===== src/Environment/Acyclic.antt =====
-- A lock without a cycle: the names have ranks, and what a name requires has a lower rank.
use curator_spec.Json.{is_in}
use mathlib.Core.Path.{transport}
use curator_spec.Prelude.{
  Bool, Bool-cases, Elem, List, String, [], all, all-Elem, arith, eq_iff, err, false, inl, inr,
  keep, keep-Elem, length, length-append, ok, refl, sorted, sorted-Elem, str_eq, suc, sym, true,
  zero, ℕ, ◌++◌, ◌+◌, ◌<◌, ◌∙◌, ◌∷◌, ◌≡◌, ◌≤◌,
}
use curator_spec.Cases.{AllDistinct, any_eq-Elem}
use curator_spec.Environment.Kahn.{is_ready, ready, emit}

-- a member that does not pass
not_all-Elem :
    (test : String → Bool) (xs : List String)
    → all test xs ≡ false
    → (a : String) × Elem a xs × (test a ≡ false)
not_all-Elem test [] h = ground arith
not_all-Elem test (x ∷ xs) h = elim (Bool-cases (test x)) [
  | inr e ↦ (x, inl refl, e)
  | inl e ↦ let (a, m, k) = not_all-Elem test xs (ground arith) in (a, inr m, k)
]

-- the list without the first occurrence of a name
abbrev drop_first : String → List String → List String
drop_first s [] = []
drop_first s (x ∷ xs) = elim (str_eq s x) [ true ↦ xs | false ↦ x ∷ drop_first s xs ]

length-drop_first :
    (s : String) (xs : List String) → Elem s xs → suc (length (drop_first s xs)) ≡ length xs
length-drop_first s [] m = absurd m
length-drop_first s (x ∷ xs) (inl e) = ground (arith, eq_iff s x)
length-drop_first s (x ∷ xs) (inr m) = ground (arith, length-drop_first s xs m)

drop_by :
    (b : Bool) (s a x : String) (xs : List String)
    → str_eq s x ≡ b
    → (a ≡ s → ⊥)
    → Elem a (x ∷ xs)
    → (Elem a xs → Elem a (drop_first s xs))
    → Elem a (elim b [ true ↦ xs | false ↦ x ∷ drop_first s xs ])
drop_by true s a x xs e n (inl k) f = absurd (n (k ∙ sym ((eq_iff s x).0 e)))
drop_by true s a x xs e n (inr m) f = m
drop_by false s a x xs e n (inl k) f = inl k
drop_by false s a x xs e n (inr m) f = inr (f m)

-- another member stays
drop_first-Elem :
    (s a : String) (xs : List String) → (a ≡ s → ⊥) → Elem a xs → Elem a (drop_first s xs)
drop_first-Elem s a [] n m = absurd m
drop_first-Elem s a (x ∷ xs) n m = drop_by (str_eq s x) s a x xs refl n m (drop_first-Elem s a xs n)

-- distinct names that all stand in a list are not more than its elements
distinct_fit :
    (names done : List String)
    → AllDistinct names
    → ((n : String) → Elem n names → Elem n done)
    → length names ≤ length done
distinct_fit [] done d f = omega arith
distinct_fit (n ∷ names) done (fresh, d) f =
    let fits = distinct_fit names (drop_first n done) d (λ a m.
      drop_first-Elem n a done (λ e. fresh (transport (λ i. Elem (e i) names) m)) (f a (inr m))) in
    omega (arith, length-drop_first n done (f n (inl refl)), fits)

module _ (needs : String → List String) (names : List String) (rank : String → ℕ) where
  -- what a name requires is a name of lower rank
  pub record IsRanked : Type 0 where
    pub closed : (n q : String) → Elem n names → Elem q (needs n) → Elem q names
    pub lower : (n q : String) → Elem n names → Elem q (needs n) → rank q < rank n

  -- a name that is not emitted
  record IsMissing (done : List String) (n : String) : Type 0 where
    named : Elem n names
    fresh : is_in n done ≡ false

  length-IsMissing :
      AllDistinct names
      → (done : List String) → length done < length names
      → (n : String) × IsMissing done n
  length-IsMissing distinct done h = elim (Bool-cases (all (λ n. is_in n done) names)) [
    | inl e ↦
        let fits =
          distinct_fit names done distinct
            (λ n m. any_eq-Elem n done (all-Elem (λ n. is_in n done) n names e m)) in
        absurd (omega (arith, fits))
    | inr e ↦
        let (n, m, k) = not_all-Elem (λ n. is_in n done) names e in
        (n, record { named = m; fresh = k })
  ]

  -- from a missing name down to one that is ready
  descend :
      IsRanked
      → (fuel : ℕ) (done : List String) (n : String) → rank n < fuel
      → IsMissing done n
      → (r : String) × Elem r names × (is_ready needs names done r ≡ true)
  descend ranked zero done n h missing = absurd (omega arith)
  descend ranked (suc fuel) done n h missing =
      elim (Bool-cases (all (λ q. is_in q done) (needs n))) [
        | inl e ↦ (n, missing.named, ground (arith, missing.fresh))
        | inr e ↦
            let (q, m, k) = not_all-Elem (λ q. is_in q done) (needs n) e in
            let lower = ranked.lower n q missing.named m in
            descend ranked fuel done q (omega (arith, lower))
              (record { named = ranked.closed n q missing.named m; fresh = k })
      ]

  -- a list with a member is not empty
  emit-ok_by :
      (rounds : ℕ) (done found : List String) (r : String)
      → Elem r found
      → ((n : String) → (es : List String) × (emit needs names rounds (done ++ n ∷ []) ≡ ok es))
      → (es : List String) × (elim found [
        | [] ↦ err "environment lock has a context cycle"
        | n ∷ rest ↦ emit needs names rounds (done ++ n ∷ [])
      ]
          ≡ ok es)
  emit-ok_by rounds done [] r m more = absurd m
  emit-ok_by rounds done (n ∷ rest) r m more = more n

  -- Where the names are ranked, the loop finds a name in every round.
  pub emit-ok :
      IsRanked
      → AllDistinct names
      → (rounds : ℕ) (done : List String) → length done + rounds ≡ length names
      → (es : List String) × (emit needs names rounds done ≡ ok es)
  unfolding emit ready
  emit-ok ranked distinct zero done h = (done, refl)
  emit-ok ranked distinct (suc rounds) done h =
      let (n, missing) = length-IsMissing distinct done (omega arith) in
      let (r, m, e) = descend ranked (suc (rank n)) done n (omega arith) missing in
      let found =
        (sorted-Elem r (keep (is_ready needs names done) names)).1
          ((keep-Elem (is_ready needs names done) r names).1 (m, e)) in
      emit-ok_by rounds done (sorted (keep (is_ready needs names done) names)) r found (λ k.
        emit-ok ranked distinct rounds (done ++ k ∷ [])
          (omega (arith, length-append done (k ∷ []), h)))
