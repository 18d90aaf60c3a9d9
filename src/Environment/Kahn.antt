-- ===== src/Environment/Kahn.antt =====
-- The loop of environment_emitted_order of tools/validate.py, over the names of the contexts and
-- what each of them requires.
use curator_spec.Json.{is_in}
use curator_spec.Prelude.{
  Bool, Elem, List, Result, String, [], all, all-Elem, ap, append-nil, append_assoc, arith, err,
  inl, keep, keep-Elem, length, not, ok, refl, sorted, sorted-Elem, suc, sym, zero, ℕ, ◌&&◌, ◌++◌,
  ◌∙◌, ◌∷◌, ◌≡◌,
}
use mathlib.Core.Path.{transport}
use curator_spec.Cases.{any_eq-Elem, Elem-any_eq}

module _ (needs : String → List String) (names : List String) where
  -- not emitted, and `requires[name] <= set(emitted)`
  abbrev pub is_ready : List String → String → Bool
  is_ready emitted n = not (is_in n emitted) && all (λ q. is_in q emitted) (needs n)

  unfoldable pub ready : List String → List String
  unfolding sorted keep
  ready emitted = sorted (keep (is_ready emitted) names)

  -- `rounds` is the number of contexts that are not emitted
  unfoldable pub emit : ℕ → List String → Result (List String)
  unfolding ready
  emit zero emitted = ok emitted
  emit (suc rounds) emitted = elim (ready emitted) [
    | [] ↦ err "environment lock has a context cycle"
    | n ∷ rest ↦ emit rounds (emitted ++ n ∷ [])
  ]

  -- what is emitted behind `done`: names, each once, behind everything that it requires
  abbrev pub IsOrdered : List String → List String → Type 0
  IsOrdered done [] = Unit
  IsOrdered done (n ∷ rest) =
      Elem n names
      × (Elem n done → ⊥)
      × ((q : String) → Elem q (needs n) → Elem q done)
      × IsOrdered (done ++ n ∷ []) rest

  pub record IsNext (done : List String) (n : String) : Type 0 where
    pub named : Elem n names
    pub fresh : Elem n done → ⊥
    pub served : (q : String) → Elem q (needs n) → Elem q done

  ready-IsNext : (done : List String) (n : String) → Elem n (ready done) → IsNext done n
  unfolding ready
  ready-IsNext done n m =
      let (k, e) =
        (keep-Elem (is_ready done) n names).0 ((sorted-Elem n (keep (is_ready done) names)).0 m) in
      record {
        named = k;
        fresh = λ d. ground (arith, Elem-any_eq n done d);
        served =
            λ q r. any_eq-Elem q done (all-Elem (λ q. is_in q done) q (needs n) (ground arith) r);
      }

  pub record IsEmission (rounds : ℕ) (done es : List String) : Type 0 where
    pub rest : List String
    pub whole : es ≡ done ++ rest
    pub size : length rest ≡ rounds
    pub ordered : IsOrdered done rest

  emit-by :
      (rounds : ℕ) (done es found : List String)
      → ready done ≡ found
      → ((n : String)
          → emit rounds (done ++ n ∷ []) ≡ ok es
          → IsEmission rounds (done ++ n ∷ []) es)
      → elim found [
        | [] ↦ err "environment lock has a context cycle"
        | n ∷ rest ↦ emit rounds (done ++ n ∷ [])
      ]
        ≡ ok es
      → IsEmission (suc rounds) done es
  emit-by rounds done es [] e more h = cc
  emit-by rounds done es (n ∷ others) e more h =
      let m : Elem n (ready done) = transport (λ i. Elem n ((sym e) i)) (inl refl) in
      let next = ready-IsNext done n m in
      let later = more n h in
      record {
        rest = n ∷ later.rest;
        whole = later.whole ∙ append_assoc done (n ∷ []) later.rest;
        size = ap suc later.size;
        ordered = (next.named, next.fresh, next.served, later.ordered);
      }

  pub emit-IsEmission :
      (rounds : ℕ) (done es : List String) → emit rounds done ≡ ok es → IsEmission rounds done es
  unfolding emit
  emit-IsEmission zero done es h = record {
    rest = [];
    whole = let e : done ≡ es = cc in sym e ∙ sym (append-nil done);
    size = refl;
    ordered = tt;
  }
  emit-IsEmission (suc rounds) done es h =
      emit-by rounds done es (ready done) refl (λ n. emit-IsEmission rounds (done ++ n ∷ []) es) h
