-- ===== src/PolicyGrant/Cleaned.antt =====
-- What a revocation of tools/workspace_policy_grant.py does to a key of the journal.
use curator_spec.Prelude.{
  Bool, Bool-cases, Elem, Elem-any, Elem-map, Elem-of_map, List, String, any-Elem, ap, arith, false,
  inl, inr, keep, keep-Elem, map, sym, true, ◌↔◌, ◌∙◌, ◌≡◌, ◌⊎◌,
}
use curator_spec.Json.{is_in}
use curator_spec.Json.Names.{str_eq_iff, is_in_iff}
use curator_spec.PolicyGrant.Revoke.{
  Grant, Key, is_active, active, is_of, affected, meets, clean, clean_key,
}

-- whether a key was set for a grant that passes a test
meets_iff :
    (test : Grant → Bool) (grants : List Grant) (key : Key)
    → (meets (map Grant.grant_id (keep test grants)) key ≡ true)
      ↔ ((g : Grant) × Elem g grants × (test g ≡ true) × Elem g.grant_id key.grant_ids)
meets_iff test grants key = (
  λ h.
      let (i, m, e) = any-Elem (λ i. is_in i key.grant_ids) _ h in
      let (g, n, p) = Elem-of_map Grant.grant_id i (keep test grants) m in
      let (k, t) = (keep-Elem test g grants).0 n in
      (
        g,
        k,
        t,
        (is_in_iff g.grant_id key.grant_ids).0 (ap (λ x. is_in x key.grant_ids) (sym p) ∙ e),
      ),
  λ (g, k, t, m).
      Elem-any (λ i. is_in i key.grant_ids) g.grant_id _
        (Elem-map Grant.grant_id g (keep test grants) ((keep-Elem test g grants).1 (k, t)))
        ((is_in_iff g.grant_id key.grant_ids).1 m),
)

-- A grant of the entry that a key was set for.
abbrev pub SetFor : String → List Grant → Key → Type 0
SetFor entry_id grants key =
    (g : Grant) × Elem g grants × (g.entry_id ≡ entry_id) × Elem g.grant_id key.grant_ids

-- An active grant that a key was set for.
abbrev pub NeededBy : List Grant → Key → Type 0
NeededBy grants key =
    (g : Grant) × Elem g grants × (g.state.status ≡ "active") × Elem g.grant_id key.grant_ids

-- What becomes of a key `k`: one that was set for no grant of the entry, or that an active grant
-- needs, stays. Any other is removed, if it is unchanged and readable, and waits for its removal
-- otherwise.
pub record IsCleaned (entry_id : String) (grants grants' : List Grant) (k k' : Key) : Type 0 where
  pub unrelated : ¬ SetFor entry_id grants k → k' ≡ k
  pub needed : NeededBy grants' k → k' ≡ k
  pub removed :
      SetFor entry_id grants k
      → ¬ NeededBy grants' k
      → k.owned_unchanged ≡ true
      → k.readable ≡ true
      → k' ≡ record k { present = false; pending_cleanup = false }
  pub waits :
      SetFor entry_id grants k
      → ¬ NeededBy grants' k
      → (k.owned_unchanged ≡ false) ⊎ (k.readable ≡ false)
      → k' ≡ record k { pending_cleanup = true }

module _ (entry_id : String) (grants grants' : List Grant) (k : Key) where
  is_set : SetFor entry_id grants k → meets (affected entry_id grants) k ≡ true
  is_set (g, m, e, i) =
      (meets_iff (is_of entry_id) grants k).1 (g, m, (str_eq_iff g.entry_id entry_id).1 e, i)

  is_unset : ¬ SetFor entry_id grants k → meets (affected entry_id grants) k ≡ false
  is_unset n = elim (Bool-cases (meets (affected entry_id grants) k)) [
    | inr f ↦ f
    | inl h ↦
        let (g, m, e, i) = (meets_iff (is_of entry_id) grants k).0 h in
        absurd (n (g, m, (str_eq_iff g.entry_id entry_id).0 e, i))
  ]

  is_wanted : NeededBy grants' k → meets (active grants') k ≡ true
  is_wanted (g, m, e, i) =
      (meets_iff is_active grants' k).1 (g, m, (str_eq_iff g.state.status "active").1 e, i)

  is_unwanted : ¬ NeededBy grants' k → meets (active grants') k ≡ false
  is_unwanted n = elim (Bool-cases (meets (active grants') k)) [
    | inr f ↦ f
    | inl h ↦
        let (g, m, e, i) = (meets_iff is_active grants' k).0 h in
        absurd (n (g, m, (str_eq_iff g.state.status "active").0 e, i))
  ]

clean_key-by :
    (gone running : List String) (k : Key)
    → (meets gone k ≡ false → clean_key gone running k ≡ k)
      × (meets running k ≡ true → clean_key gone running k ≡ k)
      × (meets gone k ≡ true → meets running k ≡ false → clean_key gone running k ≡ clean k)
clean_key-by gone running k = (λ h. ground arith, λ h. ground arith, λ h n. ground arith)

clean_readable :
    (k : Key)
    → k.owned_unchanged ≡ true
    → k.readable ≡ true
    → clean k ≡ record k { present = false; pending_cleanup = false }
clean_readable k h n = ground arith

clean_waits :
    (k : Key)
    → (k.owned_unchanged ≡ false) ⊎ (k.readable ≡ false)
    → clean k ≡ record k { pending_cleanup = true }
clean_waits k (inl h) = ground arith
clean_waits k (inr h) = ground arith

pub clean_key-IsCleaned :
    (entry_id : String) (grants grants' : List Grant) (k : Key)
    → IsCleaned entry_id grants grants' k (clean_key (affected entry_id grants) (active grants') k)
clean_key-IsCleaned entry_id grants grants' k =
    let (free, kept, cleaned) = clean_key-by (affected entry_id grants) (active grants') k in
    record {
      unrelated = λ n. free (is_unset entry_id grants grants' k n);
      needed = λ m. kept (is_wanted entry_id grants grants' k m);
      removed = λ s n a b.
          cleaned (is_set entry_id grants grants' k s) (is_unwanted entry_id grants grants' k n)
          ∙ clean_readable k a b;
      waits = λ s n b.
          cleaned (is_set entry_id grants grants' k s) (is_unwanted entry_id grants grants' k n)
          ∙ clean_waits k b;
    }
