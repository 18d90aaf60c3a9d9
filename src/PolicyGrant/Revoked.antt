-- ===== src/PolicyGrant/Revoked.antt =====
-- The ledger and the journal after a revocation of tools/workspace_policy_grant.py.
use curator_spec.Json.{Value}
use curator_spec.Json.Names.{str_eq_iff, str_ne}
use curator_spec.Prelude.{
  Bool-cases, List, String, [], ap, arith, false, inl, inr, keep, map, refl, str_eq, true, ◌++◌,
  ◌∙◌, ◌∷◌, ◌≡◌, ◌≢◌,
}
use curator_spec.PolicyGrant.Cleaned.{IsCleaned, clean_key-IsCleaned}
use curator_spec.PolicyGrant.Revoke.{
  revocation, active, revoke, clean_key, affected, Status, Grant, Key, is_revoked, is_of,
  revoke_grant, clean,
}

-- a state in which a revoked grant stays
abbrev IsFinal : Status → Type 0
IsFinal new = str_eq new.status "revoked" ≡ true

revoke_grant-Final :
    (entry_id : String) (new : Status) (g : Grant)
    → IsFinal new
    → is_of entry_id g ≡ true
    → is_revoked (revoke_grant entry_id new g) ≡ true
revoke_grant-Final entry_id new g f h = ground arith

revoke_grant-Entry :
    (entry_id : String) (new : Status) (g : Grant)
    → is_of entry_id (revoke_grant entry_id new g) ≡ is_of entry_id g
revoke_grant-Entry entry_id new g = ground arith

revoke_grant-Other :
    (entry_id : String) (new : Status) (g : Grant)
    → is_of entry_id g ≡ false
    → revoke_grant entry_id new g ≡ g
revoke_grant-Other entry_id new g h = ground arith

revoke_grant-Done :
    (entry_id : String) (new : Status) (g : Grant)
    → is_revoked g ≡ true
    → revoke_grant entry_id new g ≡ g
revoke_grant-Done entry_id new g h = ground arith

clean-clean : (key : Key) → clean (clean key) ≡ clean key
clean-clean key = ground arith

module _ {A : Type 0} where
  map-map_same :
      (f g : A → A) (xs : List A) → ((x : A) → f (g x) ≡ g x) → map f (map g xs) ≡ map g xs
  map-map_same f g [] h = refl
  map-map_same f g (x ∷ xs) h =
      ap (λ y. y ∷ map f (map g xs)) (h x) ∙ ap (λ ys. g x ∷ ys) (map-map_same f g xs h)

revoke_grant-Twice :
    (entry_id : String) (first second : Status) (g : Grant)
    → IsFinal first
    → revoke_grant entry_id second (revoke_grant entry_id first g) ≡ revoke_grant entry_id first g
revoke_grant-Twice entry_id first second g f = elim (Bool-cases (is_of entry_id g)) [
  | inl e ↦
      revoke_grant-Done entry_id second (revoke_grant entry_id first g)
        (revoke_grant-Final entry_id first g f e)
  | inr e ↦
      revoke_grant-Other entry_id second (revoke_grant entry_id first g)
        (revoke_grant-Entry entry_id first g ∙ e)
]

revoke_grant-Id :
    (entry_id : String) (new : Status) (g : Grant)
    → (revoke_grant entry_id new g).grant_id ≡ g.grant_id
revoke_grant-Id entry_id new g = ground arith

affected-Revoked :
    (entry_id : String) (new : Status) (grants : List Grant)
    → affected entry_id (map (revoke_grant entry_id new) grants) ≡ affected entry_id grants
unfolding keep
affected-Revoked entry_id new [] = refl
affected-Revoked entry_id new (g ∷ grants) = grind (
  arith,
  affected-Revoked entry_id new grants,
  revoke_grant-Id entry_id new g,
  revoke_grant-Entry entry_id new g,
)

clean_key-Twice :
    (gone running : List String) (key : Key)
    → clean_key gone running (clean_key gone running key) ≡ clean_key gone running key
clean_key-Twice gone running key = ground (arith, clean-clean key)

-- Revoking an entry again changes nothing, whoever does it, at whatever time and for whatever
-- reason: neither the states and their history nor a key of the journal.
pub revoke-Twice :
    (grants : List Grant) (journal : List Key) (entry_id : String)
    (issuer time reason issuer' time' reason' : Value)
    → (let (grants', journal') = revoke grants journal entry_id issuer time reason in
        revoke grants' journal' entry_id issuer' time' reason')
      ≡ revoke grants journal entry_id issuer time reason
unfolding revoke
revoke-Twice grants journal entry_id issuer time reason issuer' time' reason' =
    let first = revocation issuer time reason in
    let second = revocation issuer' time' reason' in
    let changed = map (revoke_grant entry_id first) grants in
    let kept : map (revoke_grant entry_id second) changed ≡ changed =
      map-map_same (revoke_grant entry_id second) (revoke_grant entry_id first) grants
        (λ g. revoke_grant-Twice entry_id first second g refl) in
    let keys = map (clean_key (affected entry_id grants) (active changed)) journal in
    ap (λ r. (r, map (clean_key (affected entry_id changed) (active r)) keys)) kept
    ∙ ap (λ ids. (changed, map (clean_key ids (active changed)) keys))
        (affected-Revoked entry_id first grants)
    ∙ ap (λ ks. (changed, ks))
        (map-map_same _ _ journal (clean_key-Twice (affected entry_id grants) (active changed)))

module _ {A : Type 0} (R : A → A → Type 0) where
  -- two lists of one length, whose elements are related position by position
  abbrev pub Pairwise : List A → List A → Type 0
  Pairwise [] [] = Unit
  Pairwise (x ∷ xs) (y ∷ ys) = R x y × Pairwise xs ys
  Pairwise _ _ = ⊥

  Pairwise-map : (f : A → A) (xs : List A) → ((x : A) → R x (f x)) → Pairwise xs (map f xs)
  Pairwise-map f [] h = tt
  Pairwise-map f (x ∷ xs) h = (h x, Pairwise-map f xs h)

-- What becomes of a grant `g`: one of another entry, or one that is revoked, stays. Any other is
-- revoked, and its state so far ends its history.
pub record IsRevoked (entry_id : String) (issuer time reason : Value) (g g' : Grant) : Type 0 where
  pub other : g.entry_id ≢ entry_id → g' ≡ g
  pub done : g.state.status ≡ "revoked" → g' ≡ g
  pub ended :
      g.entry_id ≡ entry_id
      → g.state.status ≢ "revoked"
      → g' ≡ record g {
        state = record { status = "revoked"; time = time; reason = reason; by = issuer };
        state_history = g.state_history ++ g.state ∷ [];
      }

revoke_grant-IsRevoked :
    (entry_id : String) (issuer time reason : Value) (g : Grant)
    → IsRevoked entry_id issuer time reason g
        (revoke_grant entry_id (revocation issuer time reason) g)
revoke_grant-IsRevoked entry_id issuer time reason g = record {
  other = λ n.
      revoke_grant-Other entry_id (revocation issuer time reason) g (str_ne g.entry_id entry_id n);
  done = λ e.
      revoke_grant-Done entry_id (revocation issuer time reason) g
        ((str_eq_iff g.state.status "revoked").1 e);
  ended = λ e n.
      let p = (str_eq_iff g.entry_id entry_id).1 e in
      let q = str_ne g.state.status "revoked" n in ground (arith, p, q);
}

-- What a revocation does to the ledger and to the journal, record by record.
pub record IsRevocation (entry_id : String) (issuer time reason : Value) (grants : List Grant)
    (journal : List Key) (grants' : List Grant) (journal' : List Key) : Type 0 where
  pub ledger : Pairwise (IsRevoked entry_id issuer time reason) grants grants'
  pub keys : Pairwise (IsCleaned entry_id grants grants') journal journal'

-- A revocation keeps the ledger and the journal in place, record by record. A grant of another entry
-- and one that is revoked stay as they are; any other grant of the entry becomes revoked, with the
-- given time, reason and issuer, and its state so far is put at the end of its history. A key that
-- was set for no grant of the entry, or for a grant that is active after the revocation, stays as it
-- is; any other is no longer present, if it is unchanged and readable, and waits for its removal
-- otherwise.
pub revoke-IsRevocation :
    (grants : List Grant) (journal : List Key) (entry_id : String) (issuer time reason : Value)
    → let (grants', journal') = revoke grants journal entry_id issuer time reason in
      IsRevocation entry_id issuer time reason grants journal grants' journal'
unfolding revoke
revoke-IsRevocation grants journal entry_id issuer time reason =
    let changed = map (revoke_grant entry_id (revocation issuer time reason)) grants in
    record {
      ledger =
          Pairwise-map (IsRevoked entry_id issuer time reason) _ grants
            (revoke_grant-IsRevoked entry_id issuer time reason);
      keys =
          Pairwise-map (IsCleaned entry_id grants changed) _ journal
            (clean_key-IsCleaned entry_id grants changed);
    }
