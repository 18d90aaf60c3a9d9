-- ===== src/WorkspaceTrust/Replay.antt =====
-- The transactions and the consents that step of tools/workspace_trust.py records.
use curator_spec.Prelude.{
  unique, sorted, Bool, List, Option, [], any, arith, false, if◌then◌else◌, inl, inr, length, map,
  not, refl, some, str_eq, true, ◌++◌, ◌∷◌, ◌≡◌, ◌⊎◌,
}
use curator_spec.WorkspaceTrust.Paths.{Library}
use curator_spec.WorkspaceTrust.Model.{reads, Identity, Consent, State, Action, Observation}
use curator_spec.WorkspaceTrust.Step.{
  Outcome, update_where, step_list, step_binding_remove, step_remove, resolve_with, wanted,
}
use curator_spec.WorkspaceTrust.Grant.{Grant, new_record, commit_grant, transaction_of, step}
use curator_spec.WorkspaceTrust.Outcomes.{IsRule, step_holds}

-- no transaction is recorded, and no consent is added
pub record IsQuiet (s s' : State) : Type 0 where
  pub transactions : s'.transactions ≡ s.transactions
  pub count : length s'.records ≡ length s.records

-- a transaction that was not recorded is, with a consent for each environment
pub record IsRecorded (s s' : State) (a : Action) : Type 0 where
  pub grant : Grant
  pub identity : Option Identity
  pub fresh : any (λ t. str_eq t (transaction_of grant a)) s.transactions ≡ false
  pub transactions : s'.transactions ≡ s.transactions ++ transaction_of grant a ∷ []
  pub records :
      s'.records ≡ s.records ++ map (new_record grant a identity) (sorted (unique (wanted a)))

abbrev Once : State → Action → Outcome → Type 0
Once s a out = IsQuiet s out.0 ⊎ IsRecorded s out.0 a

length-map : (f : Consent → Consent) (rs : List Consent) → length (map f rs) ≡ length rs
length-map f [] = refl
length-map f (r ∷ rs) = omega (arith, length-map f rs)

quiet : (s : State) → IsQuiet s s
quiet s = record { transactions = refl; count = refl }

Once-if :
    (s : State) (a : Action) (b : Bool) (x y : Outcome)
    → Once s a x
    → Once s a y
    → Once s a (if b then x else y)
Once-if s a true x y hx hy = hx
Once-if s a false x y hx hy = hy

step_binding_remove-Once : (s : State) (a : Action) → Once s a (step_binding_remove s a)
unfolding step_binding_remove update_where
step_binding_remove-Once s a =
    Once-if s a (not (reads a.commit "ok" "ok")) _ _ (inl (quiet s))
      (inl (record { transactions = refl; count = length-map _ s.records }))

Once-IsRule : (lib : Library) (s : State) (a : Action) → IsRule lib s a (Once s a)
unfolding step_list step_remove resolve_with update_where commit_grant
Once-IsRule lib s a = record {
  reported = λ d. inl (quiet s);
  listed = inl (quiet s);
  unbound = step_binding_remove-Once s a;
  removed = inl (record { transactions = refl; count = length-map _ s.records });
  resolved = λ identity r e. inl (record { transactions = refl; count = length-map _ s.records });
  committed = λ g identity fresh. inr (record {
    grant = g;
    identity = identity;
    fresh = fresh;
    transactions = refl;
    records = refl;
  });
}

-- A step either records no transaction and adds no consent, or it records one transaction that was
-- not recorded before and appends one consent for each environment of the action.
pub step-Once :
    (lib : Library) (s s' : State) (a : Action) (o : Observation)
    → step lib s a ≡ some (s', o)
    → IsQuiet s s' ⊎ IsRecorded s s' a
step-Once lib s s' a o h = step_holds lib s a (Once s a) (Once-IsRule lib s a) (s', o) h
