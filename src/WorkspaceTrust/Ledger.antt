-- ===== src/WorkspaceTrust/Ledger.antt =====
-- The records of the ledger before and after step of tools/workspace_trust.py.
use curator_spec.WorkspaceTrust.Outcomes.{step_holds, IsRule}
use curator_spec.Prelude.{
  All, Bool, List, Option, String, [], arith, false, if-holds, if◌then◌else◌, inl, inr, map, refl,
  some, true, ◌&&◌, ◌++◌, ◌||◌, ◌∷◌, ◌≡◌, ◌⊎◌,
}
use curator_spec.WorkspaceTrust.Paths.{Library}
use curator_spec.WorkspaceTrust.Model.{
  Observation, Status, active, revoked, lapsed, is_active, is_lapsed, Identity, Consent, State,
  Action,
}
use curator_spec.WorkspaceTrust.Step.{
  time, is_revoked, bound_to, Outcome, transition, update_where, step_list, step_binding_remove,
  step_remove, resolve_with, outdated, at_path,
}
use curator_spec.WorkspaceTrust.Grant.{Grant, new_record, commit_grant, step}

-- the moves that a status makes
pub data Move : Status → Status → Type 0 where
  revoke : Move active revoked
  lapse : Move active lapsed
  give_up : Move lapsed revoked

-- `r` after a step is `q`: the same, or moved, with its former state at the end of its history
pub record Continues (r q : Consent) : Type 0 where
  pub grant_id : r.grant_id ≡ q.grant_id
  pub environment : r.environment ≡ q.environment
  pub path : r.path ≡ q.path
  pub event : r.event ≡ q.event
  pub reason : r.reason ≡ q.reason
  pub repository : r.repository ≡ q.repository
  pub binding : r.binding ≡ q.binding
  pub moved :
      (q ≡ r)
      ⊎ ((q.state_history ≡ r.state_history ++ r.state ∷ []) × Move r.state.status q.state.status)

-- a record as it is appended
pub record IsNew (q : Consent) : Type 0 where
  pub is_active : q.state.status ≡ active
  pub history : q.state_history ≡ []

-- the first records of `qs` continue those of `rs`, one by one, and the others are new
abbrev pub Extends : List Consent → List Consent → Type 0
Extends [] qs = All IsNew qs
Extends (r ∷ rs) [] = ⊥
Extends (r ∷ rs) (q ∷ qs) = Continues r q × Extends rs qs

Continues-refl : (r : Consent) → Continues r r
Continues-refl r = record {
  grant_id = refl;
  environment = refl;
  path = refl;
  event = refl;
  reason = refl;
  repository = refl;
  binding = refl;
  moved = inl refl;
}

Extends-append : (rs qs : List Consent) → All IsNew qs → Extends rs (rs ++ qs)
Extends-append [] qs h = h
Extends-append (r ∷ rs) qs h = (Continues-refl r, Extends-append rs qs h)

pub Extends-refl : (rs : List Consent) → Extends rs rs
Extends-refl [] = tt
Extends-refl (r ∷ rs) = (Continues-refl r, Extends-refl rs)

-- what a transition does to a status, if it is no return to `active`
Move-of :
    (old new : Status)
    → is_active new ≡ false
    → (is_active old || (is_revoked new && is_lapsed old)) ≡ true
    → Move old new
Move-of active revoked n h = revoke
Move-of active lapsed n h = lapse
Move-of lapsed revoked n h = give_up
Move-of active active n h = ground arith
Move-of revoked active n h = ground arith
Move-of revoked revoked n h = ground arith
Move-of revoked lapsed n h = ground arith
Move-of lapsed active n h = ground arith
Move-of lapsed lapsed n h = ground arith

-- a transition by whether its guard holds
transition_by :
    (b : Bool) (status : Status) (reason : String) (r : Consent)
    → is_active status ≡ false
    → (is_active r.state.status || (is_revoked status && is_lapsed r.state.status)) ≡ b
    → Continues r (
        if b
        then record r {
          state_history = r.state_history ++ r.state ∷ [];
          state = record { status = status; time = time; reason = reason };
        }
        else r)
transition_by true status reason r n h = record {
  grant_id = refl;
  environment = refl;
  path = refl;
  event = refl;
  reason = refl;
  repository = refl;
  binding = refl;
  moved = inr (refl, Move-of r.state.status status n h);
}
transition_by false status reason r n h = Continues-refl r

transition-Continues :
    (status : Status) (reason : String) (r : Consent)
    → is_active status ≡ false
    → Continues r (transition status reason r)
unfolding transition
transition-Continues status reason r n = transition_by _ status reason r n refl

update_where-Extends :
    (test : Consent → Bool) (status : Status) (reason : String) (rs : List Consent)
    → is_active status ≡ false
    → Extends rs (update_where test status reason rs)
unfolding update_where
update_where-Extends test status reason [] n = tt
update_where-Extends test status reason (r ∷ rs) n = (
  if-holds (Continues r) (test r) (transition-Continues status reason r n) (Continues-refl r),
  update_where-Extends test status reason rs n,
)

records-IsNew :
    (g : Grant) (a : Action) (identity : Option Identity) (es : List String)
    → All IsNew (map (new_record g a identity) es)
unfolding new_record
records-IsNew g a identity [] = tt
records-IsNew g a identity (e ∷ es) =
    (record { is_active = refl; history = refl }, records-IsNew g a identity es)

commit_grant-Extends :
    (g : Grant) (s : State) (a : Action) (identity : Option Identity)
    → Extends s.records (commit_grant g s a identity).records
unfolding commit_grant
commit_grant-Extends g s a identity = Extends-append s.records _ (records-IsNew g a identity _)

-- the ledger behind an outcome extends that of the state
abbrev Grows : State → Outcome → Type 0
Grows s out = Extends s.records out.0.records

Grows-if :
    (s : State) (b : Bool) (x y : Outcome) → Grows s x → Grows s y → Grows s (if b then x else y)
Grows-if s true x y hx hy = hx
Grows-if s false x y hx hy = hy

step_binding_remove-Grows : (s : State) (a : Action) → Grows s (step_binding_remove s a)
unfolding step_binding_remove
step_binding_remove-Grows s a = search (
  Extends-refl,
  Grows-if,
  update_where-Extends (bound_to a.binding_id) revoked "binding removed" s.records refl,
)

Grows-IsRule : (lib : Library) (s : State) (a : Action) → IsRule lib s a (Grows s)
unfolding step_list step_remove resolve_with
Grows-IsRule lib s a = record {
  reported = λ d. Extends-refl s.records;
  listed = Extends-refl s.records;
  unbound = step_binding_remove-Grows s a;
  removed = update_where-Extends (at_path a) revoked "operator removed consent" s.records refl;
  resolved = λ identity r e.
      update_where-Extends (outdated a identity) lapsed "repository identity changed" s.records
        refl;
  committed = λ g identity fresh. commit_grant-Extends g s a identity;
}

-- A step of the consent ledger removes, reorders and rewrites nothing: each record stays, as it is
-- or revoked or lapsed from active, or revoked from lapsed, with its former state at the end of its
-- history, and the records that follow are new, active ones without a history.
pub step-Extends :
    (lib : Library) (s s' : State) (a : Action) (o : Observation)
    → step lib s a ≡ some (s', o)
    → Extends s.records s'.records
step-Extends lib s s' a o h = step_holds lib s a (Grows s) (Grows-IsRule lib s a) (s', o) h
