-- ===== src/WorkspaceTrust/Outcomes.antt =====
-- The outcomes of a step: a refusal, or what one of the operations makes.
use mathlib.Core.Path.{transport}
use curator_spec.Prelude.{
  Bool, Option, String, any, ap, false, if◌then◌else◌, none, refl, some, str_eq, true, ◌≡◌,
}
use curator_spec.WorkspaceTrust.Paths.{Library}
use curator_spec.WorkspaceTrust.Model.{
  Identity, State, Op, list, binding_remove, remove, resolve, repair, update, add, launch, bind,
  other, Action,
}
use curator_spec.WorkspaceTrust.Admission.{Discovery, no_repository, found, unverifiable, discover}
use curator_spec.WorkspaceTrust.Step.{
  Outcome, report, observe, step_list, step_binding_remove, step_remove, resolve_with,
}
use curator_spec.WorkspaceTrust.Grant.{
  transaction_of, Grant, explicit, implicit, bound, commit_grant, record_grant, grant_found,
  bind_error, step_grant, resolve_found, step_resolve, or_refuse, or_raise, admitted, dispatch,
  step,
}

abbrev pub resolves : Op → Bool
resolves resolve = true
resolves repair = true
resolves update = true
resolves _ = false

-- the discovery that finds this repository, or none
abbrev pub discovery_of : Option Identity → Discovery
discovery_of none = no_repository
discovery_of (some i) = found i

-- `P` holds of the outcome, if there is one.
abbrev pub Holds : (Outcome → Type 0) → Option Outcome → Type 0
Holds P none = Unit
Holds P (some out) = P out

Holds-if :
    (P : Outcome → Type 0) (b : Bool) (x y : Option Outcome)
    → Holds P x
    → Holds P y
    → Holds P (if b then x else y)
Holds-if P true x y hx hy = hx
Holds-if P false x y hx hy = hy

-- What a property of outcomes must hold of, to hold of every step.
pub record IsRule (lib : Library) (s : State) (a : Action) (P : Outcome → Type 0) : Type 0 where
  pub reported : (d : Option String) → P (report s d false)
  pub listed : P (step_list s a)
  pub unbound : P (step_binding_remove s a)
  pub removed : P (step_remove s a)
  pub resolved :
      (identity : Option Identity)
      → resolves a.op ≡ true
      → discover lib a.repository ≡ discovery_of identity
      → P (resolve_with s a identity)
  pub committed :
      (g : Grant) (identity : Option Identity)
      → any (λ t. str_eq t (transaction_of g a)) s.transactions ≡ false
      → P (report (commit_grant g s a identity) none false)

module _ (lib : Library) (s : State) (a : Action) (P : Outcome → Type 0)
    (rule : IsRule lib s a P) where
  refused : (d : Option String) → P (s, observe s d false none)
  refused = rule.reported

  committed :
      (g : Grant) (identity : Option Identity)
      → any (λ t. str_eq t (transaction_of g a)) s.transactions ≡ false
      → P (report (commit_grant g s a identity) none false)
  committed = rule.committed

  kept_if :
      (b : Bool) (x y : Outcome) → (b ≡ true → P x) → (b ≡ false → P y) → P (if b then x else y)
  kept_if true x y hx hy = hx refl
  kept_if false x y hx hy = hy refl

  record_grant-by : (g : Grant) (identity : Option Identity) → P (record_grant g s a identity)
  unfolding record_grant
  record_grant-by g identity = search (refused, committed, kept_if)

  grant_found-by : (g : Grant) (d : Discovery) → P (grant_found lib g s a d)
  unfolding grant_found
  grant_found-by g unverifiable = refused _
  grant_found-by g no_repository = search (refused, kept_if, record_grant-by)
  grant_found-by g (found i) = search (refused, kept_if, record_grant-by)

  or_refuse-by : (d : Option String) (next : Outcome) → P next → P (or_refuse s d next)
  unfolding or_refuse
  or_refuse-by none next h = h
  or_refuse-by (some d) next h = refused _

  step_grant-by : (g : Grant) → P (step_grant lib g s a)
  unfolding step_grant
  step_grant-by explicit = grant_found-by explicit _
  step_grant-by implicit = search (refused, kept_if, grant_found-by)
  step_grant-by bound = or_refuse-by (bind_error lib a.repository a) _ (grant_found-by bound _)

  resolve_found-by :
      (d : Discovery)
      → resolves a.op ≡ true
      → discover lib a.repository ≡ d
      → P (resolve_found s a d)
  unfolding resolve_found
  resolve_found-by unverifiable r e = refused _
  resolve_found-by no_repository r e = rule.resolved none r e
  resolve_found-by (found i) r e = rule.resolved (some i) r e

  step_resolve-by : resolves a.op ≡ true → P (step_resolve lib s a)
  unfolding step_resolve
  step_resolve-by r = resolve_found-by _ r refl

  or_raise-by :
      (d : Option String) (next : Option Outcome) → Holds P next → Holds P (or_raise s d next)
  unfolding or_raise
  or_raise-by none next h = h
  or_raise-by (some d) next h = refused _

  admitted-by :
      (removing source : Bool) (next : Option Outcome)
      → Holds P next
      → Holds P (admitted lib removing source s a next)
  unfolding admitted
  admitted-by removing source next h = or_raise-by _ next h

  dispatch-by : (op : Op) → a.op ≡ op → Holds P (dispatch lib op s a)
  unfolding dispatch
  dispatch-by list e = rule.listed
  dispatch-by binding_remove e = rule.unbound
  dispatch-by remove e = admitted-by true false _ rule.removed
  dispatch-by resolve e = admitted-by false false _ (step_resolve-by (ap resolves e))
  dispatch-by repair e = admitted-by false false _ (step_resolve-by (ap resolves e))
  dispatch-by update e = admitted-by false false _ (step_resolve-by (ap resolves e))
  dispatch-by add e = admitted-by false false _ (step_grant-by explicit)
  dispatch-by launch e = admitted-by false false _ (step_grant-by implicit)
  dispatch-by bind e = admitted-by false true _ (step_grant-by bound)
  dispatch-by other e = admitted-by false false none tt

  step-by : Holds P (step lib s a)
  unfolding step
  step-by = let rest = dispatch-by a.op refl in search (refused, Holds-if, rest)

  -- What holds of every outcome by the rule holds of the one that a step returns.
  pub step_holds : (out : Outcome) → step lib s a ≡ some out → P out
  step_holds out h = transport (λ i. Holds P (h i)) step-by
