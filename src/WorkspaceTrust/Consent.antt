-- ===== src/WorkspaceTrust/Consent.antt =====
-- The consents that a resolution of tools/workspace_trust.py relies on.
use curator_spec.WorkspaceTrust.Grant.{step}
use curator_spec.Prelude.{
  Elem, Elem-map, Elem-of_map, Option, String, any-Elem, ap, arith, false, if◌then◌else◌, keep,
  keep-Elem, map, refl, some, str_eq, sym, true, ◌∙◌, ◌≡◌,
}
use mathlib.Core.Path.{transport}
use curator_spec.WorkspaceTrust.Paths.{Library}
use curator_spec.WorkspaceTrust.Model.{
  lapsed, Identity, Consent, State, Action, Observation, same_identity, same_text, is_active,
}
use curator_spec.WorkspaceTrust.Admission.{discover}
use curator_spec.WorkspaceTrust.Step.{
  Outcome, transition, update_where, resolve_with, outdated, candidate, at_path, active_record,
  observe, step_list, step_binding_remove, step_remove,
}
use curator_spec.WorkspaceTrust.Outcomes.{IsRule, step_holds, resolves, discovery_of}

-- a record that this path and environment can rely on
pub record IsConsent (a : Action) (identity : Option Identity) (r : Consent) : Type 0 where
  pub environment : str_eq r.environment a.environment ≡ true
  pub path : same_text r.path a.path ≡ true
  pub is_active : is_active r.state.status ≡ true
  pub repository : same_identity r.repository identity ≡ true

-- a candidate that is active behind the resolution was not outdated
stays :
    (a : Action) (identity : Option Identity) (reason : String) (r : Consent)
    → candidate a r ≡ true
    → active_record (if outdated a identity r then transition lapsed reason r else r) ≡ true
    → IsConsent a identity r × (outdated a identity r ≡ false)
unfolding candidate at_path outdated transition
stays a identity reason r c h = (
  record {
    environment = ground arith;
    path = ground arith;
    is_active = ground arith;
    repository = ground arith;
  },
  ground arith,
)

-- what an authorized outcome rests on
pub record IsConsented (lib : Library) (s : State) (a : Action) (s' : State) : Type 0 where
  pub op : resolves a.op ≡ true
  pub identity : Option Identity
  pub discovered : discover lib a.repository ≡ discovery_of identity
  pub consent : Consent
  pub relied_on : IsConsent a identity consent
  pub before : Elem consent s.records
  pub after : Elem consent s'.records

abbrev Consents : Library → State → Action → Outcome → Type 0
Consents lib s a out = out.1.authorized ≡ true → IsConsented lib s a out.0

resolve_with-Consents :
    (lib : Library) (s : State) (a : Action) (identity : Option Identity)
    → resolves a.op ≡ true
    → discover lib a.repository ≡ discovery_of identity
    → Consents lib s a (resolve_with s a identity)
unfolding resolve_with update_where observe
resolve_with-Consents lib s a identity op d h =
    let f : Consent → Consent =
      λ r. if outdated a identity r then transition lapsed "repository identity changed" r else r in
    let (q, m, e) = any-Elem active_record _ h in
    let (r, k, e') = Elem-of_map f q (keep (candidate a) s.records) m in
    let (b, c) = (keep-Elem (candidate a) r s.records).0 k in
    let (i, u) =
      stays a identity "repository identity changed" r c (sym (ap active_record e') ∙ e) in
    record {
      op = op;
      identity = identity;
      discovered = d;
      consent = r;
      relied_on = i;
      before = b;
      after = transport (λ j. Elem (fixed r u j) (map f s.records)) (Elem-map f r s.records b);
    }
  where
    fixed :
        (r : Consent)
        → outdated a identity r ≡ false
        → (if outdated a identity r then transition lapsed "repository identity changed" r else r)
          ≡ r
    fixed r u = rw u refl

step_binding_remove-Consents :
    (lib : Library) (s : State) (a : Action) → Consents lib s a (step_binding_remove s a)
unfolding step_binding_remove observe
step_binding_remove-Consents lib s a h = ground arith

Consents-IsRule : (lib : Library) (s : State) (a : Action) → IsRule lib s a (Consents lib s a)
unfolding step_list step_remove observe
Consents-IsRule lib s a = record {
  reported = λ d h. absurd (ground arith);
  listed = λ h. absurd (ground arith);
  unbound = step_binding_remove-Consents lib s a;
  removed = λ h. absurd (ground arith);
  resolved = λ identity r e. resolve_with-Consents lib s a identity r e;
  committed = λ g identity fresh h. absurd (ground arith);
}

-- If a step reports an authorized workspace, the operation is a resolution, a repair or an update,
-- the repository was discovered without an error, and a record that the ledger had before the step
-- and still has is active, of the action's environment and path, and of the discovered identity.
pub authorized-IsConsented :
    (lib : Library) (s s' : State) (a : Action) (o : Observation)
    → step lib s a ≡ some (s', o)
    → o.authorized ≡ true
    → IsConsented lib s a s'
authorized-IsConsented lib s s' a o h =
    step_holds lib s a (Consents lib s a) (Consents-IsRule lib s a) (s', o) h
