-- ===== src/WorkspaceTrust/Step.antt =====
-- `transition`, `observe` and `step` of tools/workspace_trust.py.
use curator_spec.Prelude.{
  sorted, keep, any, Bool, List, Option, String, [], false, if◌then◌else◌, map, none, not, some,
  str_eq, true, ◌&&◌, ◌++◌, ◌||◌, ◌∷◌,
}
use curator_spec.WorkspaceTrust.Model.{
  Status, revoked, lapsed, is_active, is_lapsed, Identity, is_bind_event, Consent, State, Op,
  repair, Action, Observation, reads, same_text, same_identity,
}
use curator_spec.WorkspaceTrust.Admission.{Discovery, found}

abbrev pub time : String
time = "2026-10-18T00:00:00Z"

abbrev pub is_revoked : Status → Bool
is_revoked revoked = true
is_revoked _ = false

-- only what is active changes, and what has lapsed can still be revoked
unfoldable pub transition : Status → String → Consent → Consent
transition status reason r =
    if is_active r.state.status || (is_revoked status && is_lapsed r.state.status)
    then record r {
      state_history = r.state_history ++ r.state ∷ [];
      state = record { status = status; time = time; reason = reason };
    }
    else r

-- the loop `for record in records: if test(record): transition(record, …)`
unfoldable pub update_where : (Consent → Bool) → Status → String → List Consent → List Consent
unfolding transition
update_where test status reason = map (λ r. if test r then transition status reason r else r)

abbrev pub grant_ids : List Consent → List String
grant_ids = map (λ r. r.grant_id)

abbrev pub active_record : Consent → Bool
active_record r = is_active r.state.status

abbrev pub referenced : Consent → Bool
referenced r = is_bind_event r.event && active_record r

unfoldable pub observe : State → Option String → Bool → Option (List String) → Observation
unfolding sorted keep
observe s diagnostic authorized listed = record {
  diagnostic = diagnostic;
  authorized = authorized;
  active = sorted (grant_ids (keep active_record s.records));
  references = sorted (grant_ids (keep referenced s.records));
  installed = sorted s.bindings;
  pending_cleanup = s.pending_cleanup;
  listed = listed;
}

abbrev pub Outcome : Type 0
Outcome = State × Observation

-- the state and what is observed of it
abbrev pub report : State → Option String → Bool → Outcome
report s diagnostic authorized = (s, observe s diagnostic authorized none)

abbrev pub refuse : State → String → Outcome
refuse s diagnostic = report s (some diagnostic) false

abbrev pub environments : List String
environments = "claude_code" ∷ "codex_cli" ∷ "opencode" ∷ "pi" ∷ "muse" ∷ []

-- `action.get('environments', [action.get('environment')])`
abbrev pub wanted : Action → List String
wanted a = elim a.environments [ none ↦ a.environment ∷ [] | some es ↦ es ]

abbrev pub unsupported : List String → Bool
unsupported es =
    elim es [ [] ↦ true | e ∷ rest ↦ false ]
    || any (λ e. not (any (λ k. str_eq e k) environments)) es

abbrev pub no_records : List Consent → Bool
no_records [] = true
no_records (r ∷ rs) = false

-- the ledger is neither read nor absent, or it is absent though there are records
abbrev pub unreadable : State → Action → Bool
unreadable s a =
    (not (reads a.ledger "ok" "ok") && not (reads a.ledger "ok" "absent"))
    || (reads a.ledger "ok" "absent" && not (no_records s.records))

abbrev pub in_scope : Action → Consent → Bool
in_scope a r = str_eq r.environment a.environment

-- the record is of the action's environment and path
unfoldable pub at_path : Action → Consent → Bool
unfolding same_text
at_path a r = in_scope a r && same_text r.path a.path

unfoldable pub step_list : State → Action → Outcome
step_list s a = (s, observe s none false (some (sorted (grant_ids (keep (in_scope a) s.records)))))

abbrev pub bound_to : String → Consent → Bool
bound_to id r = elim r.binding [ none ↦ false | some b ↦ str_eq b.binding_id id ]

unfoldable pub step_binding_remove : State → Action → Outcome
unfolding update_where keep
step_binding_remove s a =
    if not (reads a.commit "ok" "ok")
    then refuse s "workspace_trust_binding_failed"
    else report
        (record s {
          bindings = keep (λ b. not (str_eq b a.binding_id)) s.bindings;
          records = update_where (bound_to a.binding_id) revoked "binding removed" s.records;
        })
        none false

unfoldable pub step_remove : State → Action → Outcome
unfolding update_where at_path
step_remove s a =
    let left = reads a.cleanup "" "unreadable" in
    report
      (record s {
        records = update_where (at_path a) revoked "operator removed consent" s.records;
        pending_cleanup = s.pending_cleanup || left;
      })
      (if left then some "workspace_trust_ledger_unreadable" else none) false

-- the records that a resolution looks at
unfoldable pub candidate : Action → Consent → Bool
unfolding at_path
candidate a r = at_path a r && active_record r

abbrev pub identity_of : Discovery → Option Identity
identity_of (found i) = some i
identity_of _ = none

-- a candidate whose repository is another one
unfoldable pub outdated : Action → Option Identity → Consent → Bool
unfolding candidate same_identity
outdated a identity r = candidate a r && not (same_identity r.repository identity)

abbrev pub is_repair : Op → Bool
is_repair repair = true
is_repair _ = false

unfoldable pub resolve_with : State → Action → Option Identity → Outcome
unfolding update_where outdated keep
resolve_with s a identity =
    let chosen = keep (candidate a) s.records in
    let changed = any (outdated a identity) s.records in
    let after = update_where (outdated a identity) lapsed "repository identity changed" in
    let valid = any active_record (after chosen) in
    report
      (record s {
        records = after s.records;
        pending_cleanup =
            if is_repair a.op && reads a.cleanup "" "ok" then false else s.pending_cleanup;
      })
      (if valid
        then none
        else if changed
        then some "workspace_trust_repository_changed"
        else some "workspace_untrusted")
      valid
