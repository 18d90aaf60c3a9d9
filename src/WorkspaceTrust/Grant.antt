-- ===== src/WorkspaceTrust/Grant.antt =====
-- The rest of `step` of tools/workspace_trust.py: the operations that record consent, and the
-- dispatch.
use curator_spec.Prelude.{
  unique, sorted, Bool, Option, String, [], any, false, if◌then◌else◌, map, none, not, some, str_eq,
  true, ◌&&◌, ◌++◌, ◌∷◌,
}
use Prim.Native.String.{◌++◌ as join_strings}
use curator_spec.Text.{Text, codes, is_empty}
use curator_spec.Text.Space.{strip}
use curator_spec.WorkspaceTrust.Paths.{Library, within}
use curator_spec.WorkspaceTrust.Model.{
  reads, active, Identity, Binding, Event, explicit_grant, implicit_launch, implicit_bind, Consent,
  State, Op, list, binding_remove, remove, resolve, repair, update, add, launch, bind, other, Facts,
  Action,
}
use curator_spec.WorkspaceTrust.Admission.{
  Discovery, no_repository, found, unverifiable, discover, Target, admit,
}
use curator_spec.WorkspaceTrust.Step.{
  time, Outcome, report, refuse, wanted, unsupported, unreadable, step_list, step_binding_remove,
  step_remove, resolve_with,
}

-- what the three operations differ in
pub data Grant : Type 0 where
  explicit implicit bound : Grant

abbrev pub is_bound : Grant → Bool
is_bound bound = true
is_bound _ = false

abbrev event_of : Grant → Event
event_of explicit = explicit_grant
event_of implicit = implicit_launch
event_of bound = implicit_bind

abbrev op_text : Grant → String
op_text explicit = "add"
op_text implicit = "launch"
op_text bound = "bind"

abbrev pub transaction_of : Grant → Action → String
transaction_of bound a = a.binding_id
transaction_of _ a = a.grant_id

abbrev pub checked_path : Grant → Action → Option Text
checked_path bound a = a.source_path
checked_path _ a = a.path

-- `f"{binding_id}:{env}"` for a binding
grant_name : Grant → Action → String → String
grant_name bound a env = join_strings a.binding_id (join_strings ":" env)
grant_name _ a env = a.grant_id

granted_path : Grant → Action → Option Identity → Option Text
granted_path bound a (some i) = some i.root
granted_path bound a none = a.path
granted_path _ a identity = a.path

granted_binding : Grant → Action → Option Binding
granted_binding bound a = some (record {
  binding_id = a.binding_id;
  profile = a.profile;
  trigger = a.trigger;
  source_path = a.source_path;
})
granted_binding _ a = none

-- the record of one environment
unfoldable pub new_record : Grant → Action → Option Identity → String → Consent
unfolding grant_name granted_path granted_binding
new_record g a identity env = record {
  grant_id = grant_name g a env;
  environment = env;
  path = granted_path g a identity;
  event = event_of g;
  reason = elim a.reason [ none ↦ join_strings (op_text g) " action" | some text ↦ text ];
  repository = identity;
  binding = granted_binding g a;
  state = record { status = active; time = time; reason = "consent recorded" };
  state_history = [];
}

-- a transaction that is not committed yet
unfoldable pub commit_grant : Grant → State → Action → Option Identity → State
unfolding new_record sorted unique
commit_grant g s a identity = record s {
  transactions = s.transactions ++ transaction_of g a ∷ [];
  bindings = if is_bound g then s.bindings ++ a.binding_id ∷ [] else s.bindings;
  records = s.records ++ map (new_record g a identity) (sorted (unique (wanted a)));
}

-- `not action.get('reason', '').strip()`
abbrev pub blank : Option String → Bool
blank none = true
blank (some text) = is_empty (strip (codes text))

abbrev pub is_explicit : Grant → Bool
is_explicit explicit = true
is_explicit _ = false

-- from the reason and the commit on
unfoldable pub record_grant : Grant → State → Action → Option Identity → Outcome
unfolding commit_grant
record_grant g s a identity =
    if is_explicit g && blank a.reason
    then refuse s "workspace_trust_path_invalid"
    else if not (reads a.commit "ok" "ok")
    then refuse s "workspace_trust_binding_failed"
    else if any (λ t. str_eq t (transaction_of g a)) s.transactions
    then report s none false
    else report (commit_grant g s a identity) none false

-- `if error: return state, observe(state, error)`, before what follows
unfoldable pub or_refuse : State → Option String → Outcome → Outcome
or_refuse s none next = next
or_refuse s (some d) next = refuse s d

-- the same, where what follows can raise
unfoldable pub or_raise : State → Option String → Option Outcome → Option Outcome
or_raise s none next = next
or_raise s (some d) next = some (refuse s d)

unfoldable pub resolve_found : State → Action → Discovery → Outcome
unfolding resolve_with
resolve_found s a unverifiable = refuse s "workspace_trust_repository_unverifiable"
resolve_found s a no_repository = resolve_with s a none
resolve_found s a (found i) = resolve_with s a (some i)

module _ (lib : Library) where
  -- `within(checked, identity['root'])`
  unfoldable pub inside : Option Text → Identity → Bool
  unfolding within
  inside none i = false
  inside (some p) i = within lib p i.root

  -- from the discovered identity on
  unfoldable pub grant_found : Grant → State → Action → Discovery → Outcome
  unfolding inside record_grant
  grant_found g s a unverifiable = refuse s "workspace_trust_repository_unverifiable"
  grant_found g s a no_repository =
      if is_bound g then refuse s "workspace_trust_repository_required" else record_grant g s a none
  grant_found g s a (found i) =
      if not (inside (checked_path g a) i)
      then refuse s "workspace_trust_repository_unverifiable"
      else record_grant g s a (some i)

  -- a bind grants the repository's directory, which is admitted before anything is discovered
  bind_target : Facts → Action → Target
  bind_target facts a = record {
    path = facts.root;
    home = a.home;
    components = elim facts.components [ none ↦ a.components | some cs ↦ cs ];
    path_read = facts.path_read;
    kind = facts.kind;
  }

  unfoldable pub bind_error : Option Facts → Action → Option String
  unfolding bind_target admit
  bind_error none a = none
  bind_error (some facts) a = elim facts.root [
    | none ↦ some "workspace_trust_repository_unverifiable"
    | some r ↦ admit lib false false (bind_target facts a)
  ]

  unfoldable pub step_grant : Grant → State → Action → Outcome
  unfolding grant_found bind_error discover or_refuse
  step_grant implicit s a =
      if not a.selection_ok
      then refuse s "workspace_trust_binding_failed"
      else grant_found implicit s a (discover lib a.repository)
  step_grant bound s a =
      or_refuse s (bind_error a.repository a) (grant_found bound s a (discover lib a.repository))
  step_grant explicit s a = grant_found explicit s a (discover lib a.repository)

  unfoldable pub step_resolve : State → Action → Outcome
  unfolding discover resolve_found
  step_resolve s a = resolve_found s a (discover lib a.repository)

  -- the operand that is admitted first
  abbrev pub operand : Bool → Action → Target
  operand source a = record {
    path = if source then a.source_path else a.path;
    home = a.home;
    components = a.components;
    path_read = a.path_read;
    kind = a.kind;
  }

  unfoldable pub admitted : Bool → Bool → State → Action → Option Outcome → Option Outcome
  unfolding admit or_raise
  admitted removing source s a next = or_raise s (admit lib removing source (operand source a)) next

  -- the operations, behind the checks that all of them make
  unfoldable pub dispatch : Op → State → Action → Option Outcome
  unfolding admitted step_list step_binding_remove step_remove step_resolve step_grant
  dispatch list s a = some (step_list s a)
  dispatch binding_remove s a = some (step_binding_remove s a)
  dispatch remove s a = admitted true false s a (some (step_remove s a))
  dispatch resolve s a = admitted false false s a (some (step_resolve s a))
  dispatch repair s a = admitted false false s a (some (step_resolve s a))
  dispatch update s a = admitted false false s a (some (step_resolve s a))
  dispatch add s a = admitted false false s a (some (step_grant explicit s a))
  dispatch launch s a = admitted false false s a (some (step_grant implicit s a))
  dispatch bind s a = admitted false true s a (some (step_grant bound s a))
  dispatch other s a = admitted false false s a none

  -- `step(state, action)`; `none` is the ContractError of an unknown operation
  unfoldable pub step : State → Action → Option Outcome
  unfolding dispatch
  step s a =
      if unsupported (wanted a)
      then some (refuse s "workspace_trust_environment_unsupported")
      else if unreadable s a
      then some (refuse s "workspace_trust_ledger_unreadable")
      else if not (reads a.transaction_read "ok" "ok")
      then some (refuse s "workspace_trust_ledger_unreadable")
      else dispatch a.op s a
