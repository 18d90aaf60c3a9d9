-- ===== src/Tests/WorkspaceRuns.antt =====
-- The consent ledger at concrete records and actions.
use curator_spec.Prelude.{[], false, none, refl, some, true, ◌∷◌, ◌≡◌, ◌⊎◌}
use curator_spec.Text.{codes}
use curator_spec.WorkspaceTrust.Paths.{Library, posix, exact_path, within}
use curator_spec.WorkspaceTrust.Model.{
  active, revoked, Consent, State, Action, Observation, explicit_grant, Op, resolve, remove, add,
}
use curator_spec.WorkspaceTrust.Step.{observe, time}
use curator_spec.Text.Space.{strip}
use curator_spec.WorkspaceTrust.Grant.{step}
use curator_spec.WorkspaceTrust.Replay.{IsQuiet, IsRecorded, step-Once}
use curator_spec.WorkspaceTrust.Ledger.{Extends, step-Extends}
use curator_spec.WorkspaceTrust.Consent.{IsConsented, authorized-IsConsented}

-- a Posix host whose remotes are never URLs
abbrev host : Library
host = record { windows = posix; urlsplit = λ s. none }

aliases :
    (exact_path host (some (codes "/work/../app")) ≡ false)
    × (exact_path host (some (codes "/work//app")) ≡ false)
    × (exact_path host (some (codes "/")) ≡ false)
    × (exact_path host (some (codes "/work/app")) ≡ true)
unfolding exact_path
aliases = (refl, refl, refl, refl)

inside_root :
    (within host (codes "/work/app") (codes "/work") ≡ true)
    × (within host (codes "/work2/app") (codes "/work") ≡ false)
unfolding within
inside_root = (refl, refl)

abbrev granted : Consent
granted = record {
  grant_id = "g1";
  environment = "claude_code";
  path = some (codes "/work/app");
  event = explicit_grant;
  reason = "trusted by hand";
  repository = none;
  binding = none;
  state = record { status = active; time = time; reason = "consent recorded" };
  state_history = [];
}

abbrev ledger : State
ledger = record {
  records = granted ∷ [];
  bindings = [];
  transactions = "g1" ∷ [];
  pending_cleanup = false;
}

abbrev nothing : State
nothing = record { records = []; bindings = []; transactions = []; pending_cleanup = false }

abbrev action : Op → Action
action op = record {
  op = op;
  environment = "claude_code";
  environments = none;
  ledger = none;
  transaction_read = none;
  commit = none;
  path = some (codes "/work/app");
  source_path = none;
  home = some (codes "/home/op");
  components = [];
  path_read = none;
  kind = none;
  cleanup = none;
  repository = none;
  selection_ok = true;
  binding_id = "";
  grant_id = "g1";
  reason = some "trusted by hand";
  profile = "";
  trigger = "";
}

abbrev seen : Observation
seen = record {
  diagnostic = none;
  authorized = true;
  active = "g1" ∷ [];
  references = [];
  installed = [];
  pending_cleanup = false;
  listed = none;
}

abbrev unseen : Observation
unseen = record seen { authorized = false; active = [] }

abbrev withdrawn : Consent
withdrawn = record granted {
  state = record { status = revoked; time = time; reason = "operator removed consent" };
  state_history = granted.state ∷ [];
}

resolved : step host ledger (action resolve) ≡ some (ledger, seen)
unfolding step observe
resolved = refl

added : step host nothing (action add) ≡ some (ledger, record seen { authorized = false })
unfolding step observe strip
added = refl

removed :
    step host ledger (action remove) ≡ some (record ledger { records = withdrawn ∷ [] }, unseen)
unfolding step observe
removed = refl

step-Extends_example : Extends ledger.records (withdrawn ∷ [])
step-Extends_example =
    step-Extends host ledger (record ledger { records = withdrawn ∷ [] }) (action remove) unseen
      removed

authorized-IsConsented_example : IsConsented host ledger (action resolve) ledger
authorized-IsConsented_example =
    authorized-IsConsented host ledger ledger (action resolve) seen resolved refl

step-Once_example : IsQuiet nothing ledger ⊎ IsRecorded nothing ledger (action add)
step-Once_example =
    step-Once host nothing ledger (action add) (record seen { authorized = false }) added

replayed : step host ledger (action add) ≡ some (ledger, record seen { authorized = false })
unfolding step observe strip
replayed = refl
