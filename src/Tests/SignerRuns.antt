-- ===== src/Tests/SignerRuns.antt =====
-- A signed candidate, and an update of a lock of three members.
use curator_spec.Signers.Merge.{e1_expected_merge, Merge}
use curator_spec.Text.{codes, Text}
use curator_spec.Prelude.{
  List, Result, String, [], false, inl, map, none, ok, refl, some, true, ◌↔◌, ◌∷◌, ◌≡◌,
}
use curator_spec.Json.{
  get, Value, Items, Fields, str, arr, obj, bool, null, item, no_items, member, bare,
}
use curator_spec.Text.{text_eq}
use curator_spec.Signers.{
  Candidate, Verification, ssh_key, check_candidate, e1_expected_verification,
}
use curator_spec.Signers.Authentic.{IsSigned, Accepts, e1_expected_verification-IsSigned}
use curator_spec.Signers.Delta.{
  LockMember, commit, state, member_key, member_at, delta_lines, print_line,
}
use curator_spec.Signers.Lines.{apply_lines, delta_lines-apply_lines}
use curator_spec.Signers.Trigger.{Snapshot, snapshot_of, e1_trigger, e1_revision_outcomes}
use curator_spec.Signers.Quiet.{IsQuiet, e1_trigger-IsQuiet}

abbrev ssh_signer : String → Value
ssh_signer key = obj (member "type" (str "ssh") (member "key" (str key) bare))

abbrev candidate : String → Value
candidate key = obj (
    member "version" (str "1.2.0") (
      member "form" (str "range") (
        member "tag" (str "v1.2.0") (
          member "commit" (str "c1") (
            member "tag_signature"
              (obj (member "signer" (ssh_signer key) (member "valid" (bool true) bare))) bare)))))

abbrev allowlist : Items
allowlist = item (ssh_signer "ssh-ed25519 AAAA ops@example.com") no_items

abbrev case : String → Fields
case key = member "source_kind" (str "git") (
    member "require_source_signers" (bool true) (
      member "allowlist" (arr allowlist)
        (member "candidates" (arr (item (candidate key) no_items)) bare)))

abbrev accepted : Verification
accepted = record {
  verdict = "accepted";
  diagnostic = none;
  selected = some "1.2.0";
  lock_written = true;
  signers_seen = ssh_key (codes "ssh-ed25519 AAAA") ∷ [];
}

accepts_with_another_comment :
    e1_expected_verification (case "ssh-ed25519 AAAA laptop") ≡ ok accepted
unfolding e1_expected_verification text_eq
accepts_with_another_comment = refl

e1_expected_verification-IsSigned_example :
    (top : Candidate) × (check_candidate (candidate "ssh-ed25519 AAAA laptop") ≡ ok top)
    × (Accepts top accepted ↔ IsSigned allowlist top)
e1_expected_verification-IsSigned_example =
    e1_expected_verification-IsSigned (case "ssh-ed25519 AAAA laptop") accepted allowlist
      (candidate "ssh-ed25519 AAAA laptop") no_items (unfold get in refl) (unfold get in refl)
      accepts_with_another_comment

abbrev base : LockMember
base = record { kind = "context"; name = "base"; version = some "1.0.0"; pin = commit "a1" }

abbrev base_moved : LockMember
base_moved = record { kind = "context"; name = "base"; version = some "1.1.0"; pin = commit "a2" }

abbrev tools : LockMember
tools = record { kind = "skill"; name = "tools"; version = none; pin = state "b1" }

abbrev style : LockMember
style = record { kind = "context"; name = "style"; version = none; pin = state "c1" }

abbrev old : List LockMember
old = tools ∷ base ∷ []

abbrev new : List LockMember
new = base_moved ∷ style ∷ []

prints_lines :
    map print_line (delta_lines old new)
    ≡ codes "lock-delta moved context base 1.0.0 → 1.1.0 commit:a1 → commit:a2"
      ∷ codes "lock-delta added context style - state:c1"
      ∷ codes "lock-delta removed skill tools - state:b1"
      ∷ []
unfolding delta_lines print_line
prints_lines = refl

delta_lines-apply_lines_example :
    apply_lines (delta_lines old new) (λ l. member_at l old) ("context", "base")
    ≡ member_at ("context", "base") new
delta_lines-apply_lines_example = delta_lines-apply_lines old new ("context", "base")

abbrev plain : Snapshot
plain = record {
  system_modules =
      record { path = "a.md"; environments = "pi" ∷ "codex_cli" ∷ []; bytes = "x" } ∷ [];
  mcp = null;
}

abbrev reordered : Snapshot
reordered = record {
  system_modules =
      record { path = "a.md"; environments = "codex_cli" ∷ "pi" ∷ []; bytes = "x" } ∷ [];
  mcp = null;
}

abbrev empty : Snapshot
empty = record { system_modules = []; mcp = null }

abbrev snapshots : List (String × Snapshot)
snapshots = ("a1", plain) ∷ ("a2", reordered) ∷ ("b1", empty) ∷ ("c1", empty) ∷ []

abbrev dumps : Value → Result Text
dumps v = ok []

without_trigger : e1_trigger dumps snapshots old new ≡ ok []
unfolding e1_trigger
without_trigger = refl

publishes : (e1_revision_outcomes [] false).1.lock_published ≡ true
unfolding e1_revision_outcomes
publishes = refl

finds_snapshot : snapshot_of base_moved.pin snapshots ≡ ok reordered
unfolding snapshot_of
finds_snapshot = refl

e1_trigger-IsQuiet_example :
    IsQuiet dumps snapshots (member_at (member_key base_moved) old) base_moved reordered
e1_trigger-IsQuiet_example =
    e1_trigger-IsQuiet dumps snapshots old new [] base_moved reordered without_trigger publishes
      (inl refl) finds_snapshot

abbrev merge_case : Fields
merge_case = member "locked" (bool true) (
    member "system" (obj (member "a" (str "system") bare))
      (member "machine" (obj (member "a" (str "machine") (member "b" (str "machine") bare))) bare))

abbrev merged : Merge
merged = record {
  effective = member "a" (str "system") (member "b" (str "machine") bare);
  warnings = "a" ∷ [];
}

merges : e1_expected_merge merge_case ≡ ok merged
unfolding e1_expected_merge
merges = refl
