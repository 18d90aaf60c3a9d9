-- ===== src/Signers/Trigger.antt =====
-- What an update of a lock must confirm: e1_system_inventory, e1_mcp_changed, the trigger of
-- e1_expected_delta, e1_revision_outcomes and e1_expected_confirmation_posture of tools/validate.py.
use curator_spec.Text.{text_eq, Text}
use curator_spec.Prelude.{
  Bool, List, Option, Result, String, [], err, false, if◌then◌else◌, map, none, not, ok, some,
  sort_by, sorted, str_eq, text_after, true, ◌&&◌, ◌>>=◌, ◌||◌, ◌∷◌,
}
use curator_spec.Json.{is_str, Value}
use curator_spec.Canonical.{ccj1_bytes}
use curator_spec.Signers.Delta.{
  LockMember, Pin, Key, member_key, member_at, key_after, unmoved, hex_of,
}

pub record SystemModule : Type 0 where
  pub path : String
  pub environments : List String
  pub bytes : String

-- `mcp` is null for a snapshot without a declaration
pub record Snapshot : Type 0 where
  pub system_modules : List SystemModule
  pub mcp : Value

-- `>` on lists of texts
abbrev pub texts_after : List String → List String → Bool
texts_after [] ts = false
texts_after (s ∷ ss) [] = true
texts_after (s ∷ ss) (t ∷ ts) = if str_eq s t then texts_after ss ts else text_after s t

abbrev pub same_texts : List String → List String → Bool
same_texts [] [] = true
same_texts (s ∷ ss) (t ∷ ts) = str_eq s t && same_texts ss ts
same_texts _ _ = false

-- `>` on `(path, environments, bytes)`
abbrev pub module_after : SystemModule → SystemModule → Bool
module_after m n =
    if str_eq m.path n.path
    then (if same_texts m.environments n.environments
        then text_after m.bytes n.bytes
        else texts_after m.environments n.environments)
    else text_after m.path n.path

-- `(path, tuple(sorted(environments)), bytes)`
abbrev with_sorted_environments : SystemModule → SystemModule
with_sorted_environments m = record {
  path = m.path;
  environments = sorted m.environments;
  bytes = m.bytes;
}

unfoldable pub e1_system_inventory : Snapshot → List SystemModule
unfolding sort_by sorted
e1_system_inventory s = sort_by module_after (map with_sorted_environments s.system_modules)

abbrev pub same_module : SystemModule → SystemModule → Bool
same_module m n =
    str_eq m.path n.path && (same_texts m.environments n.environments && str_eq m.bytes n.bytes)

-- `==` on inventories
abbrev pub same_inventory : List SystemModule → List SystemModule → Bool
same_inventory [] [] = true
same_inventory (m ∷ ms) (n ∷ ns) = same_module m n && same_inventory ms ns
same_inventory _ _ = false

-- `snapshots[pin]`
unfoldable pub snapshot_of : Pin → List (String × Snapshot) → Result Snapshot
snapshot_of p [] = err "KeyError"
snapshot_of p ((hex, s) ∷ rest) =
    let later = snapshot_of p rest in if str_eq hex (hex_of p) then ok s else later

-- an added member of that kind with something to confirm
abbrev pub triggers_added : String → List SystemModule → Bool
triggers_added kind [] = str_eq kind "mcp"
triggers_added kind (m ∷ ms) = str_eq kind "context" || str_eq kind "mcp"

abbrev pub with_key : Bool → Key → List Key → List Key
with_key b k ks = if b then k ∷ ks else ks

unfoldable pub e1_mcp_changed : (Value → Result Text) → Value → Value → Result Bool
unfolding ccj1_bytes text_eq
e1_mcp_changed dumps old new = do
  a ← ccj1_bytes dumps old
  b ← ccj1_bytes dumps new
  ok (not (text_eq a b))

-- whether the snapshots of a moved member of that kind differ in what must be confirmed
unfoldable pub compare_snapshots :
    (Value → Result Text) → String → Snapshot → Snapshot → Result Bool
unfolding e1_mcp_changed e1_system_inventory
compare_snapshots dumps kind s t =
    if str_eq kind "context"
    then ok (not (same_inventory (e1_system_inventory s) (e1_system_inventory t)))
    else if str_eq kind "mcp"
    then e1_mcp_changed dumps s.mcp t.mcp
    else ok false

module _ (dumps : Value → Result Text) (snapshots : List (String × Snapshot)) where
  -- the snapshots of a member before and after
  unfoldable pub compare_pins : LockMember → LockMember → Result Bool
  unfolding compare_snapshots snapshot_of
  compare_pins before after = do
    s ← snapshot_of before.pin snapshots
    t ← snapshot_of after.pin snapshots
    compare_snapshots dumps after.kind s t

  -- whether a member that both locks have has something to confirm
  unfoldable pub triggers_moved : LockMember → LockMember → Result Bool
  unfolding compare_pins
  triggers_moved before after = if unmoved before after then ok false else compare_pins before after

  unfoldable pub triggers_at : Option LockMember → LockMember → Result Bool
  unfolding triggers_moved
  triggers_at none m = do
    s ← snapshot_of m.pin snapshots
    ok (triggers_added m.kind s.system_modules)
  triggers_at (some before) m = triggers_moved before m

  unfoldable pub trigger_keys : List LockMember → List LockMember → Result (List Key)
  unfolding triggers_at member_at
  trigger_keys old [] = ok []
  trigger_keys old (m ∷ ms) = do
    b ← triggers_at (member_at (member_key m) old) m
    keys ← trigger_keys old ms
    ok (with_key b (member_key m) keys)

  -- `[trigger[key] for key in sorted(trigger)]`
  unfoldable pub e1_trigger : List LockMember → List LockMember → Result (List String)
  unfolding trigger_keys sort_by
  e1_trigger old new = do keys ← trigger_keys old new; ok (map (λ k. k.1) (sort_by key_after keys))

pub record RevisionOutcome : Type 0 where
  pub diagnostic : Option String
  pub hint : Option String
  pub proceeds : Bool
  pub lock_published : Bool

abbrev hint_delta : String
hint_delta =
    "revision B refuses with profile_update_confirmation_required unless --confirm-system-delta is given"

abbrev when_triggered : List String → String → Option String
when_triggered [] s = none
when_triggered (t ∷ ts) s = some s

-- the outcomes under revisions A and B
unfoldable pub e1_revision_outcomes : List String → Bool → RevisionOutcome × RevisionOutcome
e1_revision_outcomes trigger flag = (
  record {
    diagnostic = when_triggered trigger "profile_update_system_delta";
    hint = when_triggered trigger hint_delta;
    proceeds = true;
    lock_published = true;
  },
  elim trigger [
    | [] ↦ record { diagnostic = none; hint = none; proceeds = true; lock_published = true }
    | t ∷ ts ↦ record {
      diagnostic = if flag then none else some "profile_update_confirmation_required";
      hint = none;
      proceeds = flag;
      lock_published = flag;
    }
  ],
)

-- the behaviour of a revision
unfoldable pub e1_expected_confirmation_posture : Value → Result (String × String)
e1_expected_confirmation_posture v =
    if is_str v "A-warning"
    then ok ("A-warning", "a triggered update delta warns profile_update_system_delta and proceeds")
    else if is_str v "B-flip"
    then ok (
      "B-flip",
      "a triggered update delta refuses profile_update_confirmation_required unless --confirm-system-delta is given",
    )
    else err "update_confirmation_revision must be A-warning or B-flip"
