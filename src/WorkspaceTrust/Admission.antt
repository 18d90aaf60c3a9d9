-- ===== src/WorkspaceTrust/Admission.antt =====
-- `discover` and `admit` of tools/workspace_trust.py.
use curator_spec.Prelude.{
  Bool, List, Option, String, [], all, any, false, if◌then◌else◌, leb, length, ltb, none, not, some,
  str_eq, true, ℕ, ◌&&◌, ◌==◌, ◌||◌, ◌∷◌,
}
use curator_spec.Text.{Text}
use curator_spec.WorkspaceTrust.Paths.{Library, exact_path, remote_safe}
use curator_spec.WorkspaceTrust.Model.{Identity, Facts, reads, same_text}

-- `(None, None)`, `(identity, None)` and `(None, diagnostic)`
pub data Discovery : Type 0 where
  no_repository : Discovery
  found : Identity → Discovery
  unverifiable : Discovery

-- `[0-9a-f]`
abbrev is_hex : ℕ → Bool
is_hex c = (leb b'0' c && leb c b'9') || (leb b'a' c && leb c b'f')

is_commit : Text → Bool
is_commit s = (length s == 40 || length s == 64) && all is_hex s

remote_named : String → List (String × Option Text) → Option (Option Text)
remote_named name [] = none
remote_named name ((n, r) ∷ rest) = if str_eq n name then some r else remote_named name rest

first_remote : List (String × Option Text) → Option Text
first_remote [] = none
first_remote ((n, r) ∷ rest) = r

-- `remotes['origin'] if 'origin' in remotes else next(iter(remotes.values()), None)`
chosen_remote : List (String × Option Text) → Option Text
unfolding remote_named first_remote
chosen_remote remotes = elim (remote_named "origin" remotes) [
  | some r ↦ r
  | none ↦ first_remote remotes
]

-- more than one remote, and none of them is `origin`
ambiguous : List (String × Option Text) → Bool
unfolding remote_named
ambiguous remotes =
    ltb 1 (length remotes) && elim (remote_named "origin" remotes) [ some r ↦ false | none ↦ true ]

-- what an operand of a transition says of its path
pub record Target : Type 0 where
  pub path : Option Text
  pub home : Option Text
  pub components : List String
  pub path_read : Option String
  pub kind : Option String

module _ (lib : Library) where
  -- the checks behind the reading of the history
  discover_root : List Text → List (String × Option Text) → Option Text → Discovery
  unfolding is_commit ambiguous chosen_remote exact_path remote_safe
  discover_root (commit ∷ []) remotes (some root) =
      if not (is_commit commit)
      then unverifiable
      else if not (exact_path lib (some root)) || ambiguous remotes
      then unverifiable
      else if not (remote_safe lib (chosen_remote remotes))
      then unverifiable
      else found
          (record { root = root; primary_remote = chosen_remote remotes; root_commit = commit })
  discover_root _ remotes root = unverifiable

  unfoldable pub discover : Option Facts → Discovery
  unfolding discover_root
  discover none = no_repository
  discover (some facts) =
      if not (reads facts.read "" "ok") || not facts.history_complete
      then unverifiable
      else discover_root facts.roots facts.remotes facts.root

  -- the diagnostic of a path that is not read as `ok`
  read_error : Bool → Option String → Option String
  read_error remove path_read =
      if reads path_read "ok" "absent"
      then (if remove then none else some "workspace_trust_path_missing")
      else some "workspace_trust_ledger_unreadable"

  -- `admit(action, remove=remove, source=source)`: `none` admits
  unfoldable pub admit : Bool → Bool → Target → Option String
  unfolding read_error exact_path same_text
  admit remove source t =
      if not (exact_path lib t.path) || same_text t.path t.home
      then some "workspace_trust_path_invalid"
      else if any (λ c. str_eq c "symlink") t.components
      then some "workspace_trust_symlink"
      else if not (reads t.path_read "ok" "ok")
      then read_error remove t.path_read
      else if remove
      then none
      else if reads t.kind "directory" "directory" || (source && reads t.kind "directory" "file")
      then none
      else some "workspace_trust_path_kind"
