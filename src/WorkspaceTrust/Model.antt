-- ===== src/WorkspaceTrust/Model.antt =====
-- The data of tools/workspace_trust.py: records, state, actions and observations.
use curator_spec.Prelude.{Bool, List, Option, String, false, none, some, str_eq, true, ◌&&◌}
use curator_spec.Text.{Text, text_eq}

pub data Status : Type 0 where
  active revoked lapsed : Status

abbrev pub is_active : Status → Bool
is_active active = true
is_active _ = false

abbrev pub is_lapsed : Status → Bool
is_lapsed lapsed = true
is_lapsed _ = false

pub record Phase : Type 0 where
  pub status : Status
  pub time : String
  pub reason : String

-- a repository: `{'root', 'primary_remote', 'root_commit'}`
pub record Identity : Type 0 where
  pub root : Text
  pub primary_remote : Option Text
  pub root_commit : Text

pub record Binding : Type 0 where
  pub binding_id : String
  pub profile : String
  pub trigger : String
  pub source_path : Option Text

pub data Event : Type 0 where
  explicit_grant implicit_launch implicit_bind : Event

abbrev pub is_bind_event : Event → Bool
is_bind_event implicit_bind = true
is_bind_event _ = false

-- one consent record; the members that are the same in all of them are left out
pub record Consent : Type 0 where
  pub grant_id : String
  pub environment : String
  pub path : Option Text
  pub event : Event
  pub reason : String
  pub repository : Option Identity
  pub binding : Option Binding
  pub state : Phase
  pub state_history : List Phase

pub record State : Type 0 where
  pub records : List Consent
  pub bindings : List String
  pub transactions : List String
  pub pending_cleanup : Bool

pub data Op : Type 0 where
  list binding_remove remove resolve repair update add launch bind other : Op

-- what is observed of a repository; a missing member is `none`
pub record Facts : Type 0 where
  pub read : Option String
  pub history_complete : Bool
  pub roots : List Text
  pub remotes : List (String × Option Text)
  pub root : Option Text
  pub components : Option (List String)
  pub kind : Option String
  pub path_read : Option String

pub record Action : Type 0 where
  pub op : Op
  pub environment : String
  pub environments : Option (List String)
  pub ledger : Option String
  pub transaction_read : Option String
  pub commit : Option String
  pub path : Option Text
  pub source_path : Option Text
  pub home : Option Text
  pub components : List String
  pub path_read : Option String
  pub kind : Option String
  pub cleanup : Option String
  pub repository : Option Facts
  pub selection_ok : Bool
  pub binding_id : String
  pub grant_id : String
  pub reason : Option String
  pub profile : String
  pub trigger : String

pub record Observation : Type 0 where
  pub diagnostic : Option String
  pub authorized : Bool
  pub active : List String
  pub references : List String
  pub installed : List String
  pub pending_cleanup : Bool
  pub listed : Option (List String)

-- `d.get(key, default)` compared with a text
abbrev pub reads : Option String → String → String → Bool
reads none default wanted = str_eq default wanted
reads (some s) default wanted = str_eq s wanted

-- `==` of optional texts
unfoldable pub same_text : Option Text → Option Text → Bool
unfolding text_eq
same_text none none = true
same_text (some s) (some t) = text_eq s t
same_text _ _ = false

-- `same_identity`
unfoldable pub same_identity : Option Identity → Option Identity → Bool
unfolding same_text text_eq
same_identity none none = true
same_identity (some a) (some b) =
    text_eq a.root b.root
    && (same_text a.primary_remote b.primary_remote && text_eq a.root_commit b.root_commit)
same_identity _ _ = false
