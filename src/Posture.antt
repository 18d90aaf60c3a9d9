-- ===== src/Posture.antt =====
-- The security posture of a machine, of tools/validate.py: the closed vocabularies, the settings that
-- a case resolves to, and how the code reads the members of a case.
pub mod Resolve
pub mod Diagnostics
pub mod Rows
pub mod Scenarios
pub mod Scenario
pub mod Gate
pub mod Locks
pub mod Locked
pub mod Conditions
pub mod Refused
pub mod Inventory
pub mod Sound
use curator_spec.Prelude.{
  Bool, List, Option, Result, String, [], ap, err, false, if◌then◌else◌, none, ok, ok-eq, pos, some,
  str_eq, true, ◌==◌, ◌∷◌, ◌≡◌,
}
use curator_spec.Json.{
  Value, Fields, Items, null, bool, int, float, str, arr, obj, item, no_items, bare, member, get,
  is_in, field_names, equals_bool,
}

-- a value and where it comes from
pub record Setting : Type 0 where
  pub value : Value
  pub source : String

pub record EnvironmentSettings : Type 0 where
  pub mcp_package_allowlist : Setting
  pub passable_env_names : Setting
  pub transitive_system_modules : Setting
  pub require_source_signers : Setting

-- What `_posture_resolve` returns; a machine of schema 1 has no settings of environments.
pub record Resolved : Type 0 where
  pub profile : String
  pub profile_source : String
  pub audit_mode : Setting
  pub audit_registry_policy : Setting
  pub allowed_sources : Setting
  pub environments : Option EnvironmentSettings
  pub passable_env_null_explicit : Bool

-- `key in d`
abbrev pub has_key : Fields → String → Bool
has_key d key = is_in key (field_names d)

-- a member that must be a dict, and one that may be missing
abbrev pub object_of : Value → String → Result Fields
object_of (obj d) message = ok d
object_of _ message = err message

abbrev pub object_at : Fields → String → String → Result Fields
object_at d key message = if has_key d key then object_of (get d key) message else ok bare

-- `isinstance(v, list)`
abbrev pub is_list : Value → Bool
is_list (arr items) = true
is_list _ = false

-- `v == 2`; `v == 1` is also `v == True`
abbrev pub is_two : Value → Bool
is_two (int (pos n)) = n == 2
is_two (float s) = str_eq s "2.0"
is_two _ = false

abbrev pub is_one : Value → Bool
is_one v = equals_bool v true

-- a list of texts
abbrev pub items_of : List String → Items
items_of [] = no_items
items_of (s ∷ ss) = item (str s) (items_of ss)

abbrev pub list_value : List Value → Items
list_value [] = no_items
list_value (v ∷ vs) = item v (list_value vs)

abbrev pub array : List String → Value
array ss = arr (items_of ss)

abbrev pub revision_default : String → String
revision_default revision = if str_eq revision "A" then "permissive" else "hardened"

abbrev pub permissive_defaults : Fields
permissive_defaults = member "audit_mode" (str "advisory") (
    member "audit_registry_policy" (str "advisory") (
      member "transitive_system_modules" (str "drop")
        (member "require_source_signers" (bool false) bare)))

abbrev pub hardened_defaults : Fields
hardened_defaults = member "audit_mode" (str "strict") (
    member "audit_registry_policy" (str "strict") (
      member "transitive_system_modules" (str "error")
        (member "require_source_signers" (bool true) bare)))

-- `SECURITY_POSTURE_DEFAULTS[profile]`
abbrev pub posture_defaults : String → Fields
posture_defaults profile =
    if str_eq profile "permissive" then permissive_defaults else hardened_defaults

-- the dicts that the code returns
abbrev environment_values : (Setting → Value) → Option EnvironmentSettings → Fields
environment_values f none = bare
environment_values f (some e) = member "mcp_package_allowlist" (f e.mcp_package_allowlist) (
    member "passable_env_names" (f e.passable_env_names) (
      member "transitive_system_modules" (f e.transitive_system_modules)
        (member "require_source_signers" (f e.require_source_signers) bare)))

abbrev settings_dict : (Setting → Value) → Resolved → Value
settings_dict f r = obj (
    member "audit_mode" (f r.audit_mode) (
      member "audit_registry_policy" (f r.audit_registry_policy)
        (member "allowed_sources" (f r.allowed_sources) (environment_values f r.environments))))

abbrev pub effective_dict : Resolved → Value
effective_dict = settings_dict Setting.value

abbrev pub sources_dict : Resolved → Value
sources_dict = settings_dict (λ s. str s.source)

pub object_of-eq :
    (v : Value) (message : String) (d : Fields) → object_of v message ≡ ok d → v ≡ obj d
object_of-eq (obj e) message d h = ap obj (ok-eq h)
object_of-eq _ message d h = absurd (cc)
